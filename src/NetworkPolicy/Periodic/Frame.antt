-- ===== src/NetworkPolicy/Periodic/Frame.antt =====
-- A part of the state that the periodic reconciliation does not change.
use permission_binder_operat.Prelude.{
  ℕ, String, ◌≡◌, refl, ◌∙◌, Option, none, some, List, [], ◌∷◌, ap,
}
use permission_binder_operat.NetworkPolicy.Status.{Entry}
use permission_binder_operat.NetworkPolicy.Status.Frame.{view-check_stale_prs}
use permission_binder_operat.NetworkPolicy.Batch.{
  process_batch, process_network_policies, chunk_namespaces, unprocessed,
}
use permission_binder_operat.NetworkPolicy.Batch.Laws.{
  process_network_policies_lem, process_batches-concat, concat,
}
use permission_binder_operat.NetworkPolicy.Sources.{Credentials, get_git_credentials}
use permission_binder_operat.NetworkPolicy.Git.{tls_verify_of}
use permission_binder_operat.NetworkPolicy.Single.{NetState, at}
use permission_binder_operat.NetworkPolicy.Single.Blind.{Blind}
use permission_binder_operat.NetworkPolicy.Single.Frame.{view-process_network_policy_for_namespace}
use permission_binder_operat.NetworkPolicy.Periodic.{
  Schedule, managed_namespaces, cloned, with_credentials, check_drift, check_drift_for_namespace,
  process_one, check_template_changes, check_stale, touch_last, drift_batches, for_managed,
  periodic_network_policy_reconciliation,
}
use permission_binder_operat.NetworkPolicy.Periodic.Laws.{check_template_changes_idle}

pub record ScheduleBlind {W V : Type 0} (view : W → V) (env : Schedule W) : Type 0 where
  pub network : Blind view env.network
  pub touch :
      (entries : List Entry) (clock : ℕ) (w : W) → view (env.touch entries clock w).1 ≡ view w

-- A loop of rounds that leave the part alone.
pub view-process_batch :
    {S V : Type 0} (view : S → V) (process : String → S → S)
    → ((n : String) (s : S) → view (process n s) ≡ view s)
    → (ns : List String) (s : S) → view (process_batch process ns s) ≡ view s
unfolding process_batch
view-process_batch view process h [] s = refl
view-process_batch view process h (n ∷ rest) s =
    view-process_batch view process h rest (process n s) ∙ h n s

module _ {W V : Type 0} (view : W → V) (env : Schedule W) (blind : ScheduleBlind view env) where
  -- What is done for the namespaces of a batch.
  pub view-process_network_policies :
      (size : ℕ) (entries : List Entry) (ns : List String) (s : NetState W)
      → view (process_network_policies (process_one env) size entries ns s).world ≡ view s.world
  view-process_network_policies size entries ns s =
      ap (λ (t : NetState W). view t.world)
        (process_network_policies_lem (process_one env) size entries ns s)
      ∙ view-process_batch (λ t. view t.world) (process_one env)
          (view-process_network_policy_for_namespace view env.network blind.network)
          (unprocessed entries ns) s

  view-cloned : (n : String) (r : Option String × W) → view (cloned env n r).1 ≡ view r.1
  unfolding cloned
  view-cloned n (none, w) = refl
  view-cloned n (some repo, w) = blind.network.disk.remove_all repo w

  view-with_credentials :
      (n : String) (w : W) (o : Option Credentials) → view (with_credentials env n w o).1 ≡ view w
  unfolding with_credentials
  view-with_credentials n w none = refl
  view-with_credentials n w (some c) =
      let url = env.network.spec.git_repository.url in
      let tls = tls_verify_of env.network.spec.git_repository.git_tls_verify in
      view-cloned n (env.network.git.clone url c tls w) ∙ blind.network.git.clone url c tls w

  view-check_drift : (n : String) (w : W) → view (check_drift env n w) ≡ view w
  unfolding check_drift check_drift_for_namespace
  view-check_drift n w = view-with_credentials n w (
      get_git_credentials env.network.disk env.network.client env.network.codec
        (
          env.network.spec.git_repository.secret_namespace,
          env.network.spec.git_repository.secret_name,
        )
        w)

  view-touch_last : (s : NetState W) → view (touch_last env s).1.world ≡ view s.world
  unfolding touch_last
  view-touch_last s = blind.touch s.entries env.clock s.world

  view-check_stale : (s : NetState W) → view (check_stale env s).world ≡ view s.world
  unfolding check_stale
  view-check_stale s =
      view-check_stale_prs view env.network.status blind.network.status env.parse_time
        env.stale_cutoff s.entries s.world

  view-drift_batches : (ns : List String) (w : W) → view (drift_batches env ns w) ≡ view w
  unfolding drift_batches
  view-drift_batches ns w =
      ap view (process_batches-concat (check_drift env) (chunk_namespaces ns 20) w)
      ∙ view-process_batch view (check_drift env) view-check_drift (concat (chunk_namespaces ns 20))
          w

  view-for_managed :
      (ns : List String) (s : NetState W) → view (for_managed env ns s).1.world ≡ view s.world
  unfolding for_managed
  view-for_managed [] s = view-touch_last s
  view-for_managed (n ∷ rest) s =
      let drifted = at s (drift_batches env (n ∷ rest) s.world) in
      view-touch_last (check_stale env (check_template_changes env drifted))
      ∙ view-check_stale (check_template_changes env drifted)
      ∙ ap (λ (t : NetState W). view t.world) (check_template_changes_idle env drifted)
      ∙ view-drift_batches (n ∷ rest) s.world

  pub view-periodic_network_policy_reconciliation :
      (s : NetState W) → view (periodic_network_policy_reconciliation env s).1.world ≡ view s.world
  unfolding periodic_network_policy_reconciliation
  view-periodic_network_policy_reconciliation s = view-for_managed (managed_namespaces s.entries) s
