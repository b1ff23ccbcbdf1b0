-- ===== src/NetworkPolicy/Periodic/Laws.antt =====
-- What the periodic reconciliation does not do.
use mathlib.Core.Path.{fun_ext}
use permission_binder_operat.Prelude.{
  ℕ, String, Bool, true, ◌≡◌, refl, sym, ap, ◌∙◌, inl, inr, Option, none, some, List, [], ◌∷◌, All,
  Result, ◌==◌, eq_refl, arith, Bool-cases,
}
use permission_binder_operat.NetworkPolicy.Status.{Entry, get_status, has_status}
use permission_binder_operat.NetworkPolicy.Batch.{
  unprocessed, process_batch, process_batches, chunk_namespaces,
}
use permission_binder_operat.NetworkPolicy.Batch.Laws.{process_network_policies_lem}
use permission_binder_operat.NetworkPolicy.Policies.{Policy}
use permission_binder_operat.NetworkPolicy.Sources.{Credentials, get_git_credentials}
use permission_binder_operat.NetworkPolicy.Git.{Pull, Site, NewPull, tls_verify_of}
use permission_binder_operat.NetworkPolicy.Single.{NetState, at}
use permission_binder_operat.NetworkPolicy.Periodic.{
  Schedule, compared, cloned, with_credentials, check_drift, check_drift_for_namespace,
  drift_batches, for_managed, touch_last, check_stale, managed_namespaces, process_one,
  managed_changed, check_template_changes, periodic_network_policy_reconciliation,
}

pub All-skipped :
    (entries : List Entry) (namespaces : List String)
    → All (λ n. has_status n entries ≡ true) namespaces
    → unprocessed entries namespaces ≡ []
unfolding unprocessed
All-skipped entries [] h = refl
All-skipped entries (n ∷ rest) (old, h) = rw old (All-skipped entries rest h)

has_status-more :
    (n : String) (entry : Entry) (entries : List Entry)
    → has_status n entries ≡ true
    → has_status n (entry ∷ entries) ≡ true
unfolding has_status get_status
has_status-more n entry entries h = ground arith

has_status_self :
    (entry : Entry) (entries : List Entry) → has_status entry.namespace (entry ∷ entries) ≡ true
unfolding has_status get_status
has_status_self entry entries = rw (eq_refl entry.namespace) refl

All-more :
    (entry : Entry) (entries : List Entry) (namespaces : List String)
    → All (λ n. has_status n entries ≡ true) namespaces
    → All (λ n. has_status n (entry ∷ entries) ≡ true) namespaces
All-more entry entries [] h = tt
All-more entry entries (n ∷ rest) (old, h) =
    (has_status-more n entry entries old, All-more entry entries rest h)

managed_known :
    (entries : List Entry) → All (λ n. has_status n entries ≡ true) (managed_namespaces entries)
unfolding managed_namespaces
managed_known [] = tt
managed_known (entry ∷ rest) =
    let known = All-more entry rest (managed_namespaces rest) (managed_known rest) in
    elim (Bool-cases (entry.state == "pr-merged")) [
      | inl merged ↦ rw merged (has_status_self entry rest, known)
      | inr other ↦ rw other known
    ]

module _ {W : Type 0} (env : Schedule W) where
  managed_changed-same :
      (namespaces : List String) (s : NetState W)
      → All (λ n. has_status n s.entries ≡ true) namespaces
      → managed_changed env namespaces s ≡ s
  unfolding managed_changed process_batch
  managed_changed-same [] s h = refl
  managed_changed-same (n ∷ rest) s h =
      process_network_policies_lem (process_one env) env.network.spec.batch_size s.entries
        (n ∷ rest) s
      ∙ ap (λ ns. process_batch (process_one env) ns s) (All-skipped s.entries (n ∷ rest) h)

  -- The look for changed templates never does anything: the namespaces that it passes on have a status
  -- entry, and those are skipped.
  pub check_template_changes_idle : (s : NetState W) → check_template_changes env s ≡ s
  unfolding check_template_changes
  check_template_changes_idle s =
      managed_changed-same (managed_namespaces s.entries) s (managed_known s.entries)

-- The same operator before a Git provider that does something else on a push, for a new pull request,
-- for a merge and for the deletion of a branch.
abbrev pub with_writes :
    {W : Type 0}
    → (String → String → String → Credentials → Bool → W → Bool × W)
    → (Site → NewPull → W → Result String Pull × W)
    → (Site → ℕ → W → Bool × W)
    → (Site → String → W → W)
    → Schedule W
    → Schedule W
with_writes push create merge gone env = record env {
  network = record env.network {
    git = record env.network.git {
      commit_and_push = push;
      create_pr = create;
      merge_pr = merge;
      delete_branch = gone;
    };
  };
}

module _ {W : Type 0} (env : Schedule W)
    (push : String → String → String → Credentials → Bool → W → Bool × W)
    (create : Site → NewPull → W → Result String Pull × W) (merge : Site → ℕ → W → Bool × W)
    (gone : Site → String → W → W) where
  abbrev other : Schedule W
  other = with_writes push create merge gone env

  compared-same :
      (repo n : String) (w : W) (o : Option (List Policy))
      → compared other repo n w o ≡ compared env repo n w o
  unfolding compared
  compared-same repo n w none = refl
  compared-same repo n w (some policies) = refl

  cloned-same : (n : String) (r : Option String × W) → cloned other n r ≡ cloned env n r
  unfolding cloned
  cloned-same n (none, w) = refl
  cloned-same n (some repo, w) =
      ap (λ r. (r, env.network.disk.remove_all repo w))
        (compared-same repo n w (env.network.client.list n w))

  with_credentials-same :
      (n : String) (w : W) (o : Option Credentials)
      → with_credentials other n w o ≡ with_credentials env n w o
  unfolding with_credentials
  with_credentials-same n w none = refl
  with_credentials-same n w (some credentials) = cloned-same n (
      env.network.git.clone env.network.spec.git_repository.url credentials
        (tls_verify_of env.network.spec.git_repository.git_tls_verify) w)

  check_drift-same : check_drift other ≡ check_drift env
  unfolding check_drift check_drift_for_namespace
  check_drift-same = fun_ext λ (n : String). fun_ext λ (w : W).
      ap (λ r. r.1)
        (with_credentials-same n w (
          get_git_credentials env.network.disk env.network.client env.network.codec
            (
              env.network.spec.git_repository.secret_namespace,
              env.network.spec.git_repository.secret_name,
            )
            w))

  drift_batches-same :
      (ns : List String) (w : W) → drift_batches other ns w ≡ drift_batches env ns w
  unfolding drift_batches
  drift_batches-same ns w = ap (λ f. process_batches f (chunk_namespaces ns 20) w) check_drift-same

  for_managed-same :
      (ns : List String) (s : NetState W) → for_managed other ns s ≡ for_managed env ns s
  unfolding for_managed touch_last check_stale
  for_managed-same [] s = refl
  for_managed-same (n ∷ rest) s =
      let finish = λ (t : NetState W). touch_last env (check_stale env t) in
      ap finish (check_template_changes_idle other (at s (drift_batches other (n ∷ rest) s.world)))
      ∙ ap (λ w. finish (at s w)) (drift_batches-same (n ∷ rest) s.world)
      ∙ sym (
          ap finish (check_template_changes_idle env (at s (drift_batches env (n ∷ rest) s.world))))

  -- The periodic reconciliation changes nothing outside the cluster: whatever a push, a new pull
  -- request, a merge and the deletion of a branch would do, it runs the same, so a drift that it finds
  -- leads to no pull request.
  pub periodic_network_policy_reconciliation-reads :
      (s : NetState W)
      → periodic_network_policy_reconciliation other s
        ≡ periodic_network_policy_reconciliation env s
  unfolding periodic_network_policy_reconciliation
  periodic_network_policy_reconciliation-reads s = for_managed-same (managed_namespaces s.entries) s
