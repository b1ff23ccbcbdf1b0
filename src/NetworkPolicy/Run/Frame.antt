-- ===== src/NetworkPolicy/Run/Frame.antt =====
-- What the NetworkPolicy part leaves alone.
use permission_binder_operat.Prelude.{
  String, ◌≡◌, refl, ◌∙◌, Option, none, some, List, [], ◌∷◌, Result, ok, err, ltb, Bool-cases, inl,
  inr,
}
use permission_binder_operat.NetworkPolicy.Status.{Entry, StatusError, cleanup_status}
use permission_binder_operat.NetworkPolicy.Status.Frame.{view-cleanup_status}
use permission_binder_operat.NetworkPolicy.Single.{NetState}
use permission_binder_operat.NetworkPolicy.Removed.Frame.{view-process_removed_namespaces}
use permission_binder_operat.NetworkPolicy.Periodic.Frame.{
  ScheduleBlind, view-process_network_policies, view-periodic_network_policy_reconciliation,
}
use permission_binder_operat.NetworkPolicy.Run.{
  RunSetup, NetworkBinder, enabled_count, included, warned, check_multiple_permission_binders,
  is_due, process_included, removed_processed, periodic_if_due, kept_entries, processed,
  network_part,
}

module _ {W V : Type 0} (view : W → V) (env : RunSetup W)
    (blind : ScheduleBlind view env.schedule) where
  view-warned :
      (o : Option (List NetworkBinder)) (s : NetState W)
      → view (warned env o s).world ≡ view s.world
  unfolding warned
  view-warned none s = refl
  view-warned (some binders) s = elim (Bool-cases (ltb 1 (enabled_count env.scope binders))) [
    | inl many ↦ rw many refl
    | inr few ↦ rw few refl
  ]

  view-process_included :
      (ns : List String) (s : NetState W) → view (process_included env ns s).world ≡ view s.world
  unfolding process_included
  view-process_included [] s = refl
  view-process_included (n ∷ rest) s =
      view-process_network_policies view env.schedule blind env.schedule.network.spec.batch_size
        s.entries (n ∷ rest) s

  view-periodic_if_due : (s : NetState W) → view (periodic_if_due env s).world ≡ view s.world
  unfolding periodic_if_due
  view-periodic_if_due s = elim (Bool-cases (is_due env s.last_run)) [
    | inl due ↦ rw due (view-periodic_network_policy_reconciliation view env.schedule blind s)
    | inr early ↦ rw early refl
  ]

  view-kept_entries :
      (s : NetState W) (r : Result StatusError (List Entry) × W)
      → view (kept_entries env s r).world ≡ view r.1
  unfolding kept_entries
  view-kept_entries s (ok entries, w) = refl
  view-kept_entries s (err e, w) = refl

  view-processed :
      (ns : List String) (s : NetState W) → view (processed env ns s).world ≡ view s.world
  unfolding processed removed_processed check_multiple_permission_binders
  view-processed ns s =
      let first = warned env (env.binders s.world) s in
      let second =
        process_included env
          (included env.schedule.network.match env.schedule.network.spec.exclude_namespaces ns)
          first in
      view-periodic_if_due (removed_processed env ns second)
      ∙ view-process_removed_namespaces view env.schedule.network blind.network ns second
      ∙ view-process_included
          (included env.schedule.network.match env.schedule.network.spec.exclude_namespaces ns)
          first
      ∙ view-warned (env.binders s.world) s

  -- The NetworkPolicy part writes only files, the repository with its provider, and the status: a part
  -- of the state that those writes leave alone is the same after a run.
  pub network_part-frame :
      (ns : List String) (s : NetState W) → view (network_part env ns s).world ≡ view s.world
  unfolding network_part
  network_part-frame ns s =
      let before = processed env ns s in
      let net = env.schedule.network in
      view-kept_entries before (
        cleanup_status net.status env.schedule.parse_time net.now env.retention_cutoff ns
          before.world)
      ∙ view-cleanup_status view net.status blind.network.status env.schedule.parse_time net.now
          env.retention_cutoff ns before.world
      ∙ view-processed ns s
