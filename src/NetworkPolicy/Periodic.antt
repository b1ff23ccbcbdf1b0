-- ===== src/NetworkPolicy/Periodic.antt =====
-- The periodic reconciliation
-- (operator/internal/controller/networkpolicy/reconciliation_periodic.go, and `checkDriftForNamespace` of
-- network_policy_drift.go).
pub mod Laws
pub mod Frame
use permission_binder_operat.Prelude.{
  ℕ, String, Bool, true, false, Option, none, some, List, [], ◌∷◌, ◌++◌, map, Result, ok, err,
  if◌then◌else◌, ◌==◌,
}
use permission_binder_operat.NetworkPolicy.Status.{Entry, check_stale_prs}
use permission_binder_operat.NetworkPolicy.Batch.{
  chunk_namespaces, process_batch, process_batches, process_network_policies,
}
use permission_binder_operat.NetworkPolicy.Policies.{Policy}
use permission_binder_operat.NetworkPolicy.Sources.{Credentials, get_git_credentials}
use permission_binder_operat.NetworkPolicy.Git.{tls_verify_of}
use permission_binder_operat.NetworkPolicy.Drift.{Texts, drifts}
use permission_binder_operat.NetworkPolicy.Single.{
  Network, NetState, NetError, no_credentials, clone_failed, list_failed, at,
  process_network_policy_for_namespace,
}

-- What the periodic part needs besides. `touch` writes the status in memory, with its time of the last
-- reconciliation, to the cluster.
pub record Schedule (W : Type 0) : Type 0 where
  pub network : Network W
  pub texts : Texts
  pub clock : ℕ
  pub parse_time : String → Option ℕ
  pub stale_cutoff : ℕ
  pub touch : List Entry → ℕ → W → Bool × W

-- The namespaces whose pull request is merged.
unfoldable pub managed_namespaces : List Entry → List String
managed_namespaces [] = []
managed_namespaces (entry ∷ rest) =
    let others = managed_namespaces rest in
    if entry.state == "pr-merged" then entry.namespace ∷ others else others

module _ {W : Type 0} (env : Schedule W) where
  abbrev net : Network W
  net = env.network

  compared : String → String → W → Option (List Policy) → Result NetError (List Policy)
  compared repo namespace w none = err list_failed
  compared repo namespace w (some policies) = ok (
      drifts env.texts net.disk net.codec repo net.spec.git_repository.cluster_name namespace
        policies w)

  cloned : String → Option String × W → Result NetError (List Policy) × W
  cloned namespace (none, w) = (err clone_failed, w)
  cloned namespace (some repo, w) =
      (compared repo namespace w (net.client.list namespace w), net.disk.remove_all repo w)

  with_credentials : String → W → Option Credentials → Result NetError (List Policy) × W
  with_credentials namespace w none = (err no_credentials, w)
  with_credentials namespace w (some credentials) = cloned namespace (
      net.git.clone net.spec.git_repository.url credentials
        (tls_verify_of net.spec.git_repository.git_tls_verify) w)

  -- `checkDriftForNamespace`, which returns nil where it is `ok`; the policies are those for which a
  -- drift is logged.
  unfoldable pub check_drift_for_namespace : String → W → Result NetError (List Policy) × W
  unfolding with_credentials cloned compared
  check_drift_for_namespace namespace w = with_credentials namespace w (
      get_git_credentials net.disk net.client net.codec
        (net.spec.git_repository.secret_namespace, net.spec.git_repository.secret_name) w)

  -- An error is only logged.
  pub check_drift : String → W → W
  check_drift namespace w = (check_drift_for_namespace namespace w).1

  -- What is done for one namespace by `ProcessNetworkPoliciesForNamespaces`.
  abbrev pub process_one : String → NetState W → NetState W
  process_one namespace s = (process_network_policy_for_namespace net namespace s).1

  managed_changed : List String → NetState W → NetState W
  managed_changed [] s = s
  managed_changed (namespace ∷ rest) s =
      process_network_policies process_one net.spec.batch_size s.entries (namespace ∷ rest) s

  -- `checkTemplateChanges`
  unfoldable pub check_template_changes : NetState W → NetState W
  unfolding managed_changed
  check_template_changes s = managed_changed (managed_namespaces s.entries) s

  -- `checkStalePRs`, on the object in memory.
  pub check_stale : NetState W → NetState W
  check_stale s =
      let checked = check_stale_prs net.status env.parse_time env.stale_cutoff s.entries s.world in
      record s { world = checked.1; entries = checked.0 }

  -- The last write; the time stays in the object in memory if the write fails.
  pub touch_last : NetState W → Bool × NetState W
  touch_last s =
      let done = env.touch s.entries env.clock s.world in
      (done.0, record s { world = done.1; last_run = some env.clock })

  drift_batches : List String → W → W
  drift_batches namespaces w = process_batches check_drift (chunk_namespaces namespaces 20) w

  for_managed : List String → NetState W → Bool × NetState W
  for_managed [] s = touch_last s
  for_managed (namespace ∷ rest) s =
      touch_last
        (check_stale (check_template_changes (at s (drift_batches (namespace ∷ rest) s.world))))

  -- `PeriodicNetworkPolicyReconciliation`: whether it returns nil, and the state.
  unfoldable pub periodic_network_policy_reconciliation : NetState W → Bool × NetState W
  unfolding for_managed touch_last check_stale drift_batches
  periodic_network_policy_reconciliation s = for_managed (managed_namespaces s.entries) s
