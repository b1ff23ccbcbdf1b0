-- ===== src/NetworkPolicy/Run.antt =====
-- The NetworkPolicy part of a run of the main loop (the block of `Reconcile` in
-- operator/internal/controller/reconciliation_main.go), and `CheckMultiplePermissionBinders`
-- (operator/internal/controller/networkpolicy/reconciliation_validation.go).
pub mod Laws
pub mod Frame
use permission_binder_operat.Prelude.{
  ℕ, zero, suc, ◌+◌, String, Bool, true, false, not, ◌&&◌, Option, none, some, List, [], ◌∷◌,
  Result, ok, err, if◌then◌else◌, ◌==◌, leb, ltb,
}
use permission_binder_operat.Whitelist.{contains_string}
use permission_binder_operat.NetworkPolicy.Status.{Entry, StatusError, cleanup_status}
use permission_binder_operat.NetworkPolicy.Batch.{process_network_policies}
use permission_binder_operat.NetworkPolicy.Provider.{Match, ExcludeList, is_namespace_excluded}
use permission_binder_operat.NetworkPolicy.Single.{
  Network, NetState, NetMetric, multiple_binders, at, count,
}
use permission_binder_operat.NetworkPolicy.Removed.{process_removed_namespaces}
use permission_binder_operat.NetworkPolicy.Periodic.{
  Schedule, process_one, periodic_network_policy_reconciliation,
}

-- What is read of the other PermissionBinders.
pub record NetworkBinder : Type 0 where
  pub namespace : String
  pub enabled : Bool

-- `parse_duration` is `time.ParseDuration` in seconds; `retention_cutoff` is the time before which
-- entries of removed namespaces are dropped.
pub record RunSetup (W : Type 0) : Type 0 where
  pub schedule : Schedule W
  pub scope : List String
  pub binders : W → Option (List NetworkBinder)
  pub parse_duration : String → Option ℕ
  pub retention_cutoff : ℕ

-- `namespaceAllowed`
namespace_allowed : List String → String → Bool
namespace_allowed [] namespace = true
namespace_allowed (allowed ∷ rest) namespace = contains_string namespace (allowed ∷ rest)

-- `enabledCount`
unfoldable pub enabled_count : List String → List NetworkBinder → ℕ
unfolding namespace_allowed
enabled_count scope [] = 0
enabled_count scope (binder ∷ rest) =
    let others = enabled_count scope rest in
    if namespace_allowed scope binder.namespace && binder.enabled then suc others else others

-- The namespaces that are not excluded.
unfoldable pub included : Match → Option ExcludeList → List String → List String
included match excluded [] = []
included match excluded (namespace ∷ rest) =
    let others = included match excluded rest in
    if is_namespace_excluded match namespace excluded then others else namespace ∷ others

module _ {W : Type 0} (env : RunSetup W) where
  abbrev net : Network W
  net = env.schedule.network

  warned : Option (List NetworkBinder) → NetState W → NetState W
  warned none s = s
  warned (some binders) s =
      if ltb 1 (enabled_count env.scope binders) then count multiple_binders s else s

  -- `CheckMultiplePermissionBinders`; an error is only logged.
  unfoldable pub check_multiple_permission_binders : NetState W → NetState W
  unfolding warned
  check_multiple_permission_binders s = warned (env.binders s.world) s

  unfoldable pub interval_of : Option ℕ → ℕ
  interval_of none = 3600
  interval_of (some seconds) = seconds

  -- The interval, an hour where none is given or it cannot be read.
  unfoldable pub interval : ℕ
  interval = interval_of (
      env.parse_duration
        (if net.spec.reconciliation_interval == "" then "1h" else net.spec.reconciliation_interval))

  -- `shouldRunPeriodic`
  unfoldable pub is_due : Option ℕ → Bool
  is_due none = true
  is_due (some last) = leb (last + interval) env.schedule.clock

  pub process_included : List String → NetState W → NetState W
  process_included [] s = s
  process_included (namespace ∷ rest) s =
      process_network_policies (process_one env.schedule) net.spec.batch_size s.entries
        (namespace ∷ rest) s

  pub removed_processed : List String → NetState W → NetState W
  removed_processed namespaces s = (process_removed_namespaces net namespaces s).1

  pub periodic_if_due : NetState W → NetState W
  periodic_if_due s =
      if is_due s.last_run then (periodic_network_policy_reconciliation env.schedule s).1 else s

  kept_entries : NetState W → Result StatusError (List Entry) × W → NetState W
  kept_entries s (ok entries, w) = record s { world = w; entries = entries }
  kept_entries s (err e, w) = at s w

  -- What stands in front of the cleanup of the status.
  pub processed : List String → NetState W → NetState W
  processed namespaces s = periodic_if_due (
      removed_processed namespaces (
        process_included (included net.match net.spec.exclude_namespaces namespaces)
          (check_multiple_permission_binders s)))

  -- The block of `Reconcile`, for the namespaces of the role bindings that were processed.
  unfoldable pub network_part : List String → NetState W → NetState W
  unfolding processed periodic_if_due removed_processed process_included kept_entries is_due
      interval interval_of
  network_part namespaces s =
      let before = processed namespaces s in
      kept_entries before (
        cleanup_status net.status env.schedule.parse_time net.now env.retention_cutoff namespaces
          before.world)
