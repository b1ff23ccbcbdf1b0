-- ===== src/Namespaces.antt =====
-- `ensureNamespace` of operator/internal/controller/reconciliation_rolebindings.go.
pub mod Refresh
pub mod Gate
pub mod Outcome
pub mod Frame
use permission_binder_operat.Prelude.{
  String, Bool, true, false, ◌||◌, Option, none, some, [], ◌∷◌, Result, ok, err, if◌then◌else◌,
  ◌==◌, not,
}
use permission_binder_operat.GoMap.{GoMap, value}
use permission_binder_operat.Ownership.{
  annotation_managed_by, annotation_created_at, annotation_permission_binder,
  annotation_permission_binder_namespace, annotation_orphaned_at, label_managed_by, Owner,
  can_take_ownership, read,
}
use permission_binder_operat.Stamp.{Draft, stamp, stamp_missing, unorphan, or_empty}
use permission_binder_operat.Cluster.{
  Namespace, Fetch, found, not_found, failed, Client, System, count, finish, Metric, adoption_event,
  ownership_conflict, OpError, get_failed, create_failed, update_failed,
}

-- The namespace that is created.
pub new_namespace : String → String → Owner → String → Namespace
new_namespace managed_by now owner namespace = record {
  name = namespace;
  annotations = some (
      (annotation_managed_by, managed_by)
      ∷ (annotation_created_at, now)
      ∷ (annotation_permission_binder, owner.name)
      ∷ (annotation_permission_binder_namespace, owner.namespace)
      ∷ []);
  labels = some ((label_managed_by, managed_by) ∷ []);
}

-- The annotations of an existing namespace after the checks, in their order.
pub refresh_annotations : String → String → Owner → Draft → Draft
refresh_annotations managed_by now owner d = stamp_missing annotation_created_at now (
    stamp annotation_permission_binder_namespace owner.namespace (
      stamp annotation_permission_binder owner.name
        (stamp annotation_managed_by managed_by (unorphan d))))

-- Its labels after the last check.
pub refresh_labels : String → Draft → Draft
refresh_labels managed_by d = stamp label_managed_by managed_by d

-- The namespace with both, and `needsUpdate`.
pub refresh : String → String → Owner → Namespace → Namespace × Bool
refresh managed_by now owner ns =
    let (annotations, edited) =
      refresh_annotations managed_by now owner (or_empty ns.annotations, false) in
    let (labels, changed) = refresh_labels managed_by (or_empty ns.labels, edited) in
    (record ns { annotations = some annotations; labels = some labels }, changed)

module _ {W : Type 0} (client : Client W) (managed_by now : String) (owner : Owner) where
  -- The adoption is counted where the namespace was marked as orphaned.
  pub count_adoption : Namespace → System W → System W
  count_adoption ns s =
      if read annotation_orphaned_at ns.annotations == "" then s else count adoption_event s

  pub update_existing : Namespace × Bool → System W → Result OpError (Unit {0}) × System W
  update_existing (ns, false) s = (ok tt, s)
  update_existing (ns, true) s = finish update_failed s (client.namespaces.update ns s.world)

  pub ensure_existing : Namespace → System W → Result OpError (Unit {0}) × System W
  ensure_existing ns s =
      if not (can_take_ownership ns.annotations owner)
      then (ok tt, count (ownership_conflict "namespace") s)
      else update_existing (refresh managed_by now owner ns) (count_adoption ns s)

  ensure_fetched : String → Fetch Namespace → System W → Result OpError (Unit {0}) × System W
  ensure_fetched namespace (found ns) s = ensure_existing ns s
  ensure_fetched namespace not_found s =
      finish create_failed s
        (client.namespaces.create (new_namespace managed_by now owner namespace) s.world)
  ensure_fetched namespace failed s = (err get_failed, s)

  unfoldable pub ensure_namespace : String → System W → Result OpError (Unit {0}) × System W
  unfolding ensure_fetched ensure_existing update_existing count_adoption refresh
      refresh_annotations refresh_labels new_namespace
  ensure_namespace namespace s =
      ensure_fetched namespace (client.namespaces.get namespace s.world) s
