-- ===== src/RoleBindings.antt =====
-- `validateClusterRoleExists` and `createRoleBinding` of
-- operator/internal/controller/reconciliation_rolebindings.go.
pub mod Update
pub mod Gate
pub mod Outcome
pub mod Repeat
pub mod Immutable
pub mod Frame
use permission_binder_operat.Prelude.{
  String, Bool, true, false, not, ◌||◌, ◌&&◌, Option, none, some, List, [], ◌∷◌, Result, ok, err,
  if◌then◌else◌, ◌==◌, is_some,
}
use permission_binder_operat.GoMap.{GoMap, value, insert}
use permission_binder_operat.Ownership.{
  annotation_managed_by, annotation_created_at, annotation_permission_binder,
  annotation_permission_binder_namespace, annotation_role, annotation_orphaned_at, label_managed_by,
  NilMap, Owner, can_take_ownership, read,
}
use permission_binder_operat.Stamp.{stamp_missing, unorphan, or_empty}
use permission_binder_operat.Cluster.{
  RoleRef, Subject, RoleBinding, Fetch, found, not_found, failed, Client, System, count, Metric,
  adoption_event, ownership_conflict, missing_cluster_role, OpError, get_failed, create_failed,
  update_failed,
}

-- The arguments of `createRoleBinding`.
pub record Grant : Type 0 where
  pub namespace : String
  pub name : String
  pub role : String
  pub group : String
  pub cluster_role : String

abbrev pub rbac_group : String
rbac_group = "rbac.authorization.k8s.io"

abbrev pub group_subject : String → Subject
group_subject group = record { api_group = ""; kind = "Group"; name = group; namespace = "" }

abbrev pub cluster_role_ref : String → RoleRef
cluster_role_ref name = record { api_group = rbac_group; kind = "ClusterRole"; name = name }

-- The role binding that is wanted.
pub desired_binding : String → String → Owner → Grant → RoleBinding
desired_binding managed_by now owner grant = record {
  namespace = grant.namespace;
  name = grant.name;
  annotations = some (
      (annotation_managed_by, managed_by)
      ∷ (annotation_created_at, now)
      ∷ (annotation_permission_binder, owner.name)
      ∷ (annotation_permission_binder_namespace, owner.namespace)
      ∷ (annotation_role, grant.role)
      ∷ []);
  labels = some ((label_managed_by, managed_by) ∷ []);
  role_ref = cluster_role_ref grant.cluster_role;
  subjects = group_subject grant.group ∷ [];
}

-- Go's `==` on the struct.
unfoldable pub same_role_ref : RoleRef → RoleRef → Bool
same_role_ref a b = a.api_group == b.api_group && (a.kind == b.kind && a.name == b.name)

pub same_subject : Subject → Subject → Bool
same_subject a b =
    a.api_group == b.api_group
    && (a.kind == b.kind && (a.name == b.name && a.namespace == b.namespace))

-- `reflect.DeepEqual` on the slices, of which the second is not nil.
pub same_subjects : List Subject → List Subject → Bool
same_subjects [] [] = true
same_subjects (a ∷ xs) (b ∷ ys) = same_subject a b && same_subjects xs ys
same_subjects [] (b ∷ ys) = false
same_subjects (a ∷ xs) [] = false

-- The annotations and labels that are as wanted.
pub is_stamped : String → Owner → Grant → RoleBinding → Bool
is_stamped managed_by owner grant rb =
    is_some rb.annotations
    && is_some rb.labels
    && read annotation_managed_by rb.annotations == managed_by
    && read annotation_permission_binder rb.annotations == owner.name
    && read annotation_permission_binder_namespace rb.annotations == owner.namespace
    && read annotation_role rb.annotations == grant.role
    && not (read annotation_created_at rb.annotations == "")
    && read label_managed_by rb.labels == managed_by
    && read annotation_orphaned_at rb.annotations == ""

-- `needsUpdate` after all the checks.
pub needs_update : String → Owner → Grant → RoleBinding → Bool
needs_update managed_by owner grant rb =
    not (same_role_ref rb.role_ref (cluster_role_ref grant.cluster_role))
    || not (same_subjects rb.subjects (group_subject grant.group ∷ []))
    || not (is_stamped managed_by owner grant rb)

-- The annotations that are written.
pub restamp : String → String → Owner → String → NilMap → GoMap String
restamp managed_by now owner role annotations =
    (stamp_missing annotation_created_at now (
      insert annotation_role role (
          insert annotation_permission_binder_namespace owner.namespace (
            insert annotation_permission_binder owner.name (
              insert annotation_managed_by managed_by (unorphan (or_empty annotations, false)).0))),
      false,
    )).0

-- The role binding that is written over the existing one.
pub overwrite : String → String → Owner → Grant → RoleBinding → RoleBinding
overwrite managed_by now owner grant rb = record rb {
  annotations = some (restamp managed_by now owner grant.role rb.annotations);
  labels = some (insert label_managed_by managed_by (or_empty rb.labels));
  role_ref = cluster_role_ref grant.cluster_role;
  subjects = group_subject grant.group ∷ [];
}

module _ {W : Type 0} (client : Client W) where
  -- Whether the role is there; its absence is counted and does not stop the caller.
  role_fetched : String → Fetch (Unit {0}) → System W → Bool × System W
  role_fetched name (found _) s = (true, s)
  role_fetched name not_found s = (false, count (missing_cluster_role name) s)
  role_fetched name failed s = (false, s)

  unfoldable pub validate_cluster_role_exists : String → System W → Bool × System W
  unfolding role_fetched
  validate_cluster_role_exists name s = role_fetched name (client.cluster_role name s.world) s

  -- `managed` is true unless the gate refused.
  pub written : OpError → System W → Bool × W → Result OpError Bool × System W
  written e s (true, w) = (ok true, record s { world = w })
  written e s (false, w) = (err e, record s { world = w })

  module _ (managed_by now : String) (owner : Owner) (grant : Grant) where
    pub count_adoption : RoleBinding → System W → System W
    count_adoption rb s =
        if read annotation_orphaned_at rb.annotations == "" then s else count adoption_event s

    pub bind_existing : RoleBinding → System W → Result OpError Bool × System W
    bind_existing rb s =
        if not (can_take_ownership rb.annotations owner)
        then (ok false, count (ownership_conflict "rolebinding") s)
        else if not (needs_update managed_by owner grant rb)
        then (ok true, s)
        else written update_failed (count_adoption rb s)
            (client.role_bindings.update (overwrite managed_by now owner grant rb) s.world)

    pub bind_fetched : Fetch RoleBinding → System W → Result OpError Bool × System W
    bind_fetched (found rb) s = bind_existing rb s
    bind_fetched not_found s =
        written create_failed s
          (client.role_bindings.create (desired_binding managed_by now owner grant) s.world)
    bind_fetched failed s = (err get_failed, s)

    unfoldable pub create_role_binding : System W → Result OpError Bool × System W
    unfolding bind_fetched bind_existing count_adoption written needs_update is_stamped
        same_subjects same_subject same_role_ref overwrite restamp desired_binding
    create_role_binding s =
        let (_, checked) = validate_cluster_role_exists grant.cluster_role s in
        bind_fetched (client.role_bindings.get (grant.namespace, grant.name) checked.world) checked
