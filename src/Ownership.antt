-- ===== src/Ownership.antt =====
-- Who owns a cluster object, read off its annotations
-- (operator/internal/controller/reconciliation_cleanup.go, and the keys declared in
-- reconciliation_main.go).
pub mod Laws
use permission_binder_operat.Prelude.{
  String, Bool, true, false, not, Option, none, some, ◌==◌, if◌then◌else◌,
}
use permission_binder_operat.GoMap.{GoMap, value}

abbrev pub annotation_managed_by : String
annotation_managed_by = "permission-binder.io/managed-by"

abbrev pub annotation_created_at : String
annotation_created_at = "permission-binder.io/created-at"

abbrev pub annotation_permission_binder : String
annotation_permission_binder = "permission-binder.io/permission-binder"

abbrev pub annotation_permission_binder_namespace : String
annotation_permission_binder_namespace = "permission-binder.io/permission-binder-namespace"

abbrev pub annotation_role : String
annotation_role = "permission-binder.io/role"

abbrev pub annotation_orphaned_at : String
annotation_orphaned_at = "permission-binder.io/orphaned-at"

abbrev pub annotation_orphaned_by : String
annotation_orphaned_by = "permission-binder.io/orphaned-by"

abbrev pub orphaned_by_deletion : String
orphaned_by_deletion = "permission-binder-deletion"

abbrev pub label_managed_by : String
label_managed_by = "permission-binder.io/managed-by"

-- A `map[string]string` that may be nil, such as the annotations of an object.
abbrev pub NilMap : Type 0
NilMap = Option (GoMap String)

-- Reading a nil map gives "".
abbrev pub read : String → NilMap → String
read k none = ""
read k (some m) = value k m

-- The identity of a PermissionBinder: its name and namespace.
pub record Owner : Type 0 where
  pub name : String
  pub namespace : String

-- `isOwnedBy`, and `isOwnedByPermissionBinder` by the fields of the owner.
unfoldable pub is_owned_by : NilMap → Owner → Bool
is_owned_by none owner = false
is_owned_by (some annotations) owner =
    if not (value annotation_permission_binder annotations == owner.name)
    then false
    else if value annotation_permission_binder_namespace annotations == ""
    then true
    else value annotation_permission_binder_namespace annotations == owner.namespace

-- `canTakeOwnership`
unfoldable pub can_take_ownership : NilMap → Owner → Bool
can_take_ownership none owner = true
can_take_ownership (some annotations) owner =
    if value annotation_permission_binder annotations == ""
    then true
    else if is_owned_by (some annotations) owner
    then true
    else not (value annotation_orphaned_at annotations == "")
