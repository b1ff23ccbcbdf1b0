-- ===== src/Cleanup.antt =====
-- The SAFE-MODE cleanup of a deleted PermissionBinder and the removal of obsolete role bindings
-- (operator/internal/controller/reconciliation_cleanup.go).
pub mod Sweeps
pub mod SafeMode
pub mod Obsolete
pub mod Namespaces
use permission_binder_operat.Prelude.{
  String, Bool, true, false, not, ◌||◌, ◌&&◌, Option, none, some, List, [], ◌∷◌, Result, ok, err,
  if◌then◌else◌, ◌==◌,
}
use mathlib.Core.Option
use permission_binder_operat.GoString.{◌<>◌, has_prefix}
use permission_binder_operat.GoMap.{GoMap}
use permission_binder_operat.Ownership.{
  annotation_role, label_managed_by, NilMap, Owner, is_owned_by, read,
}
use permission_binder_operat.Stamp.{mark_orphaned}
use permission_binder_operat.Permission.RoleName.{extract_role_with_mapping, role_exists}
use permission_binder_operat.Cluster.{
  Namespace, Subject, RoleBinding, Fetch, found, not_found, failed, Client, OpError, list_failed,
}

-- The label selector of the list, and the filter on the ownership annotations.
unfoldable pub is_managed : String → Owner → NilMap → NilMap → Bool
is_managed managed_by owner labels annotations =
    read label_managed_by labels == managed_by && is_owned_by annotations owner

pub managed_bindings : String → Owner → List RoleBinding → List RoleBinding
managed_bindings managed_by owner [] = []
managed_bindings managed_by owner (rb ∷ rest) =
    let others = managed_bindings managed_by owner rest in
    if is_managed managed_by owner rb.labels rb.annotations then rb ∷ others else others

pub managed_names : String → Owner → List Namespace → List String
managed_names managed_by owner [] = []
managed_names managed_by owner (ns ∷ rest) =
    let others = managed_names managed_by owner rest in
    if is_managed managed_by owner ns.labels ns.annotations then ns.name ∷ others else others

-- The objects that the cleanup writes.
abbrev pub orphan_binding : String → RoleBinding → RoleBinding
orphan_binding now rb = record rb { annotations = mark_orphaned now rb.annotations }

abbrev pub orphan_namespace : String → Namespace → Namespace
orphan_namespace now ns = record ns { annotations = mark_orphaned now ns.annotations }

-- The role of a role binding: the annotation, or what its name says.
pub role_of : GoMap String → RoleBinding → String
role_of role_mapping rb =
    if read annotation_role rb.annotations == ""
    then extract_role_with_mapping rb.name role_mapping
    else read annotation_role rb.annotations

-- The role is known and the mapping does not have it any more.
pub is_obsolete : GoMap String → RoleBinding → Bool
is_obsolete role_mapping rb =
    not (role_of role_mapping rb == "") && not (role_exists (role_of role_mapping rb) role_mapping)

pub matches_any_prefix : String → List String → Bool
matches_any_prefix group [] = false
matches_any_prefix group (prefix ∷ rest) =
    let others = matches_any_prefix group rest in
    if has_prefix group (prefix <> "-") then true else others

pub is_misnamed : List String → List Subject → Bool
is_misnamed prefixes [] = false
is_misnamed prefixes (subject ∷ rest) = not (matches_any_prefix subject.name prefixes)

module _ {W : Type 0} (client : Client W) (managed_by : String) (owner : Owner) where
  -- `getManagedNamespaces`
  pub get_managed_namespaces : W → Option (List String)
  get_managed_namespaces w = Option.map (managed_names managed_by owner) (client.namespaces.list w)

  -- `getManagedRoleBindings`
  pub get_managed_role_bindings : W → Option (List RoleBinding)
  get_managed_role_bindings w =
      Option.map (managed_bindings managed_by owner) (client.role_bindings.list w)

module _ {W : Type 0} (client : Client W) where
  -- The loop over the role bindings; an update that fails is only logged.
  pub orphan_bindings : String → List RoleBinding → W → W
  orphan_bindings now [] w = w
  orphan_bindings now (rb ∷ rest) w =
      orphan_bindings now rest (client.role_bindings.update (orphan_binding now rb) w).1

  pub orphan_fetched : String → Fetch Namespace → W → W
  orphan_fetched now (found ns) w = (client.namespaces.update (orphan_namespace now ns) w).1
  orphan_fetched now not_found w = w
  orphan_fetched now failed w = w

  -- The loop over the names of the namespaces.
  pub orphan_namespaces : String → List String → W → W
  orphan_namespaces now [] w = w
  orphan_namespaces now (n ∷ rest) w =
      orphan_namespaces now rest (orphan_fetched now (client.namespaces.get n w) w)

  -- The loops that delete; a deletion that fails is only logged.
  pub delete_where : (RoleBinding → Bool) → List RoleBinding → W → W
  delete_where doomed [] w = w
  delete_where doomed (rb ∷ rest) w =
      delete_where doomed rest (if doomed rb then (client.role_bindings.remove rb w).1 else w)

  orphan_listed : String → Option (List RoleBinding) → W → W
  orphan_listed now none w = w
  orphan_listed now (some bindings) w = orphan_bindings now bindings w

  orphan_named : String → Option (List String) → W → W
  orphan_named now none w = w
  orphan_named now (some names) w = orphan_namespaces now names w

  -- `cleanupManagedResources`, which always returns nil.
  unfoldable pub cleanup_managed_resources : String → String → Owner → W → W
  unfolding orphan_listed orphan_named orphan_bindings orphan_fetched orphan_namespaces
      get_managed_role_bindings get_managed_namespaces managed_bindings managed_names is_managed
  cleanup_managed_resources managed_by now owner w =
      let done = orphan_listed now (get_managed_role_bindings client managed_by owner w) w in
      orphan_named now (get_managed_namespaces client managed_by owner done) done

  reconcile_listed :
      List String
      → GoMap String
      → Option (List String)
      → Option (List RoleBinding)
      → W
      → Result OpError (Unit {0}) × W
  reconcile_listed prefixes role_mapping none bindings w = (err list_failed, w)
  reconcile_listed prefixes role_mapping (some names) none w = (err list_failed, w)
  reconcile_listed prefixes role_mapping (some names) (some bindings) w = (
    ok tt,
    delete_where (λ rb. is_misnamed prefixes rb.subjects) bindings
        (delete_where (is_obsolete role_mapping) bindings w),
  )

  -- `reconcileAllManagedResources`
  unfoldable pub reconcile_all_managed_resources :
      String → Owner → List String → GoMap String → W → Result OpError (Unit {0}) × W
  unfolding reconcile_listed delete_where is_misnamed matches_any_prefix is_obsolete role_of
      get_managed_role_bindings get_managed_namespaces managed_bindings managed_names is_managed
  reconcile_all_managed_resources managed_by owner prefixes role_mapping w =
      reconcile_listed prefixes role_mapping (get_managed_namespaces client managed_by owner w)
        (get_managed_role_bindings client managed_by owner w) w
