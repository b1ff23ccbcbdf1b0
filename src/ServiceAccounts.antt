-- ===== src/ServiceAccounts.antt =====
-- ServiceAccounts and their role bindings (operator/internal/controller/service_account_helper.go).
pub mod Loops
pub mod Gate
pub mod Grants
pub mod Complete
use permission_binder_operat.Prelude.{
  String, Bool, true, false, not, ◌||◌, ◌&&◌, Option, none, some, List, [], ◌∷◌, Result, ok, err,
  if◌then◌else◌, ◌==◌,
}
use permission_binder_operat.GoString.{◌<>◌, replace_all}
use permission_binder_operat.GoMap.{GoMap, insert}
use permission_binder_operat.Ownership.{
  annotation_permission_binder, annotation_permission_binder_namespace, annotation_role, NilMap,
  Owner, can_take_ownership, read,
}
use permission_binder_operat.Stamp.{or_empty}
use permission_binder_operat.Cluster.{
  Subject, RoleBinding, ServiceAccount, Fetch, found, not_found, failed, Client, System, count,
  Metric, ownership_conflict, service_account_created, OpError, get_failed, create_failed,
  update_failed, delete_failed,
}
use permission_binder_operat.RoleBindings.{cluster_role_ref}

abbrev pub annotation_created_by : String
annotation_created_by = "permission-binder.io/created-by"

abbrev pub annotation_sa_type : String
annotation_sa_type = "permission-binder.io/sa-type"

abbrev pub annotation_service_account : String
annotation_service_account = "permission-binder.io/service-account"

abbrev pub app_managed_by : String
app_managed_by = "app.kubernetes.io/managed-by"

abbrev pub app_component : String
app_component = "app.kubernetes.io/component"

abbrev pub app_name : String
app_name = "app.kubernetes.io/name"

or_default : String → String
or_default pattern = if pattern == "" then "{namespace}-sa-{name}" else pattern

-- `GenerateServiceAccountName`
unfoldable pub generate_service_account_name : String → String → String → String
unfolding or_default
generate_service_account_name pattern namespace name =
    replace_all (replace_all (or_default pattern) "{namespace}" namespace) "{name}" name

-- The arguments of `ProcessServiceAccounts`, but for the mapping.
pub record Setting : Type 0 where
  pub managed_by : String
  pub namespace : String
  pub naming_pattern : String
  pub owner : Owner

abbrev pub full_name : Setting → String → String
full_name env sa_name = generate_service_account_name env.naming_pattern env.namespace sa_name

abbrev pub binding_name : Setting → String → String
binding_name env sa_name = "sa-" <> env.namespace <> "-" <> sa_name

-- The ServiceAccount that is created.
pub new_account : Setting → String → String → ServiceAccount
new_account env sa_name role = record {
  namespace = env.namespace;
  name = full_name env sa_name;
  labels = some (
      (app_managed_by, env.managed_by)
      ∷ (app_component, sa_name)
      ∷ (app_name, env.owner.name)
      ∷ []);
  annotations = some (
      (annotation_created_by, env.managed_by)
      ∷ (annotation_sa_type, sa_name)
      ∷ (annotation_role, role)
      ∷ (annotation_permission_binder, env.owner.name)
      ∷ (annotation_permission_binder_namespace, env.owner.namespace)
      ∷ []);
}

abbrev pub account_subject : Setting → String → Subject
account_subject env sa_name = record {
  api_group = "";
  kind = "ServiceAccount";
  name = full_name env sa_name;
  namespace = env.namespace;
}

-- The role binding that is created.
pub new_account_binding : Setting → String → String → RoleBinding
new_account_binding env sa_name role = record {
  namespace = env.namespace;
  name = binding_name env sa_name;
  labels = some (
      (app_managed_by, env.managed_by)
      ∷ (app_component, "service-account-binding")
      ∷ (app_name, env.owner.name)
      ∷ []);
  annotations = some (
      (annotation_created_by, env.managed_by)
      ∷ (annotation_service_account, full_name env sa_name)
      ∷ (annotation_sa_type, sa_name)
      ∷ (annotation_permission_binder, env.owner.name)
      ∷ (annotation_permission_binder_namespace, env.owner.namespace)
      ∷ []);
  role_ref = cluster_role_ref role;
  subjects = account_subject env sa_name ∷ [];
}

-- There is no subject, or the first one has another name.
pub subject_drifted : String → List Subject → Bool
subject_drifted name [] = true
subject_drifted name (subject ∷ rest) = not (subject.name == name)

-- `needsUpdate`
pub is_drifted : Setting → String → String → RoleBinding → Bool
is_drifted env sa_name role rb =
    not (rb.role_ref.name == role) || subject_drifted (full_name env sa_name) rb.subjects

-- `stampOutdated`
pub is_outdated : Setting → RoleBinding → Bool
is_outdated env rb =
    not (read annotation_permission_binder_namespace rb.annotations == env.owner.namespace)
    || not (read annotation_permission_binder rb.annotations == env.owner.name)

pub restamp_owner : Setting → RoleBinding → RoleBinding
restamp_owner env rb = record rb {
  annotations = some (
      insert annotation_permission_binder_namespace env.owner.namespace
        (insert annotation_permission_binder env.owner.name (or_empty rb.annotations)));
}

-- What `ProcessServiceAccounts` returns: the accounts processed so far, and the error if there is one.
pub record Outcome : Type 0 where
  pub processed : List String
  pub error : Option OpError

module _ {W : Type 0} (client : Client W) (env : Setting) where
  -- A write whose failure ends the run with the error `e`, and whose success answers `b`.
  pub attempt : OpError → Bool → System W → Bool × W → Result OpError Bool × System W
  attempt e b s (true, w) = (ok b, record s { world = w })
  attempt e b s (false, w) = (err e, record s { world = w })

  pub count_created : String → Result OpError Bool × System W → Result OpError Bool × System W
  count_created sa_name (ok b, s) = (ok b, count (service_account_created env.namespace sa_name) s)
  count_created sa_name (err e, s) = (err e, s)

  pub account_fetched :
      String → String → Fetch ServiceAccount → System W → Result OpError Bool × System W
  account_fetched sa_name role (found sa) s = (ok true, s)
  account_fetched sa_name role not_found s = count_created sa_name (
      attempt create_failed true s
        (client.service_accounts.create (new_account env sa_name role) s.world))
  account_fetched sa_name role failed s = (err get_failed, s)

  -- Step 1: the ServiceAccount; one that exists is left as it is.
  pub ensure_account : String → String → System W → Result OpError Bool × System W
  ensure_account sa_name role s =
      account_fetched sa_name role
        (client.service_accounts.get (env.namespace, full_name env sa_name) s.world) s

  pub create_binding : String → String → System W → Result OpError Bool × System W
  create_binding sa_name role s =
      attempt create_failed true s
        (client.role_bindings.create (new_account_binding env sa_name role) s.world)

  pub recreate_removed : String → String → System W → Bool × W → Result OpError Bool × System W
  recreate_removed sa_name role s (true, w) = create_binding sa_name role (record s { world = w })
  recreate_removed sa_name role s (false, w) = (err delete_failed, record s { world = w })

  pub update_binding : String → String → RoleBinding → System W → Result OpError Bool × System W
  update_binding sa_name role rb s = elim (is_drifted env sa_name role rb) [
    | true ↦ recreate_removed sa_name role s (client.role_bindings.remove rb s.world)
    | false ↦ elim (is_outdated env rb) [
      | true ↦
          attempt update_failed true s (client.role_bindings.update (restamp_owner env rb) s.world)
      | false ↦ (ok true, s)
    ]
  ]

  -- The answer is false if the gate refused.
  pub binding_fetched :
      String → String → Fetch RoleBinding → System W → Result OpError Bool × System W
  binding_fetched sa_name role (found rb) s = elim (can_take_ownership rb.annotations env.owner) [
    | true ↦ update_binding sa_name role rb s
    | false ↦ (ok false, count (ownership_conflict "serviceaccount_rolebinding") s)
  ]
  binding_fetched sa_name role not_found s = create_binding sa_name role s
  binding_fetched sa_name role failed s = (err get_failed, s)

  -- Step 2: the role binding.
  pub ensure_account_binding : String → String → System W → Result OpError Bool × System W
  ensure_account_binding sa_name role s =
      binding_fetched sa_name role
        (client.role_bindings.get (env.namespace, binding_name env sa_name) s.world) s

  pub then_binding :
      String → String → Result OpError Bool × System W → Result OpError Bool × System W
  then_binding sa_name role (ok b, s) = ensure_account_binding sa_name role s
  then_binding sa_name role (err e, s) = (err e, s)

  -- One round of the loop over the mapping.
  pub process_entry : String → String → System W → Result OpError Bool × System W
  process_entry sa_name role s = then_binding sa_name role (ensure_account sa_name role s)

  pub note : String → Bool → List String → List String
  note sa_name true processed = (env.namespace <> "/" <> full_name env sa_name) ∷ processed
  note sa_name false processed = processed

  -- The loop over the mapping; an error ends it.
  pub process_mapping : GoMap String → System W → Outcome × System W
  process_mapping [] s = (record { processed = []; error = none }, s)
  process_mapping ((sa_name, role) ∷ rest) s =
      let r = process_entry sa_name role s in
      elim r.0 [
        | ok b ↦
            let later = process_mapping rest r.1 in
            (
              record { processed = note sa_name b later.0.processed; error = later.0.error },
              later.1,
            )
        | err e ↦ (record { processed = []; error = some e }, r.1)
      ]

  -- `ProcessServiceAccounts`
  unfoldable pub process_service_accounts : GoMap String → System W → Outcome × System W
  unfolding process_mapping process_entry note then_binding ensure_account_binding binding_fetched
      update_binding recreate_removed create_binding ensure_account account_fetched count_created
      attempt restamp_owner is_outdated is_drifted subject_drifted new_account_binding new_account
  process_service_accounts mapping s = process_mapping mapping s
