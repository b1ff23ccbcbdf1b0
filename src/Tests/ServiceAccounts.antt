-- ===== src/Tests/ServiceAccounts.antt =====
-- `ProcessServiceAccounts` on a cluster in memory.
use permission_binder_operat.Prelude.{
  String, ◌≡◌, refl, ◌⊎◌, inl, inr, false, none, some, [], ◌∷◌, eq_iff, arith, In,
}
use permission_binder_operat.GoString.{replace_all, has_prefix, cut_prefix, chars}
use permission_binder_operat.GoMap.{GoMap, lookup, value}
use permission_binder_operat.Ownership.{
  annotation_permission_binder, annotation_permission_binder_namespace, Owner, is_owned_by,
  can_take_ownership,
}
use permission_binder_operat.Cluster.{RoleBinding, ServiceAccount, found, System}
use permission_binder_operat.Cluster.Memory.{
  Memory, empty, memory_client, role_bindings_laws, table_kind,
}
use permission_binder_operat.RoleBindings.{cluster_role_ref}
use permission_binder_operat.ServiceAccounts.{
  Setting, generate_service_account_name, process_service_accounts,
}
use permission_binder_operat.ServiceAccounts.Gate.{Apart, process_service_accounts-foreign}
use permission_binder_operat.ServiceAccounts.Grants.{Bound, Shut}
use permission_binder_operat.ServiceAccounts.Complete.{process_service_accounts_outcome}

default_name : generate_service_account_name "" "prod" "deploy" ≡ "prod-sa-deploy"
unfolding generate_service_account_name replace_all has_prefix cut_prefix chars
default_name = refl

abbrev bob : Owner
bob = record { name = "binder"; namespace = "team-b" }

abbrev env : Setting
env = record { managed_by = "op"; namespace = "prod"; naming_pattern = ""; owner = bob }

abbrev mapping : GoMap String
mapping = ("deploy", "edit") ∷ ("runtime", "view") ∷ []

-- A role binding that another PermissionBinder has a live claim on.
abbrev theirs : RoleBinding
theirs = record {
  namespace = "prod";
  name = "sa-prod-deploy";
  annotations = some (
      (annotation_permission_binder, "binder")
      ∷ (annotation_permission_binder_namespace, "team-a")
      ∷ []);
  labels = none;
  role_ref = cluster_role_ref "admin";
  subjects = [];
}

abbrev account : ServiceAccount
account = record { namespace = "prod"; name = "prod-sa-deploy"; annotations = none; labels = none }

abbrev world : System Memory
world = record {
  world = record empty { role_bindings = theirs ∷ []; service_accounts = account ∷ [] };
  metrics = [];
}

pub memory-Apart : Apart memory_client
unfolding table_kind
memory-Apart = record {
  account-create = λ sa w k. refl;
  binding-create = λ rb w k. refl;
  binding-update = λ rb w k. refl;
  binding-remove = λ rb w k. refl;
}

theirs_found : memory_client.role_bindings.get ("prod", "sa-prod-deploy") world.world ≡ found theirs
unfolding table_kind
theirs_found = refl

account_found :
    memory_client.service_accounts.get ("prod", "prod-sa-deploy") world.world ≡ found account
unfolding table_kind
account_found = refl

shut_to_bob : can_take_ownership theirs.annotations bob ≡ false
unfolding can_take_ownership is_owned_by value lookup
shut_to_bob = refl

process_service_accounts-foreign_example :
    memory_client.role_bindings.get
      ("prod", "sa-prod-deploy")
      (process_service_accounts memory_client env mapping world).1.world
    ≡ found theirs
process_service_accounts-foreign_example =
    process_service_accounts-foreign memory_client role_bindings_laws env memory-Apart mapping world
      ("prod", "sa-prod-deploy") theirs theirs_found shut_to_bob

run :
    (process_service_accounts memory_client env mapping world).0
    ≡ record { processed = "prod/prod-sa-runtime" ∷ []; error = none }
unfolding process_service_accounts table_kind can_take_ownership is_owned_by value lookup
    generate_service_account_name replace_all has_prefix cut_prefix chars
run = refl

no_error : (process_service_accounts memory_client env mapping world).0.error ≡ none
no_error = rw run refl

deploy_apart : In {A = String} "deploy" ("runtime" ∷ []) → ⊥
deploy_apart (inl e) = ground (arith, eq_iff "deploy" "runtime")
deploy_apart (inr h) = absurd h

process_service_accounts_outcome_example :
    Bound memory_client role_bindings_laws env "runtime" "view"
      (process_service_accounts memory_client env mapping world).1.world
    ⊎ Shut memory_client role_bindings_laws env "runtime" world.world
process_service_accounts_outcome_example =
    process_service_accounts_outcome memory_client role_bindings_laws memory-Apart env mapping world
      (deploy_apart, ((λ h. h), tt)) no_error "runtime" "view" (inr (inl refl))
