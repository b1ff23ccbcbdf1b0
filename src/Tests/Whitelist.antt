-- ===== src/Tests/Whitelist.antt =====
-- `processConfigMap` on a cluster in memory.
use permission_binder_operat.Prelude.{
  String, ◌≡◌, refl, ◌≢◌, false, none, some, [], ◌∷◌, eq_iff, arith, In,
}
use permission_binder_operat.GoString.{
  has_prefix, has_suffix, cut_prefix, cut_suffix, trim_space, cut, trim_prefix, trim_suffix,
}
use permission_binder_operat.GoMap.{GoMap, lookup, value}
use permission_binder_operat.Ownership.{
  annotation_permission_binder, annotation_permission_binder_namespace, Owner, is_owned_by,
  can_take_ownership,
}
use permission_binder_operat.Permission.Dn.{extract_cn_from_dn}
use permission_binder_operat.Permission.Parse.{
  parse_permission_string, best_role, consider, conclude,
}
use permission_binder_operat.Permission.LongestFirst.{longest_first, first_some}
use permission_binder_operat.Permission.Prefixes.{Parsed, parse_with_prefixes, try_prefix}
use permission_binder_operat.Cluster.{Namespace, RoleBinding, found, System, finish}
use permission_binder_operat.Cluster.Memory.{
  Memory, empty, memory_client, namespaces_laws, role_bindings_laws, table_kind, cluster_role_in,
}
use permission_binder_operat.Namespaces.{ensure_namespace}
use permission_binder_operat.RoleBindings.{
  cluster_role_ref, create_role_binding, validate_cluster_role_exists,
}
use permission_binder_operat.RoleBindings.Outcome.{Granted}
use permission_binder_operat.Whitelist.{
  Spec, entry, skipped, excluded, Progress, contains_string, read_line, grant_of, process_line,
  process_lines, process_config_map,
}
use permission_binder_operat.Whitelist.Gate.{
  NamespacesApart, process_config_map-bindings, process_config_map-namespaces,
}
use permission_binder_operat.Cleanup.Namespaces.{
  IsKeptNamespace, cleanup_managed_resources-namespaces,
}
use permission_binder_operat.Cleanup.{cleanup_managed_resources}
use permission_binder_operat.Whitelist.Served.{process_lines-Granted}
use permission_binder_operat.Tests.ServiceAccounts.{memory-Apart}

abbrev bob : Owner
bob = record { name = "binder"; namespace = "team-b" }

abbrev pub spec : Spec
spec = record {
  prefixes = "K8S" ∷ [];
  role_mapping = ("admin", "admin") ∷ [];
  exclude_list = "K8S-secret-admin" ∷ [];
  create_ldap_groups = false;
  service_account_mapping = ("deploy", "edit") ∷ [];
  naming_pattern = "";
}

abbrev parsed : Parsed
parsed = record { namespace = "dev"; role = "admin"; prefix = "K8S" }

dev_line : read_line spec " CN=K8S-dev-admin,OU=x" ≡ entry "K8S-dev-admin" parsed
unfolding read_line extract_cn_from_dn cut cut_prefix trim_space contains_string has_prefix
    parse_with_prefixes try_prefix parse_permission_string best_role consider conclude has_suffix
    trim_suffix trim_prefix cut_suffix longest_first first_some
dev_line = refl

secret_line : read_line spec "CN=K8S-secret-admin,OU=x" ≡ excluded
unfolding read_line extract_cn_from_dn cut cut_prefix trim_space contains_string has_prefix
secret_line = refl

comment_line : read_line spec "# CN=K8S-dev-admin" ≡ skipped
unfolding read_line trim_space has_prefix cut_prefix
comment_line = refl

abbrev pub claimed : Owner → RoleBinding
claimed owner = record {
  namespace = "prod";
  name = "prod-admin";
  annotations = some (
      (annotation_permission_binder, owner.name)
      ∷ (annotation_permission_binder_namespace, owner.namespace)
      ∷ []);
  labels = none;
  role_ref = cluster_role_ref "admin";
  subjects = [];
}

abbrev pub alice : Owner
alice = record { name = "binder"; namespace = "team-a" }

abbrev prod : Namespace
prod = record { name = "prod"; annotations = (claimed alice).annotations; labels = none }

abbrev world : System Memory
world = record {
  world = record empty { namespaces = prod ∷ []; role_bindings = claimed alice ∷ [] };
  metrics = [];
}

pub namespaces_memory : NamespacesApart memory_client
unfolding table_kind
namespaces_memory = record {
  binding-namespace_create = λ ns w k. refl;
  binding-namespace_update = λ ns w k. refl;
  namespace-binding_create = λ rb w k. refl;
  namespace-binding_update = λ rb w k. refl;
  namespace-binding_remove = λ rb w k. refl;
  namespace-account_create = λ sa w k. refl;
}

binding_found :
    memory_client.role_bindings.get ("prod", "prod-admin") world.world ≡ found (claimed alice)
unfolding table_kind
binding_found = refl

prod_found : memory_client.namespaces.get "prod" world.world ≡ found prod
unfolding table_kind
prod_found = refl

shut : can_take_ownership (claimed alice).annotations bob ≡ false
unfolding can_take_ownership is_owned_by value lookup
shut = refl

abbrev entries : GoMap String
entries = ("whitelist.txt", "CN=K8S-prod-admin\n# none\nCN=K8S-dev-admin,OU=x") ∷ []

process_config_map-bindings_example :
    memory_client.role_bindings.get
      ("prod", "prod-admin")
      (process_config_map memory_client "op" "now" bob spec entries world).1.world
    ≡ found (claimed alice)
process_config_map-bindings_example =
    process_config_map-bindings memory_client namespaces_memory "op" "now" bob spec
      role_bindings_laws memory-Apart entries world ("prod", "prod-admin") (claimed alice)
      binding_found shut

process_config_map-namespaces_example :
    memory_client.namespaces.get "prod"
      (process_config_map memory_client "op" "now" bob spec entries world).1.world
    ≡ found prod
process_config_map-namespaces_example =
    process_config_map-namespaces memory_client namespaces_memory "op" "now" bob spec
      namespaces_laws entries world "prod" prod prod_found shut

bindings_elsewhere :
    (rb : RoleBinding) (w : Memory) (n : String)
    → memory_client.namespaces.get n (memory_client.role_bindings.update rb w).1
      ≡ memory_client.namespaces.get n w
unfolding table_kind
bindings_elsewhere rb w n = refl

cleanup_managed_resources-namespaces_example :
    (b : Namespace) × (memory_client.namespaces.get "prod"
        (cleanup_managed_resources memory_client "op" "now" alice world.world)
      ≡ found b)
    × IsKeptNamespace prod b
cleanup_managed_resources-namespaces_example =
    cleanup_managed_resources-namespaces memory_client namespaces_laws bindings_elsewhere "now" "op"
      alice world.world "prod" prod prod_found

abbrev start : Progress Memory
start = record { system = world; processed = []; valid_entries = [] }

dev_reported :
    (process_line memory_client "op" "now" bob spec " CN=K8S-dev-admin,OU=x" start).processed
    ≡ "dev/dev-admin" ∷ []
unfolding process_line read_line extract_cn_from_dn cut cut_prefix trim_space contains_string
    has_prefix parse_with_prefixes try_prefix parse_permission_string best_role consider conclude
    has_suffix trim_suffix trim_prefix cut_suffix longest_first first_some ensure_namespace
    create_role_binding validate_cluster_role_exists can_take_ownership is_owned_by value lookup
    finish table_kind cluster_role_in
dev_reported = refl

now_there : ◌≢◌ {A = String} "now" ""
now_there e = absurd (ground (arith, eq_iff "now" ""))

nothing_later :
    (later cn : String) (p : Parsed)
    → In later []
    → read_line spec later ≡ entry cn p
    → ◌≢◌ {A = String × String}
        ("dev", "dev-admin")
        ((grant_of spec cn p).namespace, (grant_of spec cn p).name)
nothing_later later cn p there = absurd there

process_lines-Granted_example :
    Granted memory_client "op" bob
      (grant_of spec "K8S-dev-admin" parsed)
      (process_lines memory_client "op" "now" bob spec
        (" CN=K8S-dev-admin,OU=x" ∷ [])
        start).system.world
process_lines-Granted_example =
    process_lines-Granted memory_client role_bindings_laws namespaces_memory "op" "now" bob
      now_there spec " CN=K8S-dev-admin,OU=x" "K8S-dev-admin" parsed [] start dev_line dev_reported
      nothing_later

bindings_apart :
    (rb : RoleBinding) (w : Memory) (n : String)
    → memory_client.namespaces.get n (memory_client.role_bindings.update rb w).1
      ≡ memory_client.namespaces.get n w
unfolding table_kind
bindings_apart rb w n = refl
