-- ===== src/Tests/Reconcile.antt =====
-- The main loop on a cluster in memory.
use mathlib.Core.List.{Permᴰ}
use permission_binder_operat.Prelude.{
  String, ◌≡◌, refl, subst, ◌≢◌, Bool, true, false, [], ◌∷◌, ok, eq_iff, arith, ◌&&◌, ◌==◌,
  if◌then◌else◌, some, none, inl, inr, Bool-cases,
}
use permission_binder_operat.GoMap.{GoMap, lookup, value}
use permission_binder_operat.Watch.{reconciles_namespace}
use permission_binder_operat.GoSort.{sort_by, sort_in}
use permission_binder_operat.GoString.{
  split, trim_space, has_prefix, cut_prefix, cut, cut_suffix, has_suffix, trim_prefix, trim_suffix,
}
use permission_binder_operat.GoString.Order.{text_le}
use permission_binder_operat.Permission.Dn.{extract_cn_from_dn}
use permission_binder_operat.Permission.LongestFirst.{first_some, longest_first}
use permission_binder_operat.Permission.Parse.{
  best_role, conclude, consider, parse_permission_string,
}
use permission_binder_operat.Permission.Prefixes.{parse_with_prefixes, try_prefix}
use permission_binder_operat.NetworkPolicy.Status.{clean_entries, clean_entry, cleanup_status}
use permission_binder_operat.Namespaces.{ensure_namespace}
use permission_binder_operat.RoleBindings.{create_role_binding}
use permission_binder_operat.Ownership.{is_owned_by, can_take_ownership}
use permission_binder_operat.Cluster.{finish, RoleBinding, Fetch, found, not_found, System, Kind}
use permission_binder_operat.Cluster.Memory.{
  Memory, empty, memory_client, role_bindings_laws, table_kind, Honest-binding,
}
use permission_binder_operat.Cleanup.SafeMode.{IsKept}
use permission_binder_operat.Whitelist.{
  contains_string, process_config_map, process_lines, process_line, read_line,
}
use permission_binder_operat.Reconcile.{
  PermissionBinder, ConfigMap, Setup, done, finalizer, reconcile,
}
use permission_binder_operat.Reconcile.Hash.{
  has_role_mapping_changed, calculate_role_mapping_hash, has_role_mapping_changed_order,
}
use permission_binder_operat.Reconcile.Message.{decimal}
use permission_binder_operat.Reconcile.Twice.{reconcile_twice}
use permission_binder_operat.Reconcile.Deleted.{reconcile-keeps}
use permission_binder_operat.Reconcile.Foreign.{Reliable}
use permission_binder_operat.Reconcile.Network.{
  network_of, with_network, reconcile-with_network-foreign,
}
use permission_binder_operat.NetworkPolicy.Disk.{Disk}
use permission_binder_operat.NetworkPolicy.Status.{StatusClient}
use permission_binder_operat.NetworkPolicy.Run.{RunSetup, network_part}
use permission_binder_operat.NetworkPolicy.Periodic.Frame.{ScheduleBlind}
use permission_binder_operat.Tests.Lab.{run_over, run_over-ScheduleBlind}
use permission_binder_operat.Tests.ServiceAccounts.{memory-Apart}
use permission_binder_operat.Tests.Whitelist.{spec, claimed, alice, namespaces_memory}

forty_two : decimal 42 ≡ "42"
unfolding decimal
forty_two = refl

sorted_hash :
    calculate_role_mapping_hash (λ text. text) (("view", "v") ∷ ("admin", "a") ∷ [])
    ≡ "admin=a;view=v;"
unfolding calculate_role_mapping_hash value lookup
sorted_hash = refl

missing : {pb : PermissionBinder} → not_found ≢ found pb
missing h = ground arith

-- The PermissionBinder of bob.
abbrev binder : Bool → PermissionBinder
binder deleting = record {
  namespace = "team-b";
  name = "binder";
  generation = 1;
  deleting = deleting;
  finalizers = finalizer ∷ [];
  spec = spec;
  config_map_namespace = "team-b";
  config_map_name = "whitelist";
  network_policy_enabled = true;
  status = record {
    processed_role_bindings = [];
    processed_service_accounts = [];
    last_config_map_version = "7";
    last_role_mapping_hash = "admin=admin;";
    conditions = [];
    network_policies = [];
    last_network_policy_reconciliation = none;
  };
}

abbrev config_map : ConfigMap
config_map = record {
  resource_version = "7";
  entries = ("whitelist.txt", "CN=K8S-prod-admin") ∷ [];
}

unfoldable lookup_binder : Bool → String × String → Fetch PermissionBinder
lookup_binder deleting (namespace, name) =
    if namespace == "team-b" && name == "binder" then found (binder deleting) else not_found

keyed :
    (deleting : Bool) (namespace name : String) (pb : PermissionBinder)
    → (namespace == "team-b" && name == "binder") ≡ true
    → found (binder deleting) ≡ found pb
    → ◌≡◌ {A = String × String} (pb.namespace, pb.name) (namespace, name)
keyed deleting namespace name pb same e =
    let here : namespace ≡ "team-b" = ground (arith, eq_iff namespace "team-b", same) in
    let named : name ≡ "binder" = ground (arith, eq_iff name "binder", same) in
    let it : binder deleting ≡ pb = ground (arith, e) in rw (here, named, ← it) refl

binder_keyed :
    (deleting : Bool) (k : String × String) (pb : PermissionBinder)
    → lookup_binder deleting k ≡ found pb
    → (pb.namespace, pb.name) ≡ k
unfolding lookup_binder
binder_keyed deleting (namespace, name) pb e =
    elim (Bool-cases (namespace == "team-b" && name == "binder")) [
      | inr other ↦ absurd (missing (rw other at e))
      | inl same ↦ keyed deleting namespace name pb same (rw same at e)
    ]

-- A cluster with that PermissionBinder, which is not written to.
abbrev env : Bool → Setup Memory
env deleting = record {
  client = memory_client;
  binders = record {
    get = λ k w. lookup_binder deleting k;
    update = λ pb w. (true, w);
    update_status = λ pb w. (true, w);
    get_config_map = λ k w. found config_map;
  };
  managed_by = "op";
  now = "now";
  scope = [];
  sha = λ text. text;
  network = λ pb names w. (pb, w);
}

abbrev store : Memory
store = record empty { role_bindings = claimed alice ∷ [] }

abbrev world : System Memory
world = record { world = store; metrics = [] }

binding_found : memory_client.role_bindings.get ("prod", "prod-admin") store ≡ found (claimed alice)
unfolding table_kind
binding_found = refl

binder_there :
    (deleting : Bool)
    → (env deleting).binders.get ("team-b", "binder") store ≡ found (binder deleting)
unfolding lookup_binder
binder_there deleting = refl

has_finalizer : contains_string finalizer (finalizer ∷ []) ≡ true
unfolding contains_string
has_finalizer = refl

same_mapping : (has_role_mapping_changed (λ text. text) spec.role_mapping "admin=admin;").0 ≡ false
unfolding has_role_mapping_changed calculate_role_mapping_hash value lookup
same_mapping = refl

reconcile-keeps_example :
    (b : RoleBinding) × (memory_client.role_bindings.get
        ("prod", "prod-admin")
        (reconcile (env true) ("team-b", "binder") world).1.world
      ≡ found b)
    × IsKept (claimed alice) b
reconcile-keeps_example =
    reconcile-keeps (env true) role_bindings_laws namespaces_memory.binding-namespace_update
      (λ pb w k. refl) "team-b" "binder" world (binder true) ("prod", "prod-admin") (claimed alice)
      (binder_there true) refl (Honest-binding (claimed alice)) binding_found

shut :
    can_take_ownership
      (claimed alice).annotations
      (record { name = "binder"; namespace = "team-b" })
    ≡ false
unfolding can_take_ownership is_owned_by value lookup
shut = refl

-- Files that are not kept, in a directory with one template, and a status without entries.
abbrev nowhere : {W : Type 0} → Disk W
nowhere = record {
  stat = λ path w. false;
  read = λ path w. some "kind: NetworkPolicy";
  read_dir = λ path w. some (record { name = "deny.yaml"; is_dir = false } ∷ []);
  make_dirs = λ path w. (true, w);
  write = λ path content w. (true, w);
  remove = λ path w. (true, w);
  remove_all = λ path w. w;
}

abbrev no_entries : {W : Type 0} → StatusClient W
no_entries = record { fetch = λ w. some []; write = λ entries w. (true, w); pause = λ w. w }

abbrev settings : {W : Type 0} → PermissionBinder → RunSetup W
settings pb = run_over nowhere no_entries (λ entries clock w. (true, w))

-- The ConfigMap has changed since the last run.
abbrev changed : Setup Memory
changed = record (env false) {
  binders = record (env false).binders {
    get_config_map = λ k w. found (record config_map { resource_version = "8" });
  };
}

changed-Reliable : Reliable changed
changed-Reliable = record {
  laws = role_bindings_laws;
  namespaces = namespaces_memory;
  accounts = memory-Apart;
  keyed = λ k w pb e. binder_keyed false k pb e;
  binder-update = λ pb w k. refl;
  binder-status = λ pb w k. refl;
  network-apart = λ pb names w k. refl;
}

settings-ScheduleBlind :
    (key : String × String) (pb : PermissionBinder)
    → ScheduleBlind (memory_client.role_bindings.get key) (settings pb).schedule
settings-ScheduleBlind key pb =
    run_over-ScheduleBlind (memory_client.role_bindings.get key) nowhere no_entries
      (λ entries clock w. (true, w))
      (record {
        make_dirs = λ path w. refl;
        write = λ path content w. refl;
        remove = λ path w. refl;
        remove_all = λ path w. refl;
      })
      (record { write = λ entries w. refl; pause = λ w. refl }) λ entries clock w. refl

reconcile-with_network-foreign_example :
    memory_client.role_bindings.get
      ("prod", "prod-admin")
      (reconcile (with_network settings changed) ("team-b", "binder") world).1.world
    ≡ found (claimed alice)
reconcile-with_network-foreign_example =
    reconcile-with_network-foreign changed settings changed-Reliable "team-b" "binder" world
      ("prod", "prod-admin") (claimed alice) settings-ScheduleBlind (Honest-binding (claimed alice))
      binding_found shut

-- A cluster that keeps one PermissionBinder, and that accepts all else without keeping it.
abbrev forgetful : {K A : Type 0} → Kind K A PermissionBinder
forgetful = record {
  get = λ k w. not_found;
  list = λ w. some [];
  create = λ a w. (true, w);
  update = λ a w. (true, w);
  remove = λ a w. (true, w);
}

abbrev slot : Setup PermissionBinder
slot = record {
  client = record {
    namespaces = forgetful;
    role_bindings = forgetful;
    service_accounts = forgetful;
    cluster_role = λ name w. found tt;
  };
  binders = record {
    get = λ k w. found w;
    update = λ pb w. (true, pb);
    update_status = λ pb w. (true, pb);
    get_config_map = λ k w. found (record config_map { resource_version = "8" });
  };
  managed_by = "op";
  now = "now";
  scope = [];
  sha = λ text. text;
  network = λ pb names w. (pb, w);
}

abbrev first : System PermissionBinder
first = record { world = binder false; metrics = [] }

version_new : (binder false).status.last_config_map_version ≢ "8"
version_new e = absurd (ground (arith, eq_iff "7" "8"))

first_run : (reconcile (with_network settings slot) ("team-b", "binder") first).0 ≡ ok done
unfolding reconcile reconciles_namespace contains_string has_role_mapping_changed
    calculate_role_mapping_hash value lookup network_of process_config_map process_lines split
    process_line read_line trim_space has_prefix cut_prefix extract_cn_from_dn cut sort_by sort_in
    text_le cut_suffix has_suffix trim_prefix trim_suffix network_part clean_entries clean_entry
    cleanup_status first_some longest_first best_role conclude consider parse_permission_string
    parse_with_prefixes try_prefix ensure_namespace finish create_role_binding
first_run = refl

reconcile_twice_example :
    reconcile
      (with_network settings slot)
      ("team-b", "binder")
      (reconcile (with_network settings slot) ("team-b", "binder") first).1
    ≡ (ok done, (reconcile (with_network settings slot) ("team-b", "binder") first).1)
reconcile_twice_example =
    reconcile_twice slot settings (λ pb w h. refl) "team-b" "binder" first (binder false)
      (record config_map { resource_version = "8" }) refl refl refl has_finalizer same_mapping refl
      version_new first_run refl

abbrev one_order : GoMap String
one_order = ("view", "v") ∷ ("admin", "a") ∷ []

abbrev other_order : GoMap String
other_order = ("admin", "a") ∷ ("view", "v") ∷ []

orders_agree : (k : String) → value k one_order ≡ value k other_order
unfolding value lookup
orders_agree k = elim (Bool-cases ("view" == k)) [
  | inl same ↦ subst (λ k. value k one_order ≡ value k other_order) ((eq_iff "view" k).0 same) refl
  | inr other ↦ rw other refl
]

has_role_mapping_changed_order_example :
    has_role_mapping_changed (λ t. t) one_order "admin=a;"
    ≡ has_role_mapping_changed (λ t. t) other_order "admin=a;"
has_role_mapping_changed_order_example =
    has_role_mapping_changed_order (λ t. t) one_order other_order "admin=a;"
      (record { same_keys = Permᴰ.swap refl refl; same_values = orders_agree })
