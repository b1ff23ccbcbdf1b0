-- ===== src/Tests/RoleBindings.antt =====
-- `createRoleBinding`, the cleanup and the removal of obsolete role bindings on a cluster in memory.
use permission_binder_operat.Prelude.{
  String, ◌≡◌, refl, ◌≢◌, inl, true, false, some, [], ◌∷◌, ok, err, ap, eq_iff, arith,
  if◌then◌else◌,
}
use permission_binder_operat.GoMap.{lookup, value, insert, delete}
use permission_binder_operat.Ownership.{
  annotation_permission_binder, annotation_permission_binder_namespace, annotation_role,
  label_managed_by, Owner, is_owned_by, can_take_ownership,
}
use permission_binder_operat.Stamp.{stamp, stamp_missing, unorphan}
use permission_binder_operat.Cluster.{
  Client, update_failed, RoleRef, Namespace, RoleBinding, found, not_found, System,
}
use permission_binder_operat.Cluster.Memory.{
  Memory, empty, memory_client, role_bindings_laws, table_kind, cluster_role_in, Honest-binding,
}
use permission_binder_operat.RoleBindings.{
  Grant, group_subject, cluster_role_ref, create_role_binding, validate_cluster_role_exists,
}
use permission_binder_operat.RoleBindings.Gate.{create_role_binding-foreign}
use permission_binder_operat.RoleBindings.Outcome.{
  Granted, retried, create_role_binding_outcome, create_role_binding_stuck,
}
use permission_binder_operat.RoleBindings.Repeat.{Repeated, create_role_binding_again}
use permission_binder_operat.RoleBindings.Immutable.{
  strict_kind, strict_kind-immutable, strict_kind_laws,
}
use permission_binder_operat.Cleanup.{
  cleanup_managed_resources, reconcile_all_managed_resources, is_managed,
}
use permission_binder_operat.Cleanup.SafeMode.{
  IsKept, cleanup_managed_resources-keeps, cleanup_managed_resources-hands_over,
}
use permission_binder_operat.Cleanup.Obsolete.{is_doomed, reconcile_all_managed_resources_lem}

abbrev alice : Owner
alice = record { name = "binder"; namespace = "team-a" }

abbrev bob : Owner
bob = record { name = "binder"; namespace = "team-b" }

-- A role binding that alice manages.
abbrev hers : RoleBinding
hers = record {
  namespace = "prod";
  name = "prod-admin";
  annotations = some (
      (annotation_permission_binder, "binder")
      ∷ (annotation_permission_binder_namespace, "team-a")
      ∷ (annotation_role, "admin")
      ∷ []);
  labels = some ((label_managed_by, "op") ∷ []);
  role_ref = cluster_role_ref "admin";
  subjects = group_subject "K8S-prod-admin" ∷ [];
}

abbrev store : Memory
store = record empty { role_bindings = hers ∷ [] }

abbrev world : System Memory
world = record { world = store; metrics = [] }

-- What is asked for.
abbrev grant : Grant
grant = record {
  namespace = "prod";
  name = "prod-admin";
  role = "admin";
  group = "K8S-prod-admin";
  cluster_role = "admin";
}

hers_found : memory_client.role_bindings.get ("prod", "prod-admin") store ≡ found hers
unfolding table_kind
hers_found = refl

shut_to_bob : can_take_ownership hers.annotations bob ≡ false
unfolding can_take_ownership is_owned_by value lookup
shut_to_bob = refl

create_role_binding-foreign_example :
    memory_client.role_bindings.get
      ("prod", "prod-admin")
      (create_role_binding memory_client "op" "now" bob grant world).1.world
    ≡ found hers
create_role_binding-foreign_example =
    create_role_binding-foreign memory_client role_bindings_laws "op" "now" bob grant
      ("prod", "prod-admin") world hers hers_found shut_to_bob

now_there : ◌≢◌ {A = String} "now" ""
now_there e = absurd (ground (arith, eq_iff "now" ""))

managed_run : (create_role_binding memory_client "op" "now" alice grant world).0 ≡ ok true
unfolding create_role_binding validate_cluster_role_exists can_take_ownership is_owned_by value
    lookup insert delete stamp stamp_missing unorphan table_kind cluster_role_in
managed_run = refl

create_role_binding_outcome_example :
    Granted memory_client "op" alice grant
      (create_role_binding memory_client "op" "now" alice grant world).1.world
create_role_binding_outcome_example =
    create_role_binding_outcome memory_client role_bindings_laws "op" "now" alice grant now_there
      world true managed_run

op_there : ◌≢◌ {A = String} "op" ""
op_there e = absurd (ground (arith, eq_iff "op" ""))

create_role_binding_again_example :
    (rb : RoleBinding) × (memory_client.role_bindings.get
        ("prod", "prod-admin")
        (create_role_binding memory_client "op" "now" alice grant world).1.world
      ≡ found rb)
    × Repeated memory_client "op" "now" alice grant rb
        (validate_cluster_role_exists memory_client "admin"
          (create_role_binding memory_client "op" "now" alice grant world).1).1
        (create_role_binding memory_client "op" "now" alice grant
          (create_role_binding memory_client "op" "now" alice grant world).1)
create_role_binding_again_example =
    create_role_binding_again memory_client role_bindings_laws "op" "now" alice grant world
      now_there op_there managed_run

bindings_apart :
    (ns : Namespace) (w : Memory) (k : String × String)
    → memory_client.role_bindings.get k (memory_client.namespaces.update ns w).1
      ≡ memory_client.role_bindings.get k w
unfolding table_kind
bindings_apart ns w k = refl

cleanup_managed_resources-keeps_example :
    (b : RoleBinding) × (memory_client.role_bindings.get
        ("prod", "prod-admin")
        (cleanup_managed_resources memory_client "op" "now" alice store)
      ≡ found b)
    × IsKept hers b
cleanup_managed_resources-keeps_example =
    cleanup_managed_resources-keeps memory_client role_bindings_laws bindings_apart "op" "now" alice
      store (Honest-binding hers) ("prod", "prod-admin") hers hers_found

hers_listed : memory_client.role_bindings.list store ≡ some (hers ∷ [])
unfolding table_kind
hers_listed = refl

hers_managed : is_managed "op" alice hers.labels hers.annotations ≡ true
unfolding is_managed is_owned_by value lookup
hers_managed = refl

updates : (a : RoleBinding) (w : Memory) → (memory_client.role_bindings.update a w).0 ≡ true
unfolding table_kind
updates a w = refl

removes : (a : RoleBinding) (w : Memory) → (memory_client.role_bindings.remove a w).0 ≡ true
unfolding table_kind
removes a w = refl

cleanup_managed_resources-hands_over_example :
    (b : RoleBinding) × (memory_client.role_bindings.get
        ("prod", "prod-admin")
        (cleanup_managed_resources memory_client "op" "now" alice store)
      ≡ found b)
    × ((other : Owner) → can_take_ownership b.annotations other ≡ true)
cleanup_managed_resources-hands_over_example =
    cleanup_managed_resources-hands_over memory_client role_bindings_laws bindings_apart updates
      "op" "now" alice store now_there (hers ∷ []) hers_listed hers (inl refl) hers_managed

sweep_run :
    (reconcile_all_managed_resources memory_client "op" alice ("K8S" ∷ []) [] store).0 ≡ ok tt
unfolding reconcile_all_managed_resources table_kind
sweep_run = refl

-- The mapping has lost the role.
reconcile_all_managed_resources_lem_example :
    memory_client.role_bindings.get
      ("prod", "prod-admin")
      (reconcile_all_managed_resources memory_client "op" alice ("K8S" ∷ []) [] store).1
    ≡ (if is_doomed "op" alice ("K8S" ∷ []) [] hers then not_found else found hers)
reconcile_all_managed_resources_lem_example =
    reconcile_all_managed_resources_lem memory_client role_bindings_laws "op" alice ("K8S" ∷ []) []
      store (Honest-binding hers) removes sweep_run ("prod", "prod-admin") hers hers_found

not_bobs : is_owned_by hers.annotations bob ≡ false
unfolding is_owned_by value lookup
not_bobs = refl

-- A cluster that refuses to change the role reference.
abbrev strict_client : Client Memory
strict_client = record memory_client { role_bindings = strict_kind memory_client.role_bindings }

-- The mapping now gives the role another cluster role.
abbrev regrant : Grant
regrant = record grant { cluster_role = "edit" }

hers_in_strict : strict_client.role_bindings.get ("prod", "prod-admin") store ≡ found hers
unfolding strict_kind table_kind
hers_in_strict = refl

free_to_alice : can_take_ownership hers.annotations alice ≡ true
unfolding can_take_ownership is_owned_by value lookup
free_to_alice = refl

other_role : hers.role_ref ≢ cluster_role_ref "edit"
other_role e = absurd (ground (arith, eq_iff "admin" "edit", ap (λ (r : RoleRef). r.name) e))

create_role_binding_stuck_example :
    ((create_role_binding strict_client "op" "now" alice regrant
        (retried strict_client "op" "now" alice regrant 2 world)).0
      ≡ err update_failed)
    × ((retried strict_client "op" "now" alice regrant 3 world).world ≡ store)
create_role_binding_stuck_example =
    create_role_binding_stuck strict_client
      (strict_kind_laws memory_client.role_bindings role_bindings_laws) "op" "now" alice regrant
      now_there (strict_kind-immutable memory_client.role_bindings) world hers hers_in_strict
      free_to_alice other_role 2
