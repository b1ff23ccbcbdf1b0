-- ===== src/Tests/Namespaces.antt =====
-- `ensureNamespace` on a cluster in memory.
use permission_binder_operat.Prelude.{
  String, ◌≡◌, refl, ◌≢◌, ◌⊎◌, true, false, none, some, [], ◌∷◌, ok, eq_iff, arith,
}
use permission_binder_operat.GoMap.{lookup, value, insert, delete}
use permission_binder_operat.Ownership.{
  annotation_permission_binder, annotation_permission_binder_namespace, annotation_orphaned_at,
  Owner, NilMap, is_owned_by, can_take_ownership,
}
use permission_binder_operat.Stamp.{stamp, stamp_missing, unorphan}
use permission_binder_operat.Cluster.{Namespace, found, System, finish}
use permission_binder_operat.Cluster.Memory.{
  Memory, empty, memory_client, namespaces_laws, table_kind,
}
use permission_binder_operat.Namespaces.{ensure_namespace}
use permission_binder_operat.Namespaces.Gate.{ensure_namespace-foreign}
use permission_binder_operat.Namespaces.Outcome.{Settled, ensure_namespace_outcome}

abbrev alice : Owner
alice = record { name = "binder"; namespace = "team-a" }

abbrev bob : Owner
bob = record { name = "binder"; namespace = "team-b" }

abbrev claimed : NilMap
claimed = some (
    (annotation_permission_binder, "binder")
    ∷ (annotation_permission_binder_namespace, "team-a")
    ∷ [])

-- A namespace that alice has a live claim on.
abbrev hers : Namespace
hers = record { name = "prod"; annotations = claimed; labels = none }

abbrev world : System Memory
world = record { world = record empty { namespaces = hers ∷ [] }; metrics = [] }

prod_shut : can_take_ownership claimed bob ≡ false
unfolding can_take_ownership is_owned_by value lookup
prod_shut = refl

prod_found : memory_client.namespaces.get "prod" world.world ≡ found hers
unfolding table_kind
prod_found = refl

ensure_namespace-foreign_example :
    memory_client.namespaces.get "prod"
      (ensure_namespace memory_client "op" "now" bob "prod" world).1.world
    ≡ found hers
ensure_namespace-foreign_example =
    ensure_namespace-foreign memory_client namespaces_laws "op" "now" bob "prod" "prod" world hers
      prod_found prod_shut

prod_free : can_take_ownership claimed alice ≡ true
unfolding can_take_ownership is_owned_by value lookup
prod_free = refl

now_there : ◌≢◌ {A = String} "now" ""
now_there e = absurd (ground (arith, eq_iff "now" ""))

-- A namespace that the cleanup has marked as orphaned.
abbrev orphaned : Namespace
orphaned = record {
  name = "dev";
  annotations =
      some ((annotation_permission_binder, "old") ∷ (annotation_orphaned_at, "then") ∷ []);
  labels = none;
}

abbrev with_orphan : System Memory
with_orphan = record { world = record empty { namespaces = orphaned ∷ [] }; metrics = [] }

adopted_run : (ensure_namespace memory_client "op" "now" bob "dev" with_orphan).0 ≡ ok tt
unfolding ensure_namespace can_take_ownership is_owned_by value lookup insert delete stamp
    stamp_missing unorphan finish table_kind
adopted_run = refl

ensure_namespace_outcome_example :
    Settled memory_client "op" bob "dev"
      (ensure_namespace memory_client "op" "now" bob "dev" with_orphan).1.world
    ⊎ ((ns : Namespace) × (memory_client.namespaces.get "dev" with_orphan.world ≡ found ns)
        × (can_take_ownership ns.annotations bob ≡ false)
        × ((ensure_namespace memory_client "op" "now" bob "dev" with_orphan).1.world
            ≡ with_orphan.world))
ensure_namespace_outcome_example =
    ensure_namespace_outcome memory_client namespaces_laws "op" "now" bob now_there "dev"
      with_orphan adopted_run
