-- ===== src/Watch.antt =====
-- Which events lead to a reconciliation (operator/internal/controller/controller_setup.go,
-- predicates.go, and `reconcilesNamespace` of reconciliation_main.go).
pub mod Laws
use permission_binder_operat.Prelude.{
  ℕ, String, Bool, true, false, not, ◌&&◌, ◌||◌, Option, none, some, List, [], ◌∷◌, length,
  if◌then◌else◌, ◌==◌, eqb,
}
use permission_binder_operat.GoString.{◌<>◌}
use permission_binder_operat.Whitelist.{contains_string}

-- The fields of a PermissionBinder that decide on events.
pub record Binder : Type 0 where
  pub namespace : String
  pub name : String
  pub config_map_namespace : String
  pub config_map_name : String
  pub generation : ℕ
  pub deleting : Bool
  pub finalizers : List String

-- The namespace and name of an object.
pub record ObjectKey : Type 0 where
  pub namespace : String
  pub name : String

-- `reconcilesNamespace`
unfoldable pub reconciles_namespace : List String → String → Bool
reconciles_namespace [] namespace = true
reconciles_namespace (n ∷ rest) namespace = contains_string namespace (n ∷ rest)

same_bool : Bool → Bool → Bool
same_bool true b = b
same_bool false b = not b

-- The update filter of `permissionBinderPredicate`.
unfoldable pub binder_updated : List String → Binder → Binder → Bool
unfolding same_bool
binder_updated scope old new =
    if not (reconciles_namespace scope new.namespace)
    then false
    else if not (eqb old.generation new.generation)
    then true
    else if not (same_bool old.deleting new.deleting)
    then true
    else not (eqb (length old.finalizers) (length new.finalizers))

-- The index of `SetupWithManager`.
abbrev pub index_of : Binder → String
index_of binder = binder.config_map_namespace <> "/" <> binder.config_map_name

-- The list with `MatchingFields`.
pub indexed : String → List Binder → List Binder
indexed key [] = []
indexed key (binder ∷ rest) =
    let others = indexed key rest in if index_of binder == key then binder ∷ others else others

pub any_reconciled : List String → List Binder → Bool
any_reconciled scope [] = false
any_reconciled scope (binder ∷ rest) =
    let later = any_reconciled scope rest in
    if reconciles_namespace scope binder.namespace then true else later

-- `isConfigMapReferenced`, with the PermissionBinders that the list finds, or its failure.
unfoldable pub is_config_map_referenced : List String → Option (List Binder) → ObjectKey → Bool
unfolding any_reconciled indexed
is_config_map_referenced scope none config_map = true
is_config_map_referenced scope (some binders) config_map =
    any_reconciled scope (indexed (config_map.namespace <> "/" <> config_map.name) binders)

-- An event about a ConfigMap, with the resource versions before and after an update.
pub data ConfigMapEvent : Type 0 where
  created deleted generic : ObjectKey → ConfigMapEvent
  updated : String → String → ObjectKey → ConfigMapEvent

-- The object that the handler is given, of an update the new one.
abbrev pub object_of : ConfigMapEvent → ObjectKey
object_of (created config_map) = config_map
object_of (deleted config_map) = config_map
object_of (generic config_map) = config_map
object_of (updated old_version new_version config_map) = config_map

-- `configMapPredicate`
unfoldable pub config_map_predicate : List String → Option (List Binder) → ConfigMapEvent → Bool
config_map_predicate scope binders (created config_map) =
    is_config_map_referenced scope binders config_map
config_map_predicate scope binders (deleted config_map) =
    is_config_map_referenced scope binders config_map
config_map_predicate scope binders (generic config_map) =
    is_config_map_referenced scope binders config_map
config_map_predicate scope binders (updated old_version new_version config_map) =
    if old_version == new_version then false else is_config_map_referenced scope binders config_map

-- One round of the loop of `mapConfigMapToPermissionBinder`.
pub refers_to : List String → ObjectKey → Binder → Bool
refers_to scope config_map binder =
    reconciles_namespace scope binder.namespace
    && (binder.config_map_name == config_map.name
        && binder.config_map_namespace == config_map.namespace)

pub requests_for : List String → ObjectKey → List Binder → List ObjectKey
requests_for scope config_map [] = []
requests_for scope config_map (binder ∷ rest) =
    let others = requests_for scope config_map rest in
    if refers_to scope config_map binder
    then record { namespace = binder.namespace; name = binder.name } ∷ others
    else others

-- `mapConfigMapToPermissionBinder`
unfoldable pub map_config_map_to_permission_binder :
    List String → Option (List Binder) → ObjectKey → List ObjectKey
unfolding requests_for refers_to
map_config_map_to_permission_binder scope none config_map = []
map_config_map_to_permission_binder scope (some binders) config_map =
    requests_for scope config_map binders
