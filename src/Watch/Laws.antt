-- ===== src/Watch/Laws.antt =====
-- The filter of ConfigMap events lets through what the handler turns into requests.
use permission_binder_operat.Prelude.{
  String, Bool, true, false, ◌≡◌, refl, ◌↔◌, ◌≢◌, ◌⊎◌, inl, inr, Option, none, some, List, [], ◌∷◌,
  In, length, arith, Bool-cases, ◌==◌, eq_iff, eq_refl,
}
use permission_binder_operat.GoString.{◌<>◌}
use permission_binder_operat.Watch.{
  Binder, ObjectKey, reconciles_namespace, index_of, indexed, any_reconciled,
  is_config_map_referenced, refers_to, requests_for, map_config_map_to_permission_binder,
  ConfigMapEvent, created, deleted, generic, updated, object_of, config_map_predicate,
  binder_updated, same_bool,
}

-- The binder is found under the index, and is one that this instance reconciles.
index_hit :
    (scope : List String) (config_map : ObjectKey) (binder : Binder)
    → refers_to scope config_map binder ≡ true
    → (index_of binder == (config_map.namespace <> "/" <> config_map.name)) ≡ true
unfolding refers_to
index_hit scope config_map binder h =
    let name : binder.config_map_name ≡ config_map.name =
      ground (arith, eq_iff binder.config_map_name config_map.name) in
    let space : binder.config_map_namespace ≡ config_map.namespace =
      ground (arith, eq_iff binder.config_map_namespace config_map.namespace) in
    rw (name, space) (eq_refl (config_map.namespace <> "/" <> config_map.name))

in_scope :
    (scope : List String) (config_map : ObjectKey) (binder : Binder)
    → refers_to scope config_map binder ≡ true
    → reconciles_namespace scope binder.namespace ≡ true
unfolding refers_to
in_scope scope config_map binder h = ground arith

referenced :
    (scope : List String) (config_map : ObjectKey) (binders : List Binder) (request : ObjectKey)
    → In request (requests_for scope config_map binders)
    → any_reconciled scope (indexed (config_map.namespace <> "/" <> config_map.name) binders) ≡ true
unfolding requests_for indexed any_reconciled
referenced scope config_map [] request there = absurd there
referenced scope config_map (b ∷ rest) request there =
    elim (Bool-cases (refers_to scope config_map b)) [
      | inl hit ↦
          rw (index_hit scope config_map b hit, any_reconciled, in_scope scope config_map b hit)
            refl
      | inr miss ↦
          let later = referenced scope config_map rest request (rw miss at there) in
          elim (Bool-cases (index_of b == (config_map.namespace <> "/" <> config_map.name))) [
            | inr other ↦ rw other later
            | inl same ↦ elim (Bool-cases (reconciles_namespace scope b.namespace)) [
              | inl mine ↦ rw (same, any_reconciled, mine) refl
              | inr foreign ↦ rw (same, any_reconciled, foreign) later
            ]
          ]
    ]

-- A ConfigMap for which the handler makes a request is referenced.
map_config_map_to_permission_binder-referenced :
    (scope : List String) (binders : List Binder) (seen : Option (List Binder))
    (config_map request : ObjectKey)
    → (seen ≡ some binders) ⊎ (seen ≡ none)
    → In request (map_config_map_to_permission_binder scope (some binders) config_map)
    → is_config_map_referenced scope seen config_map ≡ true
unfolding map_config_map_to_permission_binder is_config_map_referenced
map_config_map_to_permission_binder-referenced scope binders seen config_map request (inl same)
      there =
    rw same (referenced scope config_map binders request there)
map_config_map_to_permission_binder-referenced scope binders seen config_map request (inr fail)
      there =
    rw fail refl

-- The event is no update that leaves the resource version as it was.
abbrev pub IsChange : ConfigMapEvent → Type 0
IsChange (created config_map) = Unit {0}
IsChange (deleted config_map) = Unit {0}
IsChange (generic config_map) = Unit {0}
IsChange (updated old_version new_version config_map) = old_version ≢ new_version

-- An event for whose object the handler makes a request passes the filter, whether the filter sees the
-- same PermissionBinders or its list of them fails, exactly if it is no update that leaves the resource
-- version as it was.
pub map_config_map_to_permission_binder-predicate :
    (scope : List String) (binders : List Binder) (seen : Option (List Binder))
    (event : ConfigMapEvent) (request : ObjectKey)
    → (seen ≡ some binders) ⊎ (seen ≡ none)
    → In request (map_config_map_to_permission_binder scope (some binders) (object_of event))
    → (config_map_predicate scope seen event ≡ true) ↔ IsChange event
unfolding config_map_predicate
map_config_map_to_permission_binder-predicate scope binders seen (created c) request h there =
    let passed =
      map_config_map_to_permission_binder-referenced scope binders seen c request h there in
    (λ _. tt, λ _. passed)
map_config_map_to_permission_binder-predicate scope binders seen (deleted c) request h there =
    let passed =
      map_config_map_to_permission_binder-referenced scope binders seen c request h there in
    (λ _. tt, λ _. passed)
map_config_map_to_permission_binder-predicate scope binders seen (generic c) request h there =
    let passed =
      map_config_map_to_permission_binder-referenced scope binders seen c request h there in
    (λ _. tt, λ _. passed)
map_config_map_to_permission_binder-predicate scope binders seen (updated old new c) request h
      there =
    let passed =
      map_config_map_to_permission_binder-referenced scope binders seen c request h there in
    elim (Bool-cases (old == new)) [
      | inl same ↦
          rw same
            (λ e. absurd (ground arith), λ differs. absurd (differs ((eq_iff old new).0 same)))
      | inr other ↦ rw other (λ _ e. absurd (ground (arith, eq_iff old new, e)), λ _. passed)
    ]

same_bool_iff : (a b : Bool) → (same_bool a b ≡ true) ↔ (a ≡ b)
unfolding same_bool
same_bool_iff true b = ground arith
same_bool_iff false b = ground arith

-- An update of a PermissionBinder is let through exactly if this instance reconciles its namespace and
-- its generation, its being deleted or the number of its finalizers has changed.
pub binder_updated_iff :
    (scope : List String) (old new : Binder)
    → (binder_updated scope old new ≡ true) ↔ (
        (reconciles_namespace scope new.namespace ≡ true)
        × ((old.generation ≢ new.generation)
            ⊎ (old.deleting ≢ new.deleting)
            ⊎ (length old.finalizers ≢ length new.finalizers)))
unfolding binder_updated
binder_updated_iff scope old new = ground (arith, same_bool_iff old.deleting new.deleting)
