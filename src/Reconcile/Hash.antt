-- ===== src/Reconcile/Hash.antt =====
-- The hash of the role mapping (operator/internal/controller/reconciliation_configmap.go).
use mathlib.Core.List.{Permᴰ}
use permission_binder_operat.Prelude.{
  String, Bool, true, not, ◌≡◌, refl, ap, ◌∙◌, List, [], ◌∷◌, if◌then◌else◌, ◌==◌,
}
use permission_binder_operat.GoString.{◌<>◌}
use permission_binder_operat.GoMap.{GoMap, keys, value}
use permission_binder_operat.GoString.Order.{text_le}
use permission_binder_operat.GoSort.{sort_strings, sort_by}
use permission_binder_operat.GoSort.Laws.{sort_by-Perm}

pub mapping_text : GoMap String → List String → String
mapping_text role_mapping [] = ""
mapping_text role_mapping (key ∷ rest) =
    key <> "=" <> value key role_mapping <> ";" <> mapping_text role_mapping rest

-- `calculateRoleMappingHash`, with SHA-256 in hexadecimal as `sha`.
unfoldable pub calculate_role_mapping_hash : (String → String) → GoMap String → String
unfolding mapping_text sort_by text_le
calculate_role_mapping_hash sha role_mapping =
    sha (mapping_text role_mapping (sort_strings (keys role_mapping)))

-- `hasRoleMappingChanged`: whether it has, and the current hash.
unfoldable pub has_role_mapping_changed : (String → String) → GoMap String → String → Bool × String
has_role_mapping_changed sha role_mapping last =
    let current = calculate_role_mapping_hash sha role_mapping in
    if last == "" then (true, current) else (not (current == last), current)

-- The same map, in another order of iteration.
pub record SameMap (m m' : GoMap String) : Type 0 where
  pub same_keys : Permᴰ (keys m) (keys m')
  pub same_values : (k : String) → value k m ≡ value k m'

mapping_text_cong :
    (m m' : GoMap String)
    → ((k : String) → value k m ≡ value k m')
    → (ks : List String) → mapping_text m ks ≡ mapping_text m' ks
unfolding mapping_text
mapping_text_cong m m' same [] = refl
mapping_text_cong m m' same (k ∷ ks) =
    ap (λ v. k <> "=" <> v <> ";" <> mapping_text m ks) (same k)
    ∙ ap (λ t. k <> "=" <> value k m' <> ";" <> t) (mapping_text_cong m m' same ks)

-- The hash of the role mapping, and so whether it has changed, does not depend on the order in which Go
-- ranges over the mapping.
pub has_role_mapping_changed_order :
    (sha : String → String) (m m' : GoMap String) (last : String)
    → SameMap m m'
    → has_role_mapping_changed sha m last ≡ has_role_mapping_changed sha m' last
unfolding has_role_mapping_changed calculate_role_mapping_hash
has_role_mapping_changed_order sha m m' last same =
    let texts =
      mapping_text_cong m m' same.same_values (sort_strings (keys m))
      ∙ ap (mapping_text m') (sort_by-Perm (λ (s : String). s) (λ x y m n e. e) same.same_keys) in
    ap (λ t. if last == "" then (true, sha t) else (not (sha t == last), sha t)) texts
