-- ===== src/GoMap/Laws.antt =====
-- Reading back what was written to a map.
use permission_binder_operat.Prelude.{
  String, ◌≡◌, refl, none, some, [], ◌∷◌, ◌==◌, eq_iff, if◌then◌else◌, arith, is_some, true, ◌↔◌,
  In,
}
use permission_binder_operat.GoMap.{GoMap, lookup, insert, delete, keys, value}

module _ {V : Type 0} where
  pub lookup-insert :
      (written read_key : String) (new : V) (entries : GoMap V)
      → lookup read_key (insert written new entries)
        ≡ (if written == read_key then some new else lookup read_key entries)
  unfolding insert lookup
  lookup-insert written read_key new [] = refl
  lookup-insert written read_key new (entry ∷ more) =
      let ih = lookup-insert written read_key new more in
      ground (arith, ih, eq_iff entry.0 written, eq_iff entry.0 read_key, eq_iff written read_key)

  pub lookup-delete :
      (gone read_key : String) (entries : GoMap V)
      → lookup read_key (delete gone entries)
        ≡ (if gone == read_key then none else lookup read_key entries)
  unfolding delete lookup
  lookup-delete gone read_key [] = ground arith
  lookup-delete gone read_key (entry ∷ more) =
      let ih = lookup-delete gone read_key more in
      ground (arith, ih, eq_iff entry.0 gone, eq_iff entry.0 read_key, eq_iff gone read_key)

  -- A key is listed exactly if the map has a value for it.
  pub In-keys_iff : (k : String) (m : GoMap V) → In k (keys m) ↔ (is_some (lookup k m) ≡ true)
  unfolding lookup
  In-keys_iff k [] = (λ h. absurd h, λ h. absurd (ground arith))
  In-keys_iff k ((j, v) ∷ m) = ground (arith, eq_iff j k, In-keys_iff k m)

pub value-insert :
    (k j v : String) (m : GoMap String) → value j (insert k v m) ≡ (if k == j then v else value j m)
unfolding value
value-insert k j v m = rw lookup-insert (ground arith)

pub value-delete :
    (k j : String) (m : GoMap String) → value j (delete k m) ≡ (if k == j then "" else value j m)
unfolding value
value-delete k j m = rw lookup-delete (ground arith)

pub ruleset map_laws = (lookup-insert, lookup-delete, value-insert, value-delete)

pub value-nil : (k : String) → value k [] ≡ ""
unfolding value lookup
value-nil k = refl
