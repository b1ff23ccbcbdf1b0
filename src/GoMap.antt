-- ===== src/GoMap.antt =====
-- Go maps with string keys, as association lists in the order in which `range` meets the entries.
-- A later entry of a key that is there already has no effect, as a map has none.
pub mod Laws
use permission_binder_operat.Prelude.{
  String, Bool, Option, none, some, List, [], ◌∷◌, map, ◌==◌, if◌then◌else◌, is_some,
}

abbrev pub GoMap : Type 0 → Type 0
GoMap V = List (String × V)

module _ {V : Type 0} where
  -- value, exists := m[key]
  unfoldable pub lookup : String → GoMap V → Option V
  lookup key [] = none
  lookup key (entry ∷ more) = if entry.0 == key then some entry.1 else lookup key more

  -- m[key] = value
  unfoldable pub insert : String → V → GoMap V → GoMap V
  insert key new [] = (key, new) ∷ []
  insert key new (entry ∷ more) =
      if entry.0 == key then (key, new) ∷ more else entry ∷ insert key new more

  -- delete(m, key)
  unfoldable pub delete : String → GoMap V → GoMap V
  delete key [] = []
  delete key (entry ∷ more) =
      let others = delete key more in if entry.0 == key then others else entry ∷ others

  abbrev pub keys : GoMap V → List String
  keys [] = []
  keys ((k, v) ∷ m) = k ∷ keys m

abbrev value_or_empty : Option String → String
value_or_empty none = ""
value_or_empty (some v) = v

-- m[key] of a map of strings: "" for a missing key.
unfoldable pub value : String → GoMap String → String
value k m = value_or_empty (lookup k m)
