-- ===== src/GoSort.antt =====
-- Go's `sort.Strings` and `sort.Slice` with a text as the key of an element. The sorts of Go may leave
-- elements with one key in any order; where that matters a theorem says that the key decides the element.
pub mod Laws
use permission_binder_operat.Prelude.{String, Bool, true, false, List, [], ◌∷◌, if◌then◌else◌}
use permission_binder_operat.GoString.Order.{text_le}

module _ {A : Type 0} (key : A → String) where
  unfoldable pub sort_in : A → List A → List A
  sort_in x [] = x ∷ []
  sort_in x (y ∷ rest) =
      let later = sort_in x rest in if text_le (key x) (key y) then x ∷ y ∷ rest else y ∷ later

  unfoldable pub sort_by : List A → List A
  unfolding sort_in
  sort_by [] = []
  sort_by (x ∷ rest) = sort_in x (sort_by rest)

-- sort.Strings(xs)
abbrev pub sort_strings : List String → List String
sort_strings = sort_by (λ s. s)
