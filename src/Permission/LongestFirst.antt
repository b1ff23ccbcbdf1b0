-- ===== src/Permission/LongestFirst.antt =====
-- The exchange sort, longest first, and the search for the first hit, that
-- `parsePermissionStringWithPrefixes` and `extractRoleFromRoleBindingNameWithMapping` share
-- (operator/internal/controller/reconciliation_configmap.go, reconciliation_helpers.go).
pub mod Laws
use permission_binder_operat.Prelude.{
  ℕ, zero, suc, ◌≤◌, String, len, ◌≡◌, refl, ◌⊎◌, inl, inr, ◌↔◌, ◌≢◌, Option, none, some, List, [],
  ◌∷◌, length, All, In, ltb, if◌then◌else◌, arith, Option-cases, Bool-cases, ltb→lt, ltb→le,
}

-- The two elements after `if len(xs[j]) > len(xs[i]) { swap }`: that at `i`, and that at `j`.
longer : String → String → String
longer x y = if ltb (len x) (len y) then y else x

shorter : String → String → String
shorter x y = if ltb (len x) (len y) then x else y

-- The inner loop at a fixed `i`: the element at `i`, and the elements behind it, after the swaps.
carry : String → List String → String × List String
carry x [] = (x, [])
carry x (y ∷ ys) = let (first, rest) = carry (longer x y) ys in (first, shorter x y ∷ rest)

-- The outer loop, for the rounds that are left.
sort_rounds : ℕ → List String → List String
sort_rounds (suc n) (x ∷ xs) = let r = carry x xs in r.0 ∷ sort_rounds n r.1
sort_rounds zero xs = xs
sort_rounds (suc n) [] = []

unfoldable pub longest_first : List String → List String
unfolding sort_rounds carry longer shorter
longest_first xs = sort_rounds (length xs) xs

-- `for _, x := range xs { if f(x) succeeds { return it } }`
unfoldable pub first_some : {A : Type 0} → (String → Option A) → List String → Option A
first_some f [] = none
first_some f (x ∷ xs) = elim (f x) [ some a ↦ some a | none ↦ first_some f xs ]
