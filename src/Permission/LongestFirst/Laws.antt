-- ===== src/Permission/LongestFirst/Laws.antt =====
-- The sort keeps the elements and orders them, and the first hit on the result is a longest one.
use permission_binder_operat.Prelude.{
  ℕ, zero, suc, ◌≤◌, String, len, ◌≡◌, refl, ◌∙◌, ◌⊎◌, inl, inr, ◌↔◌, Option, some, List, [], ◌∷◌,
  length, All, In, arith, Option-cases,
}
use permission_binder_operat.Permission.LongestFirst.{
  longer, shorter, carry, sort_rounds, longest_first, first_some,
}

abbrev AllLe : ℕ → List String → Type 0
AllLe n xs = All (λ (y : String). len y ≤ n) xs

-- Every element is at least as long as those behind it.
abbrev pub IsDescending : List String → Type 0
IsDescending [] = Unit {0}
IsDescending (x ∷ xs) = AllLe (len x) xs × IsDescending xs

AllLe-weaken : (xs : List String) (m n : ℕ) → m ≤ n → AllLe m xs → AllLe n xs
AllLe-weaken [] m n h a = tt
AllLe-weaken (x ∷ xs) m n h a = (omega (arith, a.0), AllLe-weaken xs m n h a.1)

length-carry : (x : String) (xs : List String) → length (carry x xs).1 ≡ length xs
unfolding carry
length-carry x [] = refl
length-carry x (y ∷ ys) = omega (arith, length-carry (longer x y) ys)

swap_order : (x y : String) → (len x ≤ len (longer x y)) × (len (shorter x y) ≤ len (longer x y))
unfolding longer shorter
swap_order x y = ground arith

swap_cases :
    (x y : String) → ((longer x y ≡ x) × (shorter x y ≡ y)) ⊎ ((longer x y ≡ y) × (shorter x y ≡ x))
unfolding longer shorter
swap_cases x y = ground arith

-- The element carried is at least as long as the one it starts from and all behind it.
carry_longest :
    (x : String) (xs : List String)
    → (len x ≤ len (carry x xs).0) × AllLe (len (carry x xs).0) (carry x xs).1
unfolding carry
carry_longest x [] = (omega arith, tt)
carry_longest x (y ∷ ys) =
    let (over, rest) = carry_longest (longer x y) ys in
    (omega (arith, over, swap_order x y), (omega (arith, over, swap_order x y), rest))

In-carry :
    (k x : String) (xs : List String) → In k ((carry x xs).0 ∷ (carry x xs).1) ↔ In k (x ∷ xs)
unfolding carry
In-carry k x [] = (λ h. h, λ h. h)
In-carry k x (y ∷ ys) = ground (arith, swap_cases x y, In-carry k (longer x y) ys)

AllLe-of_In : (n : ℕ) (xs : List String) → ((k : String) → In k xs → len k ≤ n) → AllLe n xs
AllLe-of_In n [] h = tt
AllLe-of_In n (x ∷ xs) h = (h x (inl refl), AllLe-of_In n xs (λ k m. h k (inr m)))

In-AllLe : (n : ℕ) (xs : List String) (k : String) → AllLe n xs → In k xs → len k ≤ n
In-AllLe n (x ∷ xs) k a (inl e) = rw e (a.0)
In-AllLe n (x ∷ xs) k a (inr m) = In-AllLe n xs k a.1 m
In-AllLe n [] k a m = absurd m

In-rounds : (k : String) (n : ℕ) (xs : List String) → In k (sort_rounds n xs) ↔ In k xs
unfolding sort_rounds
In-rounds k zero xs = (λ h. h, λ h. h)
In-rounds k (suc n) [] = (λ h. h, λ h. h)
In-rounds k (suc n) (x ∷ xs) = grind (arith, In-rounds k n (carry x xs).1, In-carry k x xs)

rounds-IsDescending : (n : ℕ) (xs : List String) → length xs ≤ n → IsDescending (sort_rounds n xs)
unfolding sort_rounds
rounds-IsDescending zero [] h = tt
rounds-IsDescending zero (x ∷ xs) h = absurd (omega arith)
rounds-IsDescending (suc n) [] h = tt
rounds-IsDescending (suc n) (x ∷ xs) h =
    let (_, below) = carry_longest x xs in
    (
      AllLe-of_In _ _ (λ k m. In-AllLe _ _ k below ((In-rounds k n (carry x xs).1).0 m)),
      rounds-IsDescending n (carry x xs).1 (omega (arith, length-carry x xs)),
    )

-- Sorting keeps the elements.
pub In-longest_first : (k : String) (xs : List String) → In k (longest_first xs) ↔ In k xs
unfolding longest_first
In-longest_first k xs = In-rounds k (length xs) xs

-- Sorting puts the longest first.
pub longest_first-IsDescending : (xs : List String) → IsDescending (longest_first xs)
unfolding longest_first
longest_first-IsDescending xs = rounds-IsDescending (length xs) xs (omega arith)

-- A hit of the search is a hit of the function, and the longest element with a hit.
pub record IsFirst {A : Type 0} (f : String → Option A) (xs : List String) (a : A) : Type 0 where
  pub at : String
  pub listed : In at xs
  pub hit : f at ≡ some a
  pub longest : (y : String) (b : A) → In y xs → f y ≡ some b → len y ≤ len at

module _ {A : Type 0} (f : String → Option A) where
  pub first_some-IsFirst :
      (xs : List String) {a : A} → IsDescending xs → first_some f xs ≡ some a → IsFirst f xs a
  unfolding first_some
  first_some-IsFirst [] d h = absurd (ground arith)
  first_some-IsFirst (x ∷ xs) {a} d h = elim (Option-cases (f x)) [
    | inl missed ↦
        let later = first_some-IsFirst xs {a = a} d.1 (rw (missed, first_some) at h) in
        record {
          at = later.at;
          listed = inr later.listed;
          hit = later.hit;
          longest = λ y b m e. elim m [
            | inl here ↦ absurd (ground arith)
            | inr there ↦ later.longest y b there e
          ];
        }
    | inr (b, found) ↦ record {
      at = x;
      listed = inl refl;
      hit = found ∙ (rw (found, first_some) at h);
      longest = λ y c m e. elim m [
        | inl here ↦ rw here (omega arith)
        | inr there ↦ In-AllLe _ xs y d.0 there
      ];
    }
  ]

  pub first_some_total :
      (xs : List String) (x : String) {a : A}
      → In x xs
      → f x ≡ some a
      → (b : A) × (first_some f xs ≡ some b)
  unfolding first_some
  first_some_total [] x m h = absurd m
  first_some_total (y ∷ ys) x m h = elim (Option-cases (f y)) [
    | inr (b, found) ↦ (b, rw (found, first_some) refl)
    | inl missed ↦ elim m [
      | inl here ↦ absurd (ground arith)
      | inr there ↦ let (b, e) = first_some_total ys x there h in (b, rw (missed, first_some) e)
    ]
  ]
