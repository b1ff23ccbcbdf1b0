-- ===== src/GoSort/Laws.antt =====
-- The sorted list has the elements of the list, in ascending order, and depends on nothing else.
use mathlib.Core.List.{Permᴰ}
use permission_binder_operat.Prelude.{
  String, true, ◌≡◌, refl, sym, ap, ◌∙◌, ◌⊎◌, ◌↔◌, inl, inr, List, [], ◌∷◌, In, arith, Bool-cases,
}
use permission_binder_operat.GoString.Order.{text_le, text_le_total, text_le_trans, text_le_antisym}
use permission_binder_operat.GoSort.{sort_in, sort_by}

-- A reordered list has the elements of the list.
pub In-Perm : {A : Type 0} (a : A) {xs ys : List A} → Permᴰ xs ys → In a ys → In a xs
In-Perm a Permᴰ.nil m = m
In-Perm a (Permᴰ.cons same p) m = elim m [
  | inl here ↦ inl (here ∙ sym same)
  | inr there ↦ inr (In-Perm a p there)
]
In-Perm a (Permᴰ.swap first second) m = elim m [
  | inl here ↦ inr (inl (here ∙ sym second))
  | inr (inl here) ↦ inl (here ∙ sym first)
  | inr (inr there) ↦ inr (inr there)
]
In-Perm a (Permᴰ.trans p q) m = In-Perm a p (In-Perm a q m)

module _ {A : Type 0} (key : A → String) where
  pub In-sort_in_iff : (a x : A) (xs : List A) → In a (sort_in key x xs) ↔ ((a ≡ x) ⊎ In a xs)
  unfolding sort_in
  In-sort_in_iff a x [] = (λ h. h, λ h. h)
  In-sort_in_iff a x (y ∷ rest) = elim (Bool-cases (text_le (key x) (key y))) [
    | inl first ↦ rw first (λ h. h, λ h. h)
    | inr later ↦
        let ih = In-sort_in_iff a x rest in
        rw later (
          λ h. elim h [
            | inl same ↦ inr (inl same)
            | inr there ↦ elim (ih.0 there) [ inl new ↦ inl new | inr old ↦ inr (inr old) ]
          ],
          λ h. elim h [
            | inl new ↦ inr (ih.1 (inl new))
            | inr (inl same) ↦ inl same
            | inr (inr old) ↦ inr (ih.1 (inr old))
          ],
        )
  ]

  pub In-sort_by_iff : (a : A) (xs : List A) → In a (sort_by key xs) ↔ In a xs
  unfolding sort_by
  In-sort_by_iff a [] = (λ h. h, λ h. h)
  In-sort_by_iff a (x ∷ rest) =
      let step = In-sort_in_iff a x (sort_by key rest) in
      let ih = In-sort_by_iff a rest in
      (
        λ h. elim (step.0 h) [ inl new ↦ inl new | inr old ↦ inr (ih.0 old) ],
        λ h. step.1 (elim h [ inl new ↦ inl new | inr old ↦ inr (ih.1 old) ]),
      )

  -- Each element is not behind any that stands later.
  abbrev pub IsAscending : List A → Type 0
  IsAscending [] = Unit {0}
  IsAscending (x ∷ rest) = ((y : A) → In y rest → text_le (key x) (key y) ≡ true) × IsAscending rest

  sort_in-IsAscending : (x : A) (xs : List A) → IsAscending xs → IsAscending (sort_in key x xs)
  unfolding sort_in
  sort_in-IsAscending x [] h = (λ y m. absurd m, tt)
  sort_in-IsAscending x (y ∷ rest) (least, h) = elim (Bool-cases (text_le (key x) (key y))) [
    | inl first ↦ rw first (
      λ z m. elim m [
        | inl same ↦ rw same first
        | inr there ↦ text_le_trans (key x) (key y) (key z) first (least z there)
      ],
      (least, h),
    )
    | inr later ↦ rw later (
      λ z m. elim ((In-sort_in_iff z x rest).0 m) [
        | inl same ↦ rw same (elim (text_le_total (key x) (key y)) [
          | inl first ↦ absurd (ground arith)
          | inr behind ↦ behind
        ])
        | inr there ↦ least z there
      ],
      sort_in-IsAscending x rest h,
    )
  ]

  pub sort_by-IsAscending : (xs : List A) → IsAscending (sort_by key xs)
  unfolding sort_by
  sort_by-IsAscending [] = tt
  sort_by-IsAscending (x ∷ rest) =
      sort_in-IsAscending x (sort_by key rest) (sort_by-IsAscending rest)

  sort_in_comm :
      (x y : A) (xs : List A)
      → (key x ≡ key y → x ≡ y)
      → sort_in key x (sort_in key y xs) ≡ sort_in key y (sort_in key x xs)
  unfolding sort_in
  sort_in_comm x y [] tells =
      ground (arith, text_le_total (key x) (key y), text_le_antisym (key x) (key y), tells)
  sort_in_comm x y (z ∷ rest) tells = ground (
    arith,
    sort_in_comm x y rest tells,
    text_le_total (key x) (key y),
    text_le_antisym (key x) (key y),
    tells,
    text_le_trans (key x) (key y) (key z),
    text_le_trans (key y) (key x) (key z),
  )

  -- The key tells the elements of the list apart.
  abbrev pub Tells : List A → Type 0
  Tells xs = (x y : A) → In x xs → In y xs → key x ≡ key y → x ≡ y

  -- If the key tells the elements apart, the order that the list had does not matter.
  pub sort_by-Perm : {xs ys : List A} → Tells xs → Permᴰ xs ys → sort_by key xs ≡ sort_by key ys
  unfolding sort_by
  sort_by-Perm tells Permᴰ.nil = refl
  sort_by-Perm tells (Permᴰ.cons {b = b} {l₁ = l} same p) =
      ap (λ z. sort_in key z (sort_by key l)) same
      ∙ ap (sort_in key b) (sort_by-Perm (λ x y m n. tells x y (inr m) (inr n)) p)
  sort_by-Perm tells (Permᴰ.swap {a} {b} {a'} {b'} {l} first second) =
      sort_in_comm a b (sort_by key l) (tells a b (inl refl) (inr (inl refl)))
      ∙ ap (λ z. sort_in key z (sort_in key a (sort_by key l))) second
      ∙ ap (λ z. sort_in key a' (sort_in key z (sort_by key l))) first
  sort_by-Perm tells (Permᴰ.trans p q) =
      sort_by-Perm tells p ∙ sort_by-Perm (λ x y m n. tells x y (In-Perm x p m) (In-Perm y p n)) q
