-- ===== src/GoString/Order.antt =====
-- Go's order of strings, `<=`: that of their bytes, which for UTF-8 is that of their code points.
use Prim.Native.String.{[], ◌∷◌}
use text.Mathlib.TextEquality.{Char-path}
use text.Mathlib.TextLemmas.{cons-eq-cons}
use permission_binder_operat.Prelude.{
  String, Bool, true, false, code, ◌≡◌, refl, ◌⊎◌, inl, inr, ltb, if◌then◌else◌, arith, Bool-cases,
}

unfoldable pub text_le : String → String → Bool
text_le [] t = true
text_le (c ∷ s) [] = false
text_le (c ∷ s) (d ∷ t) =
    let later = text_le s t in
    if ltb (code c) (code d) then true else if ltb (code d) (code c) then false else later

pub text_le_refl : (s : String) → text_le s s ≡ true
unfolding text_le
text_le_refl [] = refl
text_le_refl (c ∷ s) = ground (arith, text_le_refl s)

pub text_le_total : (s t : String) → (text_le s t ≡ true) ⊎ (text_le t s ≡ true)
unfolding text_le
text_le_total [] t = inl refl
text_le_total (c ∷ s) [] = inr refl
text_le_total (c ∷ s) (d ∷ t) = elim (text_le_total s t) [
  | inl h ↦ elim (Bool-cases (ltb (code d) (code c))) [
    | inl k ↦ inr (ground arith)
    | inr k ↦ inl (ground arith)
  ]
  | inr h ↦ elim (Bool-cases (ltb (code c) (code d))) [
    | inl k ↦ inl (ground arith)
    | inr k ↦ inr (ground arith)
  ]
]

pub text_le_trans : (s t u : String) → text_le s t ≡ true → text_le t u ≡ true → text_le s u ≡ true
unfolding text_le
text_le_trans [] t u h k = refl
text_le_trans (c ∷ s) [] u h k = absurd (ground arith)
text_le_trans (c ∷ s) (d ∷ t) [] h k = absurd (ground arith)
text_le_trans (c ∷ s) (d ∷ t) (e ∷ u) h k = ground (arith, text_le_trans s t u)

pub text_le_antisym : (s t : String) → text_le s t ≡ true → text_le t s ≡ true → s ≡ t
unfolding text_le
text_le_antisym [] [] h k = refl
text_le_antisym [] (d ∷ t) h k = absurd (ground arith)
text_le_antisym (c ∷ s) [] h k = absurd (ground arith)
text_le_antisym (c ∷ s) (d ∷ t) h k =
    let (same, below, above) : (code c ≡ code d) × (text_le s t ≡ true) × (text_le t s ≡ true) =
      (ground arith, ground arith, ground arith) in
    cons-eq-cons.1 (Char-path c d same, text_le_antisym s t below above)
