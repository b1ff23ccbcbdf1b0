-- ===== src/GoString/Search.antt =====
-- The first occurrence of a text in another.
use Prim.Native.String.{[], ◌∷◌}
use text.Mathlib.TextLemmas.{nil-append, cons-append}
use permission_binder_operat.Prelude.{
  Char, String, ◌≡◌, refl, some, eq_iff, Option-cases, inl, inr, arith,
}
use permission_binder_operat.GoString.{◌<>◌, cut_prefix, cut}
use permission_binder_operat.GoString.Affixes.{cut_prefix_sound}

-- A text cut at its front.
pub cut-prefix :
    (sub s : String) {r : String} → cut_prefix sub s ≡ some r → cut sub s ≡ some ("", r)
unfolding cut cut_prefix
cut-prefix [] [] h = ground arith
cut-prefix (c ∷ sub) [] h = absurd (ground arith)
cut-prefix sub (c ∷ s) h = rw (h, cut) refl

shift : (c : Char) (s a rest : String) → s ≡ a <> rest → c ∷ s ≡ (c ∷ a) <> rest
shift c s a rest e = rw (cons-append, e) refl

-- What is cut off in front, the text searched for and the rest make up the text.
pub cut_sound : (sub s : String) {a b : String} → cut sub s ≡ some (a, b) → s ≡ a <> sub <> b
unfolding cut
cut_sound sub [] {a} {b} h = ground (arith, eq_iff sub "", nil-append (sub <> b), nil-append b)
cut_sound sub (c ∷ s) {a} {b} h = elim (Option-cases (cut_prefix sub (c ∷ s))) [
  | inr (after, e) ↦ ground (arith, cut_prefix_sound sub (c ∷ s) e, nil-append (sub <> after))
  | inl missed ↦ elim (Option-cases (cut sub s)) [
    | inl missed' ↦ absurd (ground arith)
    | inr (r, e) ↦
        let later = shift c s r.0 (sub <> r.1) (cut_sound sub s {a = r.0} {b = r.1} e) in
        ground (arith, later)
  ]
]
