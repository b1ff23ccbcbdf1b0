-- ===== src/GoString/Affixes.antt =====
-- Cutting a prefix or a suffix, described by concatenation.
use Prim.Native.String.len
use Prim.Native.String.{[], ◌∷◌}
use text.Mathlib.TextEquality.{Char-path}
use text.Mathlib.TextLemmas.{
  nil-append, cons-append, append_cancel_right, cons-ne-nil, cons-eq-cons,
}
use text.Mathlib.TextPositions.{len-append, len_utf8-pos}
use permission_binder_operat.Prelude.{
  ℕ, Char, not_true, eq_refl, code, String, len, ◌≡◌, refl, sym, ap, ◌∙◌, ◌≢◌, ◌⊎◌, true, some,
  eq_iff, eqb, Bool-cases, Option-cases, inl, inr, arith,
}
use permission_binder_operat.GoString.{
  ◌<>◌, cut_prefix, cut_suffix, trim_prefix, has_suffix, trim_suffix,
}

eqb→eq : (a b : ℕ) → eqb a b ≡ true → a ≡ b
eqb→eq a b h = ground arith

pub cut_prefix_sound : (p s : String) {r : String} → cut_prefix p s ≡ some r → s ≡ p <> r
unfolding cut_prefix
cut_prefix_sound [] s {r} h = rw nil-append (cc)
cut_prefix_sound (c ∷ p) [] h = ground arith
cut_prefix_sound (c ∷ p) (d ∷ s) {r} h = elim (Bool-cases (eqb (code c) (code d))) [
  | inl same ↦
      let e = cut_prefix_sound p s (rw same at h) in
      rw cons-append (cons-eq-cons.1 (sym (Char-path c d (eqb→eq _ _ same)), e))
  | inr other ↦ ground arith
]

eqb_refl : (a : ℕ) → eqb a a ≡ true
eqb_refl a = ground arith

pub cut_prefix-append : (p r : String) → cut_prefix p (p <> r) ≡ some r
unfolding cut_prefix
cut_prefix-append [] r = rw nil-append
cut_prefix-append (c ∷ p) r =
    rw (cons-append, cut_prefix) (rw (eqb_refl (code c)) (cut_prefix-append p r))

-- A text is its own suffix, with nothing in front.
cut_suffix_self : (s : String) → cut_suffix s s ≡ some ""
unfolding cut_suffix
cut_suffix_self [] = refl
cut_suffix_self (c ∷ s) = rw (eq_refl (c ∷ s)) refl

cons_shift : (c : Char) (s r suf : String) → s ≡ r <> suf → c ∷ s ≡ (c ∷ r) <> suf
cons_shift c s r suf e = rw (cons-append, e) refl

pub cut_suffix_sound : (suf s : String) {r : String} → cut_suffix suf s ≡ some r → s ≡ r <> suf
unfolding cut_suffix
cut_suffix_sound suf [] {r} h = ground (arith, eq_iff suf "", nil-append suf)
cut_suffix_sound suf (c ∷ s) {r} h = elim (Option-cases (cut_suffix suf s)) [
  | inl missed ↦ ground (arith, eq_iff suf (c ∷ s), nil-append suf)
  | inr (q, e) ↦
      let shifted = cons_shift c s q suf (cut_suffix_sound suf s e) in
      ground (arith, eq_iff suf (c ∷ s), nil-append suf, shifted)
]

not_longer : (c : Char) (r suf : String) → suf ≢ (c ∷ r) <> suf
not_longer c r suf e =
    cons-ne-nil c r (sym (append_cancel_right "" (c ∷ r) suf (nil-append suf ∙ e)))

cut_suffix_step :
    (c : Char) (r suf : String)
    → cut_suffix suf (r <> suf) ≡ some r
    → cut_suffix suf ((c ∷ r) <> suf) ≡ some (c ∷ r)
cut_suffix_step c r suf h =
    let differs =
      not_true _ (λ e. not_longer c r suf ((eq_iff _ _).0 e ∙ sym (cons-append c r suf))) in
    rw cons-append (unfold cut_suffix in rw (differs, h) refl)

pub cut_suffix-append : (r suf : String) → cut_suffix suf (r <> suf) ≡ some r
cut_suffix-append [] suf = rw nil-append (cut_suffix_self suf)
cut_suffix-append (c ∷ r) suf = cut_suffix_step c r suf (cut_suffix-append r suf)

len-cons-ne : (c : Char) (r b a : String) → a ≡ (c ∷ r) <> b → len a ≢ len b
len-cons-ne c r b a e h =
    let (k, pos) = len_utf8-pos c in
    let total = ap len (e ∙ cons-append c r b) in
    absurd (omega (arith, total, h, len.cons c (r <> b), len-append r b, pos))

-- Two suffixes of one text, with as many bytes, are equal, and so is what stands in front.
pub suffix_unique : (r q a b : String) → r <> a ≡ q <> b → len a ≡ len b → (r ≡ q) × (a ≡ b)
suffix_unique [] [] a b e h = (refl, sym (nil-append a) ∙ e ∙ nil-append b)
suffix_unique [] (d ∷ q) a b e h = absurd (len-cons-ne d q b a (sym (nil-append a) ∙ e) h)
suffix_unique (c ∷ r) [] a b e h = absurd (len-cons-ne c r a b (sym (nil-append b) ∙ sym e) (sym h))
suffix_unique (c ∷ r) (d ∷ q) a b e h =
    let (head, rest) = cons-eq-cons.0 (sym (cons-append c r a) ∙ e ∙ cons-append d q b) in
    let (front, back) = suffix_unique r q a b rest h in (cons-eq-cons.1 (head, front), back)

-- Two prefixes of one text, with as many bytes, are equal.
pub prefix_unique : (a b r q : String) → a <> r ≡ b <> q → len a ≡ len b → (a ≡ b) × (r ≡ q)
prefix_unique a b r q e h =
    let total = ap len e in
    let (front, back) =
      suffix_unique a b r q e (omega (arith, total, h, len-append a r, len-append b q)) in
    (front, back)

pub trim_prefix-append : (p r : String) → trim_prefix (p <> r) p ≡ r
unfolding trim_prefix
trim_prefix-append p r = rw cut_prefix-append

pub trim_suffix-append : (r suf : String) → trim_suffix (r <> suf) suf ≡ r
unfolding trim_suffix
trim_suffix-append r suf = rw cut_suffix-append

pub has_suffix-append : (r suf : String) → has_suffix (r <> suf) suf ≡ true
unfolding has_suffix
has_suffix-append r suf = rw cut_suffix-append

-- A text with the suffix is what `trim_suffix` leaves, and the suffix.
pub has_suffix_sound : (s suf : String) → has_suffix s suf ≡ true → s ≡ trim_suffix s suf <> suf
unfolding has_suffix trim_suffix
has_suffix_sound s suf h = elim (Option-cases (cut_suffix suf s)) [
  | inl missed ↦ ground arith
  | inr (r, e) ↦ rw e (cut_suffix_sound suf s e)
]

pub has_suffix_of_append : (s r suf : String) → s ≡ r <> suf → has_suffix s suf ≡ true
has_suffix_of_append s r suf e = rw e (has_suffix-append r suf)

-- Trimming changes a text exactly if the text has the prefix, when the prefix is not empty.
pub trim_prefix_changes : (s p : String) → trim_prefix s p ≢ s → s ≡ p <> trim_prefix s p
unfolding trim_prefix
trim_prefix_changes s p h = elim (Option-cases (cut_prefix p s)) [
  | inl missed ↦ absurd (ground arith)
  | inr (r, e) ↦ rw e (cut_prefix_sound p s e)
]

pub len-zero : (s : String) → len s ≡ 0 → s ≡ ""
len-zero [] h = refl
len-zero (c ∷ s) h = let (k, pos) = len_utf8-pos c in absurd (omega (arith, h, len.cons c s, pos))

pub String-cases : (s : String) → (s ≡ "") ⊎ (s ≢ "")
String-cases [] = inl refl
String-cases (c ∷ s) = inr (cons-ne-nil c s)

pub append_cancel : (p a b : String) → p <> a ≡ p <> b → a ≡ b
append_cancel p a b e = (prefix_unique p p a b e refl).1
