-- ===== src/GoPath/Laws.antt =====
-- Paths that are put together from plain names.
use Prim.Native.String.{[], ◌∷◌}
use mathlib.Core.List.{append-nil}
use text.Mathlib.TextLemmas.{nil-append, cons-append}
use permission_binder_operat.Prelude.{
  String, Bool, false, code, ◌≡◌, refl, ap, ◌∙◌, ◌≢◌, inl, inr, List, ◌++◌, All, eqb, ◌==◌, eq_iff,
  arith, Bool-cases, not_true,
}
use permission_binder_operat.GoString.{◌<>◌, cut_prefix, has_prefix, split}
use permission_binder_operat.GoPath.{join_slash, clean_parts, backwards, clean, join}

abbrev pub NoSlash : String → Type 0
NoSlash [] = Unit {0}
NoSlash (c ∷ s) = (eqb (code c) b'/' ≡ false) × NoSlash s

-- A name that is an element of a path and stays one.
pub record IsName (s : String) : Type 0 where
  pub no_slash : NoSlash s
  pub not_empty : s ≢ ""
  pub not_here : s ≢ "."
  pub not_up : s ≢ ".."

abbrev one : String → List String
one s = List.◌∷◌ s List.[]

split_name : (s : String) → NoSlash s → split b'/' s ≡ one s
unfolding split
split_name [] h = refl
split_name (c ∷ s) (plain, h) = rw (split_name s h) (rw plain refl)

split_parts : (s : String) → (p : String) × (ps : List String) × (split b'/' s ≡ List.◌∷◌ p ps)
unfolding split
split_parts [] = ("", List.[], refl)
split_parts (c ∷ s) = elim (Bool-cases (eqb (code c) b'/')) [
  | inl here ↦ let (p, ps, e) = split_parts s in ("", List.◌∷◌ p ps, rw e (rw here refl))
  | inr other ↦ let (p, ps, e) = split_parts s in (c ∷ p, ps, rw e (rw other refl))
]

split_slash : (r : String) → split b'/' ("/" <> r) ≡ List.◌∷◌ "" (split b'/' r)
unfolding split
split_slash r = let (p, ps, e) = split_parts r in rw (cons-append, nil-append, e) refl

pub split_step : (s r : String) → NoSlash s → split b'/' (s <> "/" <> r) ≡ List.◌∷◌ s (split b'/' r)
unfolding split
split_step [] r h = rw nil-append (split_slash r)
split_step (c ∷ s) r (plain, h) = rw cons-append (rw (split_step s r h, split) (rw plain refl))

pub split-join_slash :
    (x : String) (xs : List String)
    → NoSlash x
    → All NoSlash xs
    → split b'/' (join_slash (List.◌∷◌ x xs)) ≡ List.◌∷◌ x xs
unfolding join_slash
split-join_slash x List.[] h t = split_name x h
split-join_slash x (List.◌∷◌ y ys) h (k, t) =
    split_step x (join_slash (List.◌∷◌ y ys)) h ∙ ap (List.◌∷◌ x) (split-join_slash y ys k t)

backwards_twice :
    (done acc xs : List String) → backwards done (backwards acc xs) ≡ backwards (xs ++ done) acc
unfolding backwards
backwards_twice done acc List.[] = refl
backwards_twice done acc (List.◌∷◌ x xs) = backwards_twice done (List.◌∷◌ x acc) xs

pub eq_false : (a b : String) → a ≢ b → (a == b) ≡ false
eq_false a b h = not_true (a == b) (λ e. h ((eq_iff a b).0 e))

clean_parts-names :
    (rooted : Bool) (kept xs : List String)
    → All IsName xs
    → clean_parts rooted kept xs ≡ backwards kept xs
unfolding clean_parts backwards
clean_parts-names rooted kept List.[] h = refl
clean_parts-names rooted kept (List.◌∷◌ x xs) (name, h) =
    rw (eq_false x "" name.not_empty, eq_false x "." name.not_here, eq_false x ".." name.not_up)
      (clean_parts-names rooted (List.◌∷◌ x kept) xs h)

-- A name does not begin with a slash.
pub has_prefix-slash : (s r : String) → NoSlash s → s ≢ "" → has_prefix (s <> r) "/" ≡ false
unfolding has_prefix cut_prefix
has_prefix-slash [] r h full = absurd (full refl)
has_prefix-slash (c ∷ s) r (plain, h) full = rw cons-append (ground arith)

has_prefix-name : (s : String) → NoSlash s → has_prefix s "/" ≡ false
unfolding has_prefix cut_prefix
has_prefix-name [] h = refl
has_prefix-name (c ∷ s) (plain, h) = ground arith

pub joined_name :
    (x : String) (xs : List String) → IsName x → has_prefix (join_slash (List.◌∷◌ x xs)) "/" ≡ false
joined_name x List.[] name = unfold join_slash in has_prefix-name x name.no_slash
joined_name x (List.◌∷◌ y ys) name =
    unfold join_slash in
    has_prefix-slash x ("/" <> join_slash (List.◌∷◌ y ys)) name.no_slash name.not_empty

pub no_slashes : (xs : List String) → All IsName xs → All NoSlash xs
no_slashes List.[] h = tt
no_slashes (List.◌∷◌ x xs) (name, h) = (name.no_slash, no_slashes xs h)

pub joined_full :
    (x : String) (xs : List String)
    → IsName x
    → All IsName xs
    → (join_slash (List.◌∷◌ x xs) == "") ≡ false
unfolding split
joined_full x xs name h = eq_false (join_slash (List.◌∷◌ x xs)) "" λ e.
    name.not_empty (cc (split-join_slash x xs name.no_slash (no_slashes xs h), ap (split b'/') e))

-- Names that are put together are a path that needs no cleaning.
pub clean-join_slash :
    (x : String) (xs : List String)
    → IsName x
    → All IsName xs
    → clean (join_slash (List.◌∷◌ x xs)) ≡ join_slash (List.◌∷◌ x xs)
unfolding clean
clean-join_slash x xs name h =
    let kept =
      ap (backwards List.[]) (
        ap (clean_parts false List.[]) (split-join_slash x xs name.no_slash (no_slashes xs h))
        ∙ clean_parts-names false List.[] (List.◌∷◌ x xs) (name, h))
      ∙ backwards_twice List.[] List.[] (List.◌∷◌ x xs)
      ∙ append-nil (List.◌∷◌ x xs) in
    rw (joined_name x xs name, kept, joined_full x xs name h) refl

-- `filepath.Join` of names puts slashes between them.
pub join-names :
    (x : String) (xs : List String)
    → IsName x
    → All IsName xs
    → join (List.◌∷◌ x xs) ≡ join_slash (List.◌∷◌ x xs)
unfolding join
join-names x xs name h = rw (eq_false x "" name.not_empty) (clean-join_slash x xs name h)
