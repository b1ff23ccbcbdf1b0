-- ===== src/GoString.antt =====
-- The operations of Go's `strings` package that the operator uses, over valid UTF-8 texts.
-- `len` counts bytes, as Go's `len` does; a prefix or suffix of characters is one of bytes.
pub mod Affixes
pub mod Order
pub mod Search
use Prim.Native.String
use Prim.Native.String.{[], ◌∷◌}
use mathlib.Core.Option
use permission_binder_operat.Prelude.{
  ℕ, zero, suc, ◌-◌, Char, code, String, Bool, true, false, ◌||◌, ◌&&◌, Option, none, some, List,
  ◌==◌, eqb, leb, if◌then◌else◌, is_some,
}

infixr 65 ◌<>◌
-- Go's `+` on strings.
abbrev pub ◌<>◌ : String → String → String
s <> t = String.◌++◌ s t

-- What is left of the text behind the prefix.
unfoldable pub cut_prefix : String → String → Option String
cut_prefix [] s = some s
cut_prefix (c ∷ p) [] = none
cut_prefix (c ∷ p) (d ∷ s) = if eqb (code c) (code d) then cut_prefix p s else none

-- What stands in front of the suffix.
unfoldable pub cut_suffix : String → String → Option String
cut_suffix suffix [] = if suffix == "" then some "" else none
cut_suffix suffix (c ∷ s) =
    if suffix == (c ∷ s) then some "" else Option.map (λ r. c ∷ r) (cut_suffix suffix s)

or_else : String → Option String → String
or_else s none = s
or_else s (some r) = r

-- strings.HasPrefix(s, prefix)
unfoldable pub has_prefix : String → String → Bool
has_prefix s prefix = is_some (cut_prefix prefix s)

-- strings.TrimPrefix(s, prefix)
unfoldable pub trim_prefix : String → String → String
unfolding or_else
trim_prefix s prefix = or_else s (cut_prefix prefix s)

-- strings.HasSuffix(s, suffix)
unfoldable pub has_suffix : String → String → Bool
has_suffix s suffix = is_some (cut_suffix suffix s)

-- strings.TrimSuffix(s, suffix)
unfoldable pub trim_suffix : String → String → String
unfolding or_else
trim_suffix s suffix = or_else s (cut_suffix suffix s)

-- The texts before and behind the first occurrence of `sub`: `strings.Index` with both slices.
unfoldable pub cut : String → String → Option (String × String)
cut sub [] = if sub == "" then some ("", "") else none
cut sub (c ∷ s) = elim (cut_prefix sub (c ∷ s)) [
  | some after ↦ some ("", after)
  | none ↦ Option.map (λ r. (c ∷ r.0, r.1)) (cut sub s)
]

-- strings.Contains(s, sub)
unfoldable pub contains : String → String → Bool
contains s sub = is_some (cut sub s)

-- strings.Split(s, sep) for a separator of one character.
unfoldable pub split : ℕ → String → List String
split sep [] = List.◌∷◌ "" List.[]
split sep (c ∷ s) = elim (split sep s) [
  | List.[] ↦ List.[]
  | List.◌∷◌ part parts ↦
      if eqb (code c) sep then List.◌∷◌ "" (List.◌∷◌ part parts) else List.◌∷◌ (c ∷ part) parts
]

-- The number of characters.
unfoldable pub chars : String → ℕ
chars [] = 0
chars (c ∷ s) = suc (chars s)

-- The number of characters of an occurrence that are still to be passed over comes third.
pub replace_from : String → String → ℕ → String → String
replace_from old new skip [] = ""
replace_from old new (suc skip) (c ∷ s) = replace_from old new skip s
replace_from old new zero (c ∷ s) = elim (has_prefix (c ∷ s) old) [
  | true ↦ new <> replace_from old new (chars old - 1) s
  | false ↦ c ∷ replace_from old new 0 s
]

-- strings.ReplaceAll(s, old, new) for an `old` that is not empty.
unfoldable pub replace_all : String → String → String → String
unfolding replace_from
replace_all s old new = replace_from old new 0 s

-- unicode.IsSpace
unfoldable pub is_space : ℕ → Bool
is_space c =
    (leb 9 c && leb c 13)
    || eqb c 32
    || eqb c 0x85
    || eqb c 0xa0
    || eqb c 0x1680
    || (leb 0x2000 c && leb c 0x200a)
    || eqb c 0x2028
    || eqb c 0x2029
    || eqb c 0x202f
    || eqb c 0x205f
    || eqb c 0x3000

pub trim_left : String → String
trim_left [] = ""
trim_left (c ∷ s) = if is_space (code c) then trim_left s else c ∷ s

trim_cons : Char → String → String
trim_cons c [] = if is_space (code c) then "" else c ∷ ""
trim_cons c (d ∷ s) = c ∷ d ∷ s

pub trim_right : String → String
trim_right [] = ""
trim_right (c ∷ s) = trim_cons c (trim_right s)

-- strings.TrimSpace(s)
unfoldable pub trim_space : String → String
unfolding trim_left trim_right trim_cons is_space
trim_space s = trim_right (trim_left s)
