-- ===== src/Permission/Prefixes/Laws.antt =====
-- The longest prefix under which the string can be parsed is the one that is used.
use permission_binder_operat.Prelude.{
  String, len, ◌≡◌, sym, ◌∙◌, ap, ◌≤◌, ◌↔◌, some, List, In, ok, arith,
}
use text.Mathlib.TextPositions.{len-append}
use text.Mathlib.TextLemmas.{append_cancel_right}
use permission_binder_operat.GoString.{◌<>◌}
use permission_binder_operat.GoString.Affixes.{prefix_unique}
use permission_binder_operat.GoMap.{GoMap}
use permission_binder_operat.Permission.Parse.{parse_permission_string}
use permission_binder_operat.Permission.Parse.Laws.{parse_sound}
use permission_binder_operat.Permission.LongestFirst.{longest_first}
use permission_binder_operat.Permission.LongestFirst.Laws.{
  IsFirst, In-longest_first, longest_first-IsDescending, first_some-IsFirst, first_some_total,
}
use permission_binder_operat.Permission.Prefixes.{Parsed, try_prefix, parse_with_prefixes}

-- `parsed` is what the longest of the prefixes that fit gives.
pub record IsChosen (s : String) (prefixes : List String) (m : GoMap String) (parsed : Parsed)
    : Type 0 where
  pub listed : In parsed.prefix prefixes
  pub fits : parse_permission_string s parsed.prefix m ≡ ok (parsed.namespace, parsed.role)
  pub longest :
      (q n r : String)
      → In q prefixes
      → parse_permission_string s q m ≡ ok (n, r)
      → len q ≤ len parsed.prefix

try_prefix_sound :
    (s q : String) (m : GoMap String) {a : Parsed}
    → try_prefix s m q ≡ some a
    → (parse_permission_string s q m ≡ ok (a.namespace, a.role)) × (a.prefix ≡ q)
unfolding try_prefix
try_prefix_sound s q m h = ground arith

try_prefix_complete :
    (s q : String) (m : GoMap String) {n r : String}
    → parse_permission_string s q m ≡ ok (n, r)
    → try_prefix s m q ≡ some (record { namespace = n; role = r; prefix = q })
unfolding try_prefix
try_prefix_complete s q m h = ground arith

-- Two prefixes of as many bytes, under which a string can be parsed, are one.
same_prefix :
    (s p q : String) (m : GoMap String) {n r n' r' : String}
    → parse_permission_string s p m ≡ ok (n, r)
    → parse_permission_string s q m ≡ ok (n', r')
    → len p ≡ len q
    → p ≡ q
same_prefix s p q m h k size =
    let a = parse_sound s p m h in
    let b = parse_sound s q m k in
    let (same, _) =
      prefix_unique (p <> "-") (q <> "-") _ _ (sym a.prefixed ∙ b.prefixed)
        (omega (arith, size, len-append p "-", len-append q "-")) in
    append_cancel_right p q "-" same

first-IsChosen :
    (s : String) (prefixes : List String) (m : GoMap String) {a : Parsed}
    → IsFirst (try_prefix s m) (longest_first prefixes) a
    → IsChosen s prefixes m a
first-IsChosen s prefixes m {a} first =
    let (fits, here) = try_prefix_sound s first.at m first.hit in
    record {
      listed = rw here ((In-longest_first _ prefixes).0 first.listed);
      fits = rw here fits;
      longest = λ q n r listed e. rw here (
          first.longest q _ ((In-longest_first q prefixes).1 listed) (try_prefix_complete s q m e));
    }

chosen_same :
    (s : String) (prefixes : List String) (m : GoMap String) {a b : Parsed}
    → IsChosen s prefixes m a
    → IsChosen s prefixes m b
    → a ≡ b
chosen_same s prefixes m {a} {b} c d =
    let size : len a.prefix ≡ len b.prefix =
      omega (arith, c.longest _ _ _ d.listed d.fits, d.longest _ _ _ c.listed c.fits) in
    let same = same_prefix s a.prefix b.prefix m c.fits d.fits size in
    ground (arith, same, c.fits, d.fits)

with_prefixes_sound :
    (s : String) (prefixes : List String) (m : GoMap String) {a : Parsed}
    → parse_with_prefixes s prefixes m ≡ ok a
    → IsChosen s prefixes m a
unfolding parse_with_prefixes
with_prefixes_sound s prefixes m {a} h =
    first-IsChosen s prefixes m
      (first_some-IsFirst _ _ (longest_first-IsDescending prefixes) (ground arith))

with_prefixes_complete :
    (s : String) (prefixes : List String) (m : GoMap String) {a : Parsed}
    → IsChosen s prefixes m a
    → parse_with_prefixes s prefixes m ≡ ok a
with_prefixes_complete s prefixes m {a} c =
    let (b, found) =
      first_some_total (try_prefix s m) (longest_first prefixes) a.prefix
        ((In-longest_first _ prefixes).1 c.listed) (try_prefix_complete s a.prefix m c.fits) in
    let chosen =
      first-IsChosen s prefixes m
        (first_some-IsFirst _ _ (longest_first-IsDescending prefixes) found) in
    (unfold parse_with_prefixes in rw found (ap ok (chosen_same s prefixes m chosen c)))

-- The parser returns exactly what the longest prefix gives under which the string can be parsed;
-- so neither the order of the prefixes nor their repetition matters.
pub parse_with_prefixes_iff :
    (s : String) (prefixes : List String) (m : GoMap String) (a : Parsed)
    → (parse_with_prefixes s prefixes m ≡ ok a) ↔ IsChosen s prefixes m a
parse_with_prefixes_iff s prefixes m a =
    (with_prefixes_sound s prefixes m, with_prefixes_complete s prefixes m)
