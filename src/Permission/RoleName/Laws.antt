-- ===== src/Permission/RoleName/Laws.antt =====
-- The role of a binding is read back from the binding's name.
use text.Mathlib.TextPositions.{len-append}
use text.Mathlib.TextLemmas.{append_cancel_left}
use permission_binder_operat.Prelude.{String, ◌≡◌, sym, ◌∙◌, true, some, ok, arith}
use permission_binder_operat.GoString.{◌<>◌, has_suffix}
use permission_binder_operat.GoString.Affixes.{
  suffix_unique, has_suffix_sound, has_suffix_of_append,
}
use permission_binder_operat.GoMap.{GoMap, keys}
use permission_binder_operat.Permission.Parse.{parse_permission_string}
use permission_binder_operat.Permission.Parse.Longest.{IsBest}
use permission_binder_operat.Permission.Parse.Laws.{parse_sound}
use permission_binder_operat.Permission.LongestFirst.{longest_first}
use permission_binder_operat.Permission.LongestFirst.Laws.{
  In-longest_first, longest_first-IsDescending, first_some-IsFirst, first_some_total,
}
use permission_binder_operat.Permission.RoleName.{suffix_role, extract_role_with_mapping}

suffix_role_sound :
    (name role : String) {found : String}
    → suffix_role name role ≡ some found
    → (found ≡ role) × (has_suffix name ("-" <> role) ≡ true)
unfolding suffix_role
suffix_role_sound name role h = ground arith

suffix_role_complete :
    (name role : String) → has_suffix name ("-" <> role) ≡ true → suffix_role name role ≡ some role
unfolding suffix_role
suffix_role_complete name role h = ground arith

IsBest-extract :
    (name : String) (m : GoMap String) {n r : String}
    → IsBest name (keys m) n r
    → extract_role_with_mapping name m ≡ r
IsBest-extract name m {n} {r} best =
    let ends = has_suffix_of_append name n ("-" <> r) best.matched in
    let listed = (In-longest_first r (keys m)).1 best.listed in
    let (b, found) =
      first_some_total (suffix_role name) (longest_first (keys m)) r listed
        (suffix_role_complete name r ends) in
    let first =
      first_some-IsFirst (suffix_role name) _ (longest_first-IsDescending (keys m)) found in
    let (is_b, ends') = suffix_role_sound name first.at first.hit in
    let matched = has_suffix_sound name ("-" <> first.at) ends' in
    let below =
      best.longest first.at _ ((In-longest_first first.at (keys m)).0 first.listed) matched in
    let above = first.longest r r listed (suffix_role_complete name r ends) in
    let (_, same) =
      suffix_unique n _ ("-" <> r) ("-" <> first.at) (sym best.matched ∙ matched)
        (omega (arith, below, above, len-append "-" r, len-append "-" first.at)) in
    (unfold extract_role_with_mapping in
      rw found (is_b ∙ sym (append_cancel_left "-" r first.at same)))

-- When a string is parsed into a namespace and a role, the role is read back from the name
-- `namespace-role` of the binding that is made from them, dashes in either notwithstanding.
pub extract-parse :
    (s p : String) (m : GoMap String) {n r : String}
    → parse_permission_string s p m ≡ ok (n, r)
    → extract_role_with_mapping (n <> "-" <> r) m ≡ r
extract-parse s p m {n} {r} h = IsBest-extract _ m (parse_sound s p m h).best
