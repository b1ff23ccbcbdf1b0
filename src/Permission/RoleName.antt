-- ===== src/Permission/RoleName.antt =====
-- The role in the name of a role binding (operator/internal/controller/reconciliation_helpers.go).
pub mod Laws
use permission_binder_operat.Prelude.{
  String, Bool, true, false, Option, none, some, List, [], ◌∷◌, is_some, if◌then◌else◌,
}
use permission_binder_operat.GoString.{◌<>◌, has_suffix, split}
use permission_binder_operat.GoMap.{GoMap, keys, lookup}
use permission_binder_operat.Permission.LongestFirst.{longest_first, first_some}

last_from : String → List String → String
last_from part [] = part
last_from part (next ∷ rest) = last_from next rest

last_of_two : List String → String
last_of_two [] = ""
last_of_two (part ∷ []) = ""
last_of_two (part ∷ next ∷ rest) = last_from next rest

-- `extractRoleFromRoleBindingName`: the part behind the last dash, if there is a dash.
unfoldable pub extract_role : String → String
unfolding last_of_two last_from
extract_role name = last_of_two (split b'-' name)

-- One round of the loop over the role names.
unfoldable pub suffix_role : String → String → Option String
suffix_role name role = if has_suffix name ("-" <> role) then some role else none

or_legacy : String → Option String → String
or_legacy name none = extract_role name
or_legacy name (some role) = role

-- `extractRoleFromRoleBindingNameWithMapping`
unfoldable pub extract_role_with_mapping : String → GoMap String → String
unfolding or_legacy
extract_role_with_mapping name role_mapping =
    or_legacy name (first_some (suffix_role name) (longest_first (keys role_mapping)))

-- `roleExistsInMapping`
unfoldable pub role_exists : String → GoMap String → Bool
role_exists role role_mapping = is_some (lookup role role_mapping)
