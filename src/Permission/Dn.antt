-- ===== src/Permission/Dn.antt =====
-- The group name in a whitelist entry, an LDAP distinguished name
-- (operator/internal/controller/reconciliation_configmap.go, ldap_helper.go).
pub mod Laws
use permission_binder_operat.Prelude.{
  String, Bool, ◌||◌, Option, none, some, Result, ok, err, ◌==◌, if◌then◌else◌,
}
use permission_binder_operat.GoString.{cut_prefix, cut, contains, trim_space}

pub data DnError : Type 0 where
  cn_not_found invalid_cn_format : DnError

-- The CN value up to the comma, or to the end.
up_to_comma : String → Option (String × String) → String
up_to_comma after_cn none = after_cn
up_to_comma after_cn (some (value, rest)) = value

-- `extractCNFromDN`
unfoldable pub extract_cn_from_dn : String → Result DnError String
unfolding up_to_comma
extract_cn_from_dn dn = elim (cut "CN=" dn) [
  | none ↦ err cn_not_found
  | some (before, after_cn) ↦ ok (trim_space (up_to_comma after_cn (cut "," after_cn)))
]

-- `LdapGroupInfo`
pub record LdapGroupInfo : Type 0 where
  pub group_name : String
  pub path : String
  pub full_dn : String

-- The two groups of the match, where `+` wants a character and `.` is no line feed.
abbrev matched : String → String × String → Result DnError LdapGroupInfo
matched cn (group, path) =
    if group == "" || (path == "" || contains path "\n")
    then err invalid_cn_format
    else ok (record { group_name = group; path = path; full_dn = cn })

abbrev match_path : String → Option (String × String) → Result DnError LdapGroupInfo
match_path cn none = err invalid_cn_format
match_path cn (some groups) = matched cn groups

abbrev match_cn : String → Option String → Result DnError LdapGroupInfo
match_cn cn none = err invalid_cn_format
match_cn cn (some rest) = match_path cn (cut "," rest)

-- `ParseCN`: the regular expression `^CN=([^,]+),(.+)$`. The first group holds no comma, so it ends
-- at the first one behind `CN=`.
unfoldable pub parse_cn : String → Result DnError LdapGroupInfo
parse_cn cn = match_cn cn (cut_prefix "CN=" cn)
