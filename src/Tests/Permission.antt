-- ===== src/Tests/Permission.antt =====
-- Whitelist entries that are parsed, and the theorems on them at those entries.
use permission_binder_operat.Prelude.{String, ◌≡◌, refl, ◌↔◌, [], ◌∷◌, In, ok, err, arith}
use permission_binder_operat.GoString.{
  ◌<>◌, cut_prefix, cut_suffix, cut, split, has_suffix, trim_suffix, trim_prefix, trim_space,
  contains,
}
use permission_binder_operat.GoMap.{GoMap, keys}
use permission_binder_operat.Permission.Dn.{LdapGroupInfo, extract_cn_from_dn, parse_cn}
use permission_binder_operat.Permission.Parse.{
  role_missing, parse_permission_string, best_role, consider, conclude,
}
use permission_binder_operat.Permission.Parse.Laws.{IsPermission, parse_iff}
use permission_binder_operat.Permission.LongestFirst.{longest_first, first_some}
use permission_binder_operat.Permission.Prefixes.{parse_with_prefixes, try_prefix}
use permission_binder_operat.Permission.Prefixes.Laws.{IsChosen, parse_with_prefixes_iff}
use permission_binder_operat.Permission.RoleName.{extract_role, extract_role_with_mapping}
use permission_binder_operat.Permission.RoleName.Laws.{extract-parse}

-- The role mapping of the tests, with a role that is a suffix of another.
abbrev roles : GoMap String
roles = ("only", "view") ∷ ("read-only", "view") ∷ ("admin", "admin") ∷ []

abbrev same_roles : GoMap String
same_roles = ("admin", "admin") ∷ ("read-only", "view") ∷ ("only", "view") ∷ []

parse_read_only :
    parse_permission_string "COMPANY-K8S-project-123-read-only" "COMPANY-K8S" roles
    ≡ ok ("project-123", "read-only")
unfolding parse_permission_string best_role consider conclude has_suffix trim_suffix trim_prefix
    cut_prefix cut_suffix
parse_read_only = refl

parse_unknown_role :
    parse_permission_string "COMPANY-K8S-project-123-boss" "COMPANY-K8S" roles ≡ err role_missing
unfolding parse_permission_string best_role consider conclude has_suffix trim_suffix trim_prefix
    cut_prefix cut_suffix
parse_unknown_role = refl

parse_iff_example :
    (parse_permission_string "COMPANY-K8S-project-123-read-only" "COMPANY-K8S" roles
      ≡ ok ("project-123", "read-only"))
    ↔ IsPermission "COMPANY-K8S-project-123-read-only" "COMPANY-K8S"
        (keys roles)
        "project-123"
        "read-only"
parse_iff_example =
    parse_iff "COMPANY-K8S-project-123-read-only" "COMPANY-K8S" roles "project-123" "read-only"

roles_same : (k : String) → In k (keys roles) ↔ In k (keys same_roles)
roles_same k = ground arith

-- The longer prefix leaves no role, so the shorter one is used.
prefixes_fall_back :
    parse_with_prefixes "MT-K8S-DEV-admin" ("MT-K8S" ∷ "MT-K8S-DEV" ∷ []) roles
    ≡ ok (record { namespace = "DEV"; role = "admin"; prefix = "MT-K8S" })
unfolding parse_with_prefixes try_prefix longest_first first_some parse_permission_string best_role
    consider conclude has_suffix trim_suffix trim_prefix cut_prefix cut_suffix
prefixes_fall_back = refl

prefixes_longest :
    parse_with_prefixes "MT-K8S-DEV-a-admin" ("MT-K8S" ∷ "MT-K8S-DEV" ∷ []) roles
    ≡ ok (record { namespace = "a"; role = "admin"; prefix = "MT-K8S-DEV" })
unfolding parse_with_prefixes try_prefix longest_first first_some parse_permission_string best_role
    consider conclude has_suffix trim_suffix trim_prefix cut_prefix cut_suffix
prefixes_longest = refl

parse_with_prefixes_iff_example :
    (parse_with_prefixes "MT-K8S-DEV-a-admin" ("MT-K8S" ∷ "MT-K8S-DEV" ∷ []) roles
      ≡ ok (record { namespace = "a"; role = "admin"; prefix = "MT-K8S-DEV" }))
    ↔ IsChosen "MT-K8S-DEV-a-admin"
        ("MT-K8S" ∷ "MT-K8S-DEV" ∷ [])
        roles
        (record { namespace = "a"; role = "admin"; prefix = "MT-K8S-DEV" })
parse_with_prefixes_iff_example =
    parse_with_prefixes_iff "MT-K8S-DEV-a-admin" ("MT-K8S" ∷ "MT-K8S-DEV" ∷ []) roles
      (record { namespace = "a"; role = "admin"; prefix = "MT-K8S-DEV" })

legacy_role : extract_role "project-edit" ≡ "edit"
unfolding extract_role split
legacy_role = refl

extract-parse_example :
    extract_role_with_mapping ("project-123" <> "-" <> "read-only") roles ≡ "read-only"
extract-parse_example =
    extract-parse "COMPANY-K8S-project-123-read-only" "COMPANY-K8S" roles parse_read_only

abbrev info : LdapGroupInfo
info = record {
  group_name = "K8S-a-admin ";
  path = "OU=Cloud,DC=example";
  full_dn = "CN=K8S-a-admin ,OU=Cloud,DC=example";
}

parse_cn_run : parse_cn "CN=K8S-a-admin ,OU=Cloud,DC=example" ≡ ok info
unfolding parse_cn cut_prefix cut contains
parse_cn_run = refl

extract_cn_run : extract_cn_from_dn "CN=K8S-a-admin ,OU=Cloud" ≡ ok "K8S-a-admin"
unfolding extract_cn_from_dn cut_prefix cut trim_space
extract_cn_run = refl
