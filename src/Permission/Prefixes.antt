-- ===== src/Permission/Prefixes.antt =====
-- `parsePermissionStringWithPrefixes` of operator/internal/controller/reconciliation_configmap.go.
pub mod Laws
use permission_binder_operat.Prelude.{String, Option, none, some, List, Result, ok, err}
use permission_binder_operat.GoMap.{GoMap}
use permission_binder_operat.Permission.Parse.{
  ParseError, no_matching_prefix, parse_permission_string,
}
use permission_binder_operat.Permission.LongestFirst.{longest_first, first_some}

-- What the parser returns: namespace, role and the prefix that matched.
pub record Parsed : Type 0 where
  pub namespace : String
  pub role : String
  pub prefix : String

abbrev pub accepted : String → Result ParseError (String × String) → Option Parsed
accepted prefix (ok (namespace, role)) =
    some (record { namespace = namespace; role = role; prefix = prefix })
accepted prefix (err e) = none

-- One round of the loop over the prefixes.
unfoldable pub try_prefix : String → GoMap String → String → Option Parsed
try_prefix permission role_mapping prefix =
    accepted prefix (parse_permission_string permission prefix role_mapping)

or_no_match : Option Parsed → Result ParseError Parsed
or_no_match none = err no_matching_prefix
or_no_match (some parsed) = ok parsed

unfoldable pub parse_with_prefixes : String → List String → GoMap String → Result ParseError Parsed
unfolding or_no_match
parse_with_prefixes permission prefixes role_mapping =
    or_no_match (first_some (try_prefix permission role_mapping) (longest_first prefixes))
