-- ===== src/Permission/Parse.antt =====
-- `parsePermissionString` of operator/internal/controller/reconciliation_configmap.go.
pub mod Longest
pub mod Laws
use permission_binder_operat.Prelude.{
  ℕ, String, len, List, [], ◌∷◌, Result, ok, err, ◌==◌, ltb, if◌then◌else◌,
}
use permission_binder_operat.GoString.{◌<>◌, has_suffix, trim_suffix, trim_prefix}
use permission_binder_operat.GoMap.{GoMap, keys}

pub data ParseError : Type 0 where
  prefix_missing role_missing namespace_empty no_matching_prefix : ParseError

-- The loop's variables `matchedRole`, `namespace` and `maxRoleLength`.
pub record Best : Type 0 where
  pub role : String
  pub namespace : String
  pub longest : ℕ

abbrev pub start : Best
start = record { role = ""; namespace = ""; longest = 0 }

-- One round of `for role := range roleMapping`.
unfoldable pub consider : String → Best → String → Best
consider text best role =
    if has_suffix text ("-" <> role)
    then (if ltb best.longest (len role)
        then record { role = role; namespace = trim_suffix text ("-" <> role); longest = len role }
        else best)
    else best

unfoldable pub best_role : String → Best → List String → Best
best_role text best [] = best
best_role text best (role ∷ roles) = best_role text (consider text best role) roles

-- The two checks after the loop.
unfoldable pub conclude : Best → Result ParseError (String × String)
conclude best =
    if best.role == ""
    then err role_missing
    else if best.namespace == ""
    then err namespace_empty
    else ok (best.namespace, best.role)

unfoldable pub parse_permission_string :
    String → String → GoMap String → Result ParseError (String × String)
parse_permission_string permission prefix role_mapping =
    let without_prefix = trim_prefix permission (prefix <> "-") in
    if without_prefix == permission
    then err prefix_missing
    else conclude (best_role without_prefix start (keys role_mapping))
