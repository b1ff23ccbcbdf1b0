-- ===== src/Whitelist.antt =====
-- `processConfigMap` of operator/internal/controller/reconciliation_configmap.go: the loop over the
-- lines of `whitelist.txt`, and the ServiceAccounts of the namespaces that were processed.
pub mod Steps
pub mod Gate
pub mod Served
use permission_binder_operat.Prelude.{
  String, Bool, true, false, not, ◌||◌, ◌&&◌, ℕ, length, Option, none, some, List, [], ◌∷◌, ◌++◌,
  Result, ok, err, if◌then◌else◌, ◌==◌,
}
use permission_binder_operat.GoString.{◌<>◌, has_prefix, split, trim_space}
use permission_binder_operat.GoMap.{GoMap, value, lookup}
use permission_binder_operat.Ownership.{Owner}
use permission_binder_operat.Permission.Dn.{extract_cn_from_dn}
use permission_binder_operat.Permission.Parse.{ParseError}
use permission_binder_operat.Permission.Prefixes.{Parsed, parse_with_prefixes}
use permission_binder_operat.Cluster.{
  Client, System, count, Metric, entry_processed, managed_service_accounts, OpError,
}
use permission_binder_operat.Namespaces.{ensure_namespace}
use permission_binder_operat.RoleBindings.{Grant, create_role_binding}
use permission_binder_operat.ServiceAccounts.{Setting, process_service_accounts}
use permission_binder_operat.ServiceAccounts as accounts

-- The fields of a PermissionBinder that the loop reads.
pub record Spec : Type 0 where
  pub prefixes : List String
  pub role_mapping : GoMap String
  pub exclude_list : List String
  pub create_ldap_groups : Bool
  pub service_account_mapping : GoMap String
  pub naming_pattern : String

-- `isExcluded`, and `containsString` with its arguments the other way round.
unfoldable pub contains_string : String → List String → Bool
contains_string key [] = false
contains_string key (item ∷ rest) =
    let later = contains_string key rest in if key == item then true else later

-- What a line of the whitelist is.
pub data Line : Type 0 where
  skipped malformed excluded : Line
  entry : String → Parsed → Line

read_parsed : String → Result ParseError Parsed → Line
read_parsed cn (ok parsed) = entry cn parsed
read_parsed cn (err e) = malformed

-- A line that has been trimmed.
read_trimmed : Spec → String → Line
read_trimmed spec line =
    if line == "" || has_prefix line "#" then skipped else elim (extract_cn_from_dn line) [
      | err e ↦ malformed
      | ok cn ↦
          if contains_string cn spec.exclude_list
          then excluded
          else read_parsed cn (parse_with_prefixes cn spec.prefixes spec.role_mapping)
    ]

unfoldable pub read_line : Spec → String → Line
unfolding read_trimmed read_parsed
read_line spec line = read_trimmed spec (trim_space line)

-- The arguments that `createRoleBinding` is called with for an entry.
abbrev pub grant_of : Spec → String → Parsed → Grant
grant_of spec cn parsed = record {
  namespace = parsed.namespace;
  name = parsed.namespace <> "-" <> parsed.role;
  role = parsed.role;
  group = cn;
  cluster_role = value parsed.role spec.role_mapping;
}

-- How a role binding is reported.
abbrev pub reported : Grant → String
reported grant = grant.namespace <> "/" <> grant.name

-- The variables of the loop.
pub record Progress (W : Type 0) : Type 0 where
  pub system : System W
  pub processed : List String
  pub valid_entries : List String

-- `parts := strings.Split(rb, "/"); if len(parts) == 2 { namespaces[parts[0]] = true }`
pub add_namespace : List String → List String → List String
add_namespace [] seen = seen
add_namespace (part ∷ []) seen = seen
add_namespace (namespace ∷ name ∷ []) seen =
    if contains_string namespace seen then seen else seen ++ (namespace ∷ [])
add_namespace (a ∷ b ∷ c ∷ rest) seen = seen

pub namespaces_from : List String → List String → List String
namespaces_from [] seen = seen
namespaces_from (rb ∷ rest) seen = namespaces_from rest (add_namespace (split b'/' rb) seen)

-- The namespaces of the role bindings that were processed, each once.
unfoldable pub processed_namespaces : List String → List String
unfolding namespaces_from add_namespace
processed_namespaces processed = namespaces_from processed []

-- `ProcessConfigMapResult`, and the entries that are handed to the LDAP group creation.
pub record ConfigMapResult : Type 0 where
  pub processed_role_bindings : List String
  pub processed_service_accounts : List String
  pub ldap_entries : List String

module _ {W : Type 0} (client : Client W) (managed_by now : String) (owner : Owner)
    (spec : Spec) where
  abbrev advance : Progress W → System W → Progress W
  advance p s = record p { system = s }

  abbrev counted : Progress W → String → System W → Progress W
  counted p status s = advance p (count (entry_processed status) s)

  pub bound : Grant → Progress W → Result OpError Bool × System W → Progress W
  bound grant p (err e, s) = advance p s
  bound grant p (ok false, s) = counted p "ownership_conflict" s
  bound grant p (ok true, s) = record p {
    system = count (entry_processed "success") s;
    processed = p.processed ++ (reported grant ∷ []);
  }

  -- The role binding is only written if the namespace was ensured.
  pub ensured : Grant → Progress W → Result OpError (Unit {0}) × System W → Progress W
  ensured grant p (err e, s) = advance p s
  ensured grant p (ok _, s) =
      bound grant p (create_role_binding client managed_by now owner grant s)

  pub process_entry : String → Grant → Progress W → Progress W
  process_entry line grant p =
      ensured grant (record p { valid_entries = p.valid_entries ++ (line ∷ []) })
        (ensure_namespace client managed_by now owner grant.namespace p.system)

  pub process_read : String → Line → Progress W → Progress W
  process_read line skipped p = p
  process_read line malformed p = counted p "error" p.system
  process_read line excluded p = counted p "excluded" p.system
  process_read line (entry cn parsed) p = process_entry line (grant_of spec cn parsed) p

  -- One round of the loop.
  unfoldable pub process_line : String → Progress W → Progress W
  unfolding process_read process_entry ensured bound
  process_line line p = process_read (trim_space line) (read_line spec line) p

  unfoldable pub process_lines : List String → Progress W → Progress W
  process_lines [] p = p
  process_lines (line ∷ rest) p = process_lines rest (process_line line p)

  abbrev setting : String → Setting
  setting namespace = record {
    managed_by = managed_by;
    namespace = namespace;
    naming_pattern = spec.naming_pattern;
    owner = owner;
  }

  -- The accounts of a run with an error are not reported.
  pub kept_accounts : accounts.Outcome → List String
  kept_accounts out = elim out.error [ none ↦ out.processed | some e ↦ [] ]

  -- The loop over the namespaces.
  pub process_accounts : List String → System W → List String × System W
  process_accounts [] s = ([], s)
  process_accounts (namespace ∷ rest) s =
      let run =
        process_service_accounts client (setting namespace) spec.service_account_mapping s in
      let later = process_accounts rest run.1 in (kept_accounts run.0 ++ later.0, later.1)

  -- The ServiceAccounts, if a mapping is configured.
  pub accounts_step : GoMap String → Progress W → List String × System W
  accounts_step [] p = ([], p.system)
  accounts_step (_ ∷ _) p =
      let run = process_accounts (processed_namespaces p.processed) p.system in
      (run.0, count (managed_service_accounts (length run.0)) run.1)

  process_content : Option String → System W → ConfigMapResult × System W
  process_content none s = (
    record { processed_role_bindings = []; processed_service_accounts = []; ldap_entries = [] },
    s,
  )
  process_content (some content) s =
      let done =
        process_lines (split b'\n' content)
          (record { system = s; processed = []; valid_entries = [] }) in
      let sas = accounts_step spec.service_account_mapping done in
      (
        record {
          processed_role_bindings = done.processed;
          processed_service_accounts = sas.0;
          ldap_entries = if spec.create_ldap_groups then done.valid_entries else [];
        },
        sas.1,
      )

  -- `processConfigMap`, which never returns an error.
  unfoldable pub process_config_map : GoMap String → System W → ConfigMapResult × System W
  unfolding process_content accounts_step process_accounts kept_accounts
  process_config_map entries s = process_content (lookup "whitelist.txt" entries) s
