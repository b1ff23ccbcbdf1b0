-- ===== src/NetworkPolicy/Sources.antt =====
-- Where the content of a file comes from: a template, or a policy of the cluster
-- (operator/internal/controller/networkpolicy/network_policy_template_simple.go,
-- network_policy_backup_simple.go), and the credentials for Git (git_credentials.go).
use permission_binder_operat.Prelude.{
  String, Option, none, some, [], ◌∷◌, Result, ok, err, if◌then◌else◌, ◌==◌,
}
use permission_binder_operat.GoString.{◌<>◌}
use permission_binder_operat.GoMap.{GoMap, lookup, insert, value}
use permission_binder_operat.GoPath.{join}
use permission_binder_operat.Ownership.{NilMap}
use permission_binder_operat.Cluster.{Fetch, found, not_found, failed}
use permission_binder_operat.NetworkPolicy.Disk.{Disk, read_file}
use permission_binder_operat.NetworkPolicy.Json.{Fields}
use permission_binder_operat.NetworkPolicy.Clean.{clean_json_for_git_ops}
use permission_binder_operat.NetworkPolicy.Policies.{Policy, PolicyClient, PolicyCodec}
use permission_binder_operat.NetworkPolicy.Provider.{get_network_policy_name}

-- gitCredentials
pub record Credentials : Type 0 where
  pub token : String
  pub username : String
  pub email : String

or_default : String → String → String
or_default default text = if text == "" then default else text

credentials_from : GoMap String → Option String → Option Credentials
credentials_from entries none = none
credentials_from entries (some token) = some (record {
  token = token;
  username = or_default "permission-binder-operator" (value "username" entries);
  email = or_default "permission-binder-operator@example.com" (value "email" entries);
})

-- What `getGitCredentials` makes of the Secret.
pub read_credentials : Fetch (GoMap String) → Option Credentials
read_credentials (found entries) = credentials_from entries (lookup "token" entries)
read_credentials not_found = none
read_credentials failed = none

abbrev pub annotation_template : String
annotation_template = "network-policy.permission-binder.io/template"

abbrev pub annotation_template_path : String
annotation_template_path = "network-policy.permission-binder.io/template-path"

abbrev pub annotation_template_version : String
annotation_template_version = "network-policy.permission-binder.io/template-version"

or_no_annotations : NilMap → GoMap String
or_no_annotations none = []
or_no_annotations (some annotations) = annotations

-- The policy for a namespace.
pub instantiate : String → String → String → Policy → Policy
instantiate template_dir template namespace policy = record policy {
  namespace = namespace;
  name = get_network_policy_name namespace template;
  annotations = some (
      insert annotation_template_version "HEAD" (
        insert annotation_template_path (join (template_dir ∷ template ∷ []))
          (insert annotation_template template (or_no_annotations policy.annotations))));
}

-- The copy that validates the template itself.
pub dry_run_copy : String → Policy → Policy
dry_run_copy template policy = record policy {
  namespace = "default";
  name = "dry-run-" <> template <> "-0";
}

pub data SourceError : Type 0 where
  unreadable unparsable template_refused policy_refused missing undecodable unprintable :
      SourceError

printed : Option String → Result SourceError String
printed none = err unprintable
printed (some content) = ok content

cleaned : PolicyCodec → Option Fields → Result SourceError String
cleaned codec none = err undecodable
cleaned codec (some obj) = printed (codec.to_yaml (clean_json_for_git_ops obj))

-- The steps behind the last read of the policy: JSON, cleaning, YAML.
pub export : PolicyCodec → Policy → Result SourceError String
export codec policy = cleaned codec (codec.decode policy)

module _ {W : Type 0} (disk : Disk W) (client : PolicyClient W) (codec : PolicyCodec) where
  -- `getGitCredentials`
  unfoldable pub get_git_credentials : String × String → W → Option Credentials
  unfolding read_credentials credentials_from or_default
  get_git_credentials key w = read_credentials (client.secret key w)

  validated : Option Policy → Result SourceError String
  validated none = err policy_refused
  validated (some stored) = export codec stored

  instantiated : String → String → String → Policy → Option Policy → W → Result SourceError String
  instantiated template_dir template namespace policy none w = err template_refused
  instantiated template_dir template namespace policy (some copy) w =
      validated (client.dry_run (instantiate template_dir template namespace policy) w)

  parsed : String → String → String → Option Policy → W → Result SourceError String
  parsed template_dir template namespace none w = err unparsable
  parsed template_dir template namespace (some policy) w =
      instantiated template_dir template namespace policy
        (client.dry_run (dry_run_copy template policy) w) w

  template_read : String → String → String → Option String → W → Result SourceError String
  template_read template_dir template namespace none w = err unreadable
  template_read template_dir template namespace (some content) w =
      parsed template_dir template namespace (codec.parse content) w

  -- `processTemplate`
  unfoldable pub process_template :
      String → String → String → String → W → Result SourceError String
  unfolding template_read parsed instantiated validated export cleaned printed instantiate
      or_no_annotations dry_run_copy
  process_template repo template_dir template namespace w =
      template_read template_dir template namespace
        (read_file disk repo (join (template_dir ∷ template ∷ [])) w) w

  backed_up : Fetch Policy → Result SourceError String
  backed_up (found policy) = export codec policy
  backed_up not_found = err missing
  backed_up failed = err missing

  -- `backupNetworkPolicy`
  unfoldable pub backup_network_policy : String → String → W → Result SourceError String
  unfolding backed_up export cleaned printed
  backup_network_policy namespace name w = backed_up (client.get (namespace, name) w)
