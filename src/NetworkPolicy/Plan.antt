-- ===== src/NetworkPolicy/Plan.antt =====
-- Which files are written for a namespace: the middle of `ProcessNetworkPolicyForNamespace`
-- (operator/internal/controller/networkpolicy/reconciliation_single.go).
pub mod Planned
pub mod Laws
use permission_binder_operat.Prelude.{
  String, Bool, true, false, not, ◌&&◌, Option, none, some, List, [], ◌∷◌, ◌++◌, Result, ok, err,
  if◌then◌else◌, ◌==◌, is_some,
}
use permission_binder_operat.GoString.{◌<>◌, trim_suffix}
use permission_binder_operat.NetworkPolicy.Disk.{Disk, file_exists}
use permission_binder_operat.NetworkPolicy.Policies.{NetworkSpec, Policy, PolicyClient, PolicyCodec}
use permission_binder_operat.NetworkPolicy.Provider.{
  Match, get_network_policy_name, get_network_policy_file_path, is_policy_from_template,
  should_backup_existing_policy,
}
use permission_binder_operat.NetworkPolicy.Sources.{
  SourceError, process_template, backup_network_policy,
}

-- A file to create; the policy that the source keeps beside it is not read.
pub record NewFile : Type 0 where
  pub path : String
  pub content : String
  pub is_backup : Bool

-- A policy of the cluster has the name.
pub has_policy : String → List Policy → Bool
has_policy name [] = false
has_policy name (policy ∷ rest) =
    let later = has_policy name rest in if policy.name == name then true else later

pub from_any_template : String → String → List String → Bool
from_any_template name namespace [] = false
from_any_template name namespace (template ∷ rest) =
    let later = from_any_template name namespace rest in
    if is_policy_from_template name namespace template then true else later

module _ {W : Type 0} (disk : Disk W) (client : PolicyClient W) (codec : PolicyCodec)
    (match : Match) (spec : NetworkSpec) where
  abbrev pub may_back_up : String → Bool
  may_back_up namespace =
      spec.backup_existing
      && should_backup_existing_policy match namespace spec.backup_existing
          spec.exclude_backup_for_namespaces

  abbrev pub path_of : String → String → String
  path_of namespace file =
      get_network_policy_file_path spec.git_repository.cluster_name namespace file

  abbrev pub template_file_name : String → String → String
  template_file_name namespace template =
      namespace <> "-" <> trim_suffix template ".yaml" <> ".yaml"

  pub backup_file : String → Result SourceError String → Option NewFile
  backup_file path (err e) = none
  backup_file path (ok content) = some (record { path = path; content = content; is_backup = true })

  -- A processed template is taken if it can be parsed again.
  pub new_file : String → Result SourceError String → Option NewFile
  new_file path (err e) = none
  new_file path (ok content) =
      if is_some (codec.parse content)
      then some (record { path = path; content = content; is_backup = false })
      else none

  -- The body of the loop over the templates.
  pub template_file : String → String → List Policy → String → W → Option NewFile
  template_file repo namespace policies template w =
      let path = path_of namespace (template_file_name namespace template) in
      let name = get_network_policy_name namespace template in
      if file_exists disk repo path w
      then none
      else if not (has_policy name policies)
      then new_file path
          (process_template disk client codec repo spec.template_dir template namespace w)
      else if may_back_up namespace
      then backup_file path (backup_network_policy disk client codec namespace name w)
      else none

  -- The body of the loop over the policies of the cluster.
  pub other_file : String → String → List String → Policy → W → Option NewFile
  other_file repo namespace templates policy w =
      let path = path_of namespace (policy.name <> ".yaml") in
      if from_any_template policy.name namespace templates
      then none
      else if file_exists disk repo path w
      then none
      else backup_file path (backup_network_policy disk client codec namespace policy.name w)

  abbrev pub with_file : Option NewFile → List NewFile → List NewFile
  with_file none files = files
  with_file (some file) files = file ∷ files

  pub template_files : String → String → List Policy → List String → W → List NewFile
  template_files repo namespace policies [] w = []
  template_files repo namespace policies (template ∷ rest) w =
      with_file (template_file repo namespace policies template w)
        (template_files repo namespace policies rest w)

  pub other_files : String → String → List String → List Policy → W → List NewFile
  other_files repo namespace templates [] w = []
  other_files repo namespace templates (policy ∷ rest) w =
      with_file (other_file repo namespace templates policy w)
        (other_files repo namespace templates rest w)

  -- `filesToCreate`
  unfoldable pub files_to_create : String → String → List String → List Policy → W → List NewFile
  unfolding template_files other_files template_file other_file new_file backup_file has_policy
      from_any_template
  files_to_create repo namespace templates policies w =
      template_files repo namespace policies templates w
      ++ (if may_back_up namespace then other_files repo namespace templates policies w else [])
