-- ===== src/NetworkPolicy/Single.antt =====
-- The workflow for one namespace: `ProcessNetworkPolicyForNamespace`
-- (operator/internal/controller/networkpolicy/reconciliation_single.go).
pub mod Merge
pub mod Blind
pub mod Frame
pub mod Files
pub mod Stored
pub mod Outcome
use permission_binder_operat.Prelude.{
  ℕ, String, Bool, true, false, not, ◌&&◌, Option, none, some, List, [], ◌∷◌, Result, ok, err,
  if◌then◌else◌, ◌==◌,
}
use permission_binder_operat.GoString.{◌<>◌}
use permission_binder_operat.GoPath.{join, dir, rel}
use permission_binder_operat.NetworkPolicy.Status.{
  Entry, PullRequest, StatusClient, StatusError, update_network_policy_status_with_pr,
}
use permission_binder_operat.NetworkPolicy.Disk.{Disk, write_file, list_files}
use permission_binder_operat.NetworkPolicy.Kustomization.{
  KustomizationYaml, FileError, ensure_kustomization_exists, update_kustomization_resources,
}
use permission_binder_operat.NetworkPolicy.Policies.{
  NetworkSpec, AutoMerge, Policy, PolicyClient, PolicyCodec,
}
use permission_binder_operat.NetworkPolicy.Provider.{
  Match, Parse, detect_git_provider, generate_branch_name, handle_rate_limit_error,
}
use permission_binder_operat.NetworkPolicy.Sources.{Credentials, get_git_credentials}
use permission_binder_operat.NetworkPolicy.Git.{Git, Pull, Site, NewPull, tls_verify_of, site_of}
use permission_binder_operat.NetworkPolicy.Plan.{NewFile, files_to_create}

-- What the NetworkPolicy part is run with. The settings are those at the start of a run, also where a
-- write of the status fetches the PermissionBinder anew.
pub record Network (W : Type 0) : Type 0 where
  pub disk : Disk W
  pub git : Git W
  pub client : PolicyClient W
  pub status : StatusClient W
  pub codec : PolicyCodec
  pub yaml : KustomizationYaml
  pub match : Match
  pub parse_url : Parse
  pub now : String
  pub spec : NetworkSpec

-- The counters, with the labels cluster, namespace and variant.
pub data NetMetric : Type 0 where
  multiple_binders : NetMetric
  pr_created rate_limited : String → String → String → NetMetric

-- The state of a run: the world, the status entries of the object in memory and the time of its last
-- periodic reconciliation, and the increments, the latest first.
pub record NetState (W : Type 0) : Type 0 where
  pub world : W
  pub entries : List Entry
  pub last_run : Option ℕ
  pub metrics : List NetMetric

-- The errors that are returned.
pub data NetError : Type 0 where
  no_credentials clone_failed open_failed checkout_failed list_failed provider_unknown branch_failed
        kustomization_failed write_failed push_failed pr_failed :
      NetError

abbrev pub at : {W : Type 0} → NetState W → W → NetState W
at s w = record s { world = w }

abbrev pub Answer : Type 0 → Type 0
Answer W = Result NetError (Unit {0}) × NetState W

-- A call whose error is returned.
unfoldable pub step :
    {W : Type 0} → NetError → (NetState W → Answer W) → NetState W → Bool × W → Answer W
step e next s (true, w) = next (at s w)
step e next s (false, w) = (err e, at s w)

abbrev pub is_open : Option Pull → Bool
is_open none = false
is_open (some pr) = pr.state == "OPEN"

abbrev pub is_merged : Option Pull → Bool
is_merged none = false
is_merged (some pr) = pr.state == "MERGED"

unfoldable pub has_backup : List NewFile → Bool
has_backup [] = false
has_backup (file ∷ rest) = let later = has_backup rest in if file.is_backup then true else later

unfoldable pub write_rest : {W : Type 0} → (W → Bool × W) → Bool × W → Bool × W
write_rest next (true, w) = next w
write_rest next (false, w) = (false, w)

unfoldable pub record_entries :
    {W : Type 0} → NetState W → Result StatusError (List Entry) × W → NetState W
record_entries s (ok entries, w) = record s { world = w; entries = entries }
record_entries s (err e, w) = at s w

abbrev pub count : {W : Type 0} → NetMetric → NetState W → NetState W
count m s = record s { metrics = m ∷ s.metrics }

unfoldable pub ensured : {W : Type 0} → Result FileError (Unit {0}) × W → Bool × W
ensured (ok _, w) = (true, w)
ensured (err e, w) = (false, w)

-- `AutoMerge != nil && AutoMerge.Enabled`
unfoldable pub merge_enabled : Option AutoMerge → Bool
merge_enabled none = false
merge_enabled (some setting) = setting.enabled

-- The label of the pull request, if it is merged automatically.
unfoldable pub labels_of : Bool → Option AutoMerge → List String
labels_of true (some setting) = setting.label ∷ []
labels_of _ _ = []

abbrev pub variant_of : List NewFile → String
variant_of files = if has_backup files then "backup" else "new"

abbrev pub or_empty : Option String → String
or_empty none = ""
or_empty (some path) = path

-- networkpolicies/<cluster>/kustomization.yaml
abbrev pub kustomization_path : String → String
kustomization_path cluster = join ("networkpolicies" ∷ cluster ∷ "kustomization.yaml" ∷ [])

module _ {W : Type 0} (env : Network W) where
  abbrev cluster : String
  cluster = env.spec.git_repository.cluster_name

  abbrev tls : Bool
  tls = tls_verify_of env.spec.git_repository.git_tls_verify

  -- `autoMerge`
  unfoldable pub auto_merge : List NewFile → Bool
  auto_merge files = if has_backup files then false else merge_enabled env.spec.auto_merge

  -- The hard reset to the remote branch; errors are ignored.
  pub reset_to_remote : String → String → W → W
  reset_to_remote repo branch w = elim (env.git.remote_head repo branch w) [
    | none ↦ w
    | some hash ↦ env.git.reset repo hash w
  ]

  -- The entry of the file in the kustomization; an error is only logged.
  unfoldable pub add_resource : String → String → W → W
  add_resource repo path w =
      (update_kustomization_resources env.disk env.yaml repo (kustomization_path cluster)
        (or_empty (rel (dir (kustomization_path cluster)) path)) true w).1

  -- The loop that writes the files; the first write that fails ends it.
  unfoldable pub write_files : String → List NewFile → W → Bool × W
  write_files repo [] w = (true, w)
  write_files repo (file ∷ rest) w =
      let next = write_files repo rest in
      write_rest (λ v. next (add_resource repo file.path v))
        (write_file env.disk repo file.path file.content w)

  -- The state that the status is given.
  unfoldable pub pr_state : Site → String → List NewFile → W → String
  pr_state site branch files w =
      if auto_merge files && is_merged (env.git.pr_by_branch site branch w)
      then "pr-merged"
      else "pr-pending"

  -- An error of the status update is only logged.
  unfoldable pub record_pr : String → String → PullRequest → NetState W → NetState W
  record_pr namespace state pr s =
      record_entries s
        (update_network_policy_status_with_pr env.status env.now namespace state pr s.world)

  abbrev pub noted : Pull → String → PullRequest
  noted pr branch = record { number = pr.number; branch = branch; url = pr.url }

  -- The automatic merge, whose error is only logged.
  unfoldable pub merge : Site → List NewFile → Pull → W → W
  merge site files pr w = if auto_merge files then (env.git.merge_pr site pr.number w).1 else w

  unfoldable pub proposed :
      Site → String → String → List NewFile → NetState W → Result String Pull × W → Answer W
  proposed site branch namespace files s (err text, w) = (
    err pr_failed,
    if handle_rate_limit_error text
        then count (rate_limited cluster namespace (variant_of files)) (at s w)
        else at s w,
  )
  proposed site branch namespace files s (ok pr, w) =
      let merged = merge site files pr w in
      (
        ok tt,
        count (pr_created cluster namespace (variant_of files)) (
            record_pr namespace (pr_state site branch files merged) (noted pr branch)
              (at s merged)),
      )

  unfoldable pub title : String → List NewFile → String
  title namespace files = "NetworkPolicy: " <> variant_of files <> " for namespace " <> namespace

  unfoldable pub description : String → List NewFile → String
  description namespace files =
      "Cluster: "
      <> cluster
      <> "\nNamespace: "
      <> namespace
      <> "\nVariant: "
      <> variant_of files
      <> "\nOperator: permission-binder-operator"

  unfoldable pub new_pull : String → String → List NewFile → NewPull
  new_pull branch namespace files = record {
    branch = branch;
    base_branch = env.spec.git_repository.base_branch;
    title = title namespace files;
    description = description namespace files;
    labels = labels_of (auto_merge files) env.spec.auto_merge;
  }

  unfoldable pub pushed : Site → String → String → List NewFile → NetState W → Answer W
  pushed site branch namespace files s =
      proposed site branch namespace files s
        (env.git.create_pr site (new_pull branch namespace files) s.world)

  unfoldable pub written : Site → String → String → String → List NewFile → NetState W → Answer W
  written site branch repo namespace files s =
      step push_failed (pushed site branch namespace files) s
        (env.git.commit_and_push repo branch (title namespace files) site.credentials tls s.world)

  unfoldable pub branched : Site → String → String → String → List NewFile → NetState W → Answer W
  branched site branch repo namespace files s =
      step kustomization_failed
        (λ t.
          step write_failed (written site branch repo namespace files) t
            (write_files repo files t.world))
        s
        (ensured
          (ensure_kustomization_exists env.disk env.yaml repo (kustomization_path cluster) s.world))

  -- From the look at the pull request of the branch on.
  unfoldable pub propose : Site → String → String → List NewFile → NetState W → Answer W
  propose site repo namespace files s =
      let branch = generate_branch_name cluster namespace in
      if is_open (env.git.pr_by_branch site branch s.world)
      then (ok tt, s)
      else (let gone = env.git.delete_branch site branch s.world in
          step branch_failed (branched site branch repo namespace files) (at s gone)
            (env.git.checkout repo branch true gone))

  on_site : Credentials → String → String → List NewFile → NetState W → Option String → Answer W
  on_site credentials repo namespace files s none = (err provider_unknown, s)
  on_site credentials repo namespace files s (some provider) =
      propose (site_of env.parse_url env.spec.git_repository credentials provider) repo namespace
        files s

  pub planned : Credentials → String → String → List NewFile → NetState W → Answer W
  planned credentials repo namespace [] s = (ok tt, s)
  planned credentials repo namespace (file ∷ rest) s =
      on_site credentials repo namespace (file ∷ rest) s
        (detect_git_provider env.spec.git_repository.url env.spec.git_repository.provider)

  policies_listed :
      Credentials → String → String → List String → NetState W → Option (List Policy) → Answer W
  policies_listed credentials repo namespace templates s none = (err list_failed, s)
  policies_listed credentials repo namespace templates s (some policies) =
      planned credentials repo namespace
        (files_to_create env.disk env.client env.codec env.match env.spec repo namespace templates
          policies s.world)
        s

  templates_listed : Credentials → String → String → NetState W → Option (List String) → Answer W
  templates_listed credentials repo namespace s none = (ok tt, s)
  templates_listed credentials repo namespace s (some templates) =
      policies_listed credentials repo namespace templates s (env.client.list namespace s.world)

  checked_out : Credentials → String → String → NetState W → Answer W
  checked_out credentials repo namespace s =
      let clean = at s (reset_to_remote repo env.spec.git_repository.base_branch s.world) in
      templates_listed credentials repo namespace clean
        (list_files env.disk repo env.spec.template_dir clean.world)

  pub in_clone : Credentials → String → String → NetState W → Answer W
  in_clone credentials repo namespace s =
      let base = env.spec.git_repository.base_branch in
      if not (env.git.open_repo repo s.world)
      then (err open_failed, s)
      else (let fetched = env.git.fetch repo base credentials tls s.world in
          step checkout_failed (checked_out credentials repo namespace) (at s fetched)
            (env.git.checkout repo base false fetched))

  -- The directory of the clone is removed at the end, whatever happened.
  remove_clone : String → Answer W → Answer W
  remove_clone repo (r, s) = (r, at s (env.disk.remove_all repo s.world))

  cloned : Credentials → String → NetState W → Option String × W → Answer W
  cloned credentials namespace s (none, w) = (err clone_failed, at s w)
  cloned credentials namespace s (some repo, w) =
      remove_clone repo (in_clone credentials repo namespace (at s w))

  with_credentials : String → NetState W → Option Credentials → Answer W
  with_credentials namespace s none = (err no_credentials, s)
  with_credentials namespace s (some credentials) =
      cloned credentials namespace s
        (env.git.clone env.spec.git_repository.url credentials tls s.world)

  -- `ProcessNetworkPolicyForNamespace`
  unfoldable pub process_network_policy_for_namespace : String → NetState W → Answer W
  unfolding with_credentials cloned remove_clone in_clone checked_out templates_listed
      policies_listed planned on_site propose branched ensured written pushed new_pull description
      title proposed merge record_pr record_entries pr_state write_files add_resource write_rest
      reset_to_remote auto_merge labels_of merge_enabled has_backup step
  process_network_policy_for_namespace namespace s = with_credentials namespace s (
      get_git_credentials env.disk env.client env.codec
        (env.spec.git_repository.secret_namespace, env.spec.git_repository.secret_name) s.world)
