-- ===== src/NetworkPolicy/Removed.antt =====
-- Namespaces that are not whitelisted any more: `ProcessRemovedNamespaces`
-- (operator/internal/controller/networkpolicy/reconciliation_cleanup.go).
pub mod Laws
pub mod Frame
use permission_binder_operat.Prelude.{
  ℕ, String, Bool, true, false, not, ◌||◌, Option, none, some, List, [], ◌∷◌, Result, ok, err,
  if◌then◌else◌, ◌==◌,
}
use permission_binder_operat.GoString.{◌<>◌}
use permission_binder_operat.GoPath.{join, dir, rel}
use permission_binder_operat.Whitelist.{contains_string}
use permission_binder_operat.NetworkPolicy.Status.{Entry}
use permission_binder_operat.NetworkPolicy.Disk.{list_files}
use permission_binder_operat.NetworkPolicy.Kustomization.{update_kustomization_resources}
use permission_binder_operat.NetworkPolicy.Provider.{detect_git_provider, generate_branch_name}
use permission_binder_operat.NetworkPolicy.Sources.{Credentials, get_git_credentials}
use permission_binder_operat.NetworkPolicy.Git.{Pull, NewPull, Site, tls_verify_of, site_of}
use permission_binder_operat.NetworkPolicy.Single.{
  Network, NetState, NetError, no_credentials, at, Answer, kustomization_path, or_empty, record_pr,
  noted,
}

-- `removedNamespaces`
unfoldable pub removed_namespaces : List String → List Entry → List String
removed_namespaces current [] = []
removed_namespaces current (entry ∷ rest) =
    let others = removed_namespaces current rest in
    if contains_string entry.namespace current || entry.state == "removed"
    then others
    else entry.namespace ∷ others

-- What becomes of one namespace: its state, and the clones that are left behind to the end of the call.
pub record Left (W : Type 0) : Type 0 where
  pub state : NetState W
  pub clones : List String

module _ {W : Type 0} (env : Network W) where
  abbrev cluster : String
  cluster = env.spec.git_repository.cluster_name

  abbrev tls : Bool
  tls = tls_verify_of env.spec.git_repository.git_tls_verify

  abbrev directory : String → String
  directory namespace = join ("networkpolicies" ∷ cluster ∷ namespace ∷ [])

  -- A file is deleted and its entry is taken out of the kustomization; errors are only logged.
  pub remove_file : String → String → String → W → W
  remove_file repo namespace file w =
      let path = join (directory namespace ∷ file ∷ []) in
      let gone = (env.disk.remove (join (repo ∷ path ∷ [])) w).1 in
      (update_kustomization_resources env.disk env.yaml repo (kustomization_path cluster)
        (or_empty (rel (dir (kustomization_path cluster)) path)) false gone).1

  pub remove_files : String → String → List String → W → W
  remove_files repo namespace [] w = w
  remove_files repo namespace (file ∷ rest) w =
      remove_files repo namespace rest (remove_file repo namespace file w)

  removal_pull : String → String → NewPull
  removal_pull branch namespace = record {
    branch = branch;
    base_branch = env.spec.git_repository.base_branch;
    title = "NetworkPolicy: Remove namespace " <> namespace;
    description =
        "Cluster: " <> cluster <> "\nNamespace: " <> namespace
        <> " (removed from whitelist)\nVariant: removal\nOperator: permission-binder-operator";
    labels = [];
  }

  abbrev keep_going : NetState W → String → Left W
  keep_going s repo = record { state = s; clones = repo ∷ [] }

  -- The pull request is noted in the status; where it cannot be made, the clone is removed at once.
  requested : String → String → String → NetState W → Result String Pull × W → Left W
  requested repo branch namespace s (err text, w) =
      keep_going (at s (env.disk.remove_all repo w)) repo
  requested repo branch namespace s (ok pr, w) =
      keep_going (record_pr env namespace "pr-removal" (noted env pr branch) (at s w)) repo

  on_provider : Credentials → String → String → String → NetState W → Option String → Left W
  on_provider credentials repo branch namespace s none = keep_going s repo
  on_provider credentials repo branch namespace s (some provider) =
      requested repo branch namespace s (
        env.git.create_pr (site_of env.parse_url env.spec.git_repository credentials provider)
          (removal_pull branch namespace) s.world)

  committed : Credentials → String → String → String → NetState W → Bool × W → Left W
  committed credentials repo branch namespace s (false, w) = keep_going (at s w) repo
  committed credentials repo branch namespace s (true, w) =
      on_provider credentials repo branch namespace (at s w)
        (detect_git_provider env.spec.git_repository.url env.spec.git_repository.provider)

  branched : Credentials → String → String → String → List String → NetState W → Bool × W → Left W
  branched credentials repo branch namespace files s (false, w) = keep_going (at s w) repo
  branched credentials repo branch namespace files s (true, w) =
      committed credentials repo branch namespace s (
        env.git.commit_and_push repo branch ("NetworkPolicy: Remove namespace " <> namespace)
          credentials tls (remove_files repo namespace files w))

  listed : Credentials → String → String → NetState W → Option (List String) → Left W
  listed credentials repo namespace s none = keep_going s repo
  listed credentials repo namespace s (some files) =
      let branch = generate_branch_name cluster (namespace <> "-removal") in
      branched credentials repo branch namespace files s (env.git.checkout repo branch true s.world)

  checked_out : Credentials → String → String → NetState W → Bool × W → Left W
  checked_out credentials repo namespace s (false, w) = keep_going (at s w) repo
  checked_out credentials repo namespace s (true, w) =
      listed credentials repo namespace (at s w) (list_files env.disk repo (directory namespace) w)

  cloned : Credentials → String → NetState W → Option String × W → Left W
  cloned credentials namespace s (none, w) = record { state = at s w; clones = [] }
  cloned credentials namespace s (some repo, w) =
      checked_out credentials repo namespace s
        (env.git.checkout repo env.spec.git_repository.base_branch false w)

  -- One round of the loop: an error only ends the round.
  pub remove_namespace : Credentials → String → NetState W → Left W
  unfolding cloned checked_out listed branched committed on_provider requested removal_pull
  remove_namespace credentials namespace s =
      cloned credentials namespace s
        (env.git.clone env.spec.git_repository.url credentials tls s.world)

  remove_clones : List String → W → W
  remove_clones [] w = w
  remove_clones (repo ∷ rest) w = remove_clones rest (env.disk.remove_all repo w)

  -- The loop; the deferred removals of the clones run at the end, the last one first.
  pub remove_all : Credentials → List String → NetState W → NetState W
  remove_all credentials [] s = s
  remove_all credentials (namespace ∷ rest) s =
      let round = remove_namespace credentials namespace s in
      let after = remove_all credentials rest round.state in
      at after (remove_clones round.clones after.world)

  with_credentials : List String → NetState W → Option Credentials → Answer W
  with_credentials namespaces s none = (err no_credentials, s)
  with_credentials namespaces s (some credentials) = (ok tt, remove_all credentials namespaces s)

  some_removed : List String → NetState W → Answer W
  some_removed [] s = (ok tt, s)
  some_removed (namespace ∷ rest) s = with_credentials (namespace ∷ rest) s (
      get_git_credentials env.disk env.client env.codec
        (env.spec.git_repository.secret_namespace, env.spec.git_repository.secret_name) s.world)

  -- `ProcessRemovedNamespaces`
  unfoldable pub process_removed_namespaces : List String → NetState W → Answer W
  unfolding some_removed with_credentials remove_all remove_clones remove_namespace remove_files
      remove_file
  process_removed_namespaces current s = some_removed (removed_namespaces current s.entries) s
