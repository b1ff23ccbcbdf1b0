-- ===== src/NetworkPolicy/Removed/Frame.antt =====
-- A part of the state that a removal does not change.
use permission_binder_operat.Prelude.{
  String, Bool, true, false, ◌≡◌, refl, ◌∙◌, Option, none, some, List, [], ◌∷◌, Result, ok, err,
}
use permission_binder_operat.GoString.{◌<>◌}
use permission_binder_operat.GoPath.{join, dir, rel}
use permission_binder_operat.NetworkPolicy.Disk.{list_files}
use permission_binder_operat.NetworkPolicy.Kustomization.Frame.{view-update_kustomization_resources}
use permission_binder_operat.NetworkPolicy.Provider.{detect_git_provider, generate_branch_name}
use permission_binder_operat.NetworkPolicy.Sources.{Credentials, get_git_credentials}
use permission_binder_operat.NetworkPolicy.Git.{Pull, tls_verify_of, site_of}
use permission_binder_operat.NetworkPolicy.Single.{
  Network, NetState, at, kustomization_path, or_empty, noted,
}
use permission_binder_operat.NetworkPolicy.Single.Blind.{Blind, view-record_pr}
use permission_binder_operat.NetworkPolicy.Removed.{
  removed_namespaces, directory, remove_file, remove_files, removal_pull, requested, on_provider,
  committed, branched, listed, checked_out, cloned, remove_namespace, remove_clones, remove_all,
  with_credentials, some_removed, process_removed_namespaces,
}

module _ {W V : Type 0} (view : W → V) (env : Network W) (blind : Blind view env) where
  view-remove_file :
      (repo namespace file : String) (w : W) → view (remove_file env repo namespace file w) ≡ view w
  unfolding remove_file
  view-remove_file repo namespace file w =
      let manifest = kustomization_path env.spec.git_repository.cluster_name in
      let path = join (directory env namespace ∷ file ∷ []) in
      let full = join (repo ∷ path ∷ []) in
      view-update_kustomization_resources view env.disk blind.disk env.yaml repo manifest
        (or_empty (rel (dir manifest) path)) false (env.disk.remove full w).1
      ∙ blind.disk.remove full w

  view-remove_files :
      (repo namespace : String) (files : List String) (w : W)
      → view (remove_files env repo namespace files w) ≡ view w
  unfolding remove_files
  view-remove_files repo namespace [] w = refl
  view-remove_files repo namespace (file ∷ rest) w =
      view-remove_files repo namespace rest (remove_file env repo namespace file w)
      ∙ view-remove_file repo namespace file w

  view-requested :
      (repo branch namespace : String) (s : NetState W) (r : Result String Pull × W)
      → view (requested env repo branch namespace s r).state.world ≡ view r.1
  unfolding requested
  view-requested repo branch namespace s (err text, w) = blind.disk.remove_all repo w
  view-requested repo branch namespace s (ok pr, w) =
      view-record_pr view env blind namespace "pr-removal" (noted env pr branch) (at s w)

  view-on_provider :
      (c : Credentials) (repo branch namespace : String) (s : NetState W) (o : Option String)
      → view (on_provider env c repo branch namespace s o).state.world ≡ view s.world
  unfolding on_provider
  view-on_provider c repo branch namespace s none = refl
  view-on_provider c repo branch namespace s (some provider) =
      let site = site_of env.parse_url env.spec.git_repository c provider in
      view-requested repo branch namespace s
        (env.git.create_pr site (removal_pull env branch namespace) s.world)
      ∙ blind.git.create_pr site (removal_pull env branch namespace) s.world

  view-committed :
      (c : Credentials) (repo branch namespace : String) (s : NetState W) (r : Bool × W)
      → view (committed env c repo branch namespace s r).state.world ≡ view r.1
  unfolding committed
  view-committed c repo branch namespace s (false, w) = refl
  view-committed c repo branch namespace s (true, w) =
      view-on_provider c repo branch namespace (at s w)
        (detect_git_provider env.spec.git_repository.url env.spec.git_repository.provider)

  view-branched :
      (c : Credentials) (repo branch namespace : String) (files : List String) (s : NetState W)
      (r : Bool × W)
      → view (branched env c repo branch namespace files s r).state.world ≡ view r.1
  unfolding branched
  view-branched c repo branch namespace files s (false, w) = refl
  view-branched c repo branch namespace files s (true, w) =
      let message = "NetworkPolicy: Remove namespace " <> namespace in
      let tls = tls_verify_of env.spec.git_repository.git_tls_verify in
      let v = remove_files env repo namespace files w in
      view-committed c repo branch namespace s (env.git.commit_and_push repo branch message c tls v)
      ∙ blind.git.commit_and_push repo branch message c tls v
      ∙ view-remove_files repo namespace files w

  view-listed :
      (c : Credentials) (repo namespace : String) (s : NetState W) (o : Option (List String))
      → view (listed env c repo namespace s o).state.world ≡ view s.world
  unfolding listed
  view-listed c repo namespace s none = refl
  view-listed c repo namespace s (some files) =
      let branch =
        generate_branch_name env.spec.git_repository.cluster_name (namespace <> "-removal") in
      view-branched c repo branch namespace files s (env.git.checkout repo branch true s.world)
      ∙ blind.git.checkout repo branch true s.world

  view-checked_out :
      (c : Credentials) (repo namespace : String) (s : NetState W) (r : Bool × W)
      → view (checked_out env c repo namespace s r).state.world ≡ view r.1
  unfolding checked_out
  view-checked_out c repo namespace s (false, w) = refl
  view-checked_out c repo namespace s (true, w) =
      view-listed c repo namespace (at s w) (list_files env.disk repo (directory env namespace) w)

  view-cloned :
      (c : Credentials) (namespace : String) (s : NetState W) (r : Option String × W)
      → view (cloned env c namespace s r).state.world ≡ view r.1
  unfolding cloned
  view-cloned c namespace s (none, w) = refl
  view-cloned c namespace s (some repo, w) =
      let base = env.spec.git_repository.base_branch in
      view-checked_out c repo namespace s (env.git.checkout repo base false w)
      ∙ blind.git.checkout repo base false w

  view-remove_namespace :
      (c : Credentials) (namespace : String) (s : NetState W)
      → view (remove_namespace env c namespace s).state.world ≡ view s.world
  unfolding remove_namespace
  view-remove_namespace c namespace s =
      let url = env.spec.git_repository.url in
      let tls = tls_verify_of env.spec.git_repository.git_tls_verify in
      view-cloned c namespace s (env.git.clone url c tls s.world)
      ∙ blind.git.clone url c tls s.world

  view-remove_clones : (clones : List String) (w : W) → view (remove_clones env clones w) ≡ view w
  unfolding remove_clones
  view-remove_clones [] w = refl
  view-remove_clones (repo ∷ rest) w =
      view-remove_clones rest (env.disk.remove_all repo w) ∙ blind.disk.remove_all repo w

  view-remove_all :
      (c : Credentials) (namespaces : List String) (s : NetState W)
      → view (remove_all env c namespaces s).world ≡ view s.world
  unfolding remove_all
  view-remove_all c [] s = refl
  view-remove_all c (namespace ∷ rest) s =
      let round = remove_namespace env c namespace s in
      view-remove_clones round.clones (remove_all env c rest round.state).world
      ∙ view-remove_all c rest round.state
      ∙ view-remove_namespace c namespace s

  view-with_credentials :
      (namespaces : List String) (s : NetState W) (o : Option Credentials)
      → view (with_credentials env namespaces s o).1.world ≡ view s.world
  unfolding with_credentials
  view-with_credentials namespaces s none = refl
  view-with_credentials namespaces s (some c) = view-remove_all c namespaces s

  view-some_removed :
      (namespaces : List String) (s : NetState W)
      → view (some_removed env namespaces s).1.world ≡ view s.world
  unfolding some_removed
  view-some_removed [] s = refl
  view-some_removed (namespace ∷ rest) s = view-with_credentials (namespace ∷ rest) s (
      get_git_credentials env.disk env.client env.codec
        (env.spec.git_repository.secret_namespace, env.spec.git_repository.secret_name) s.world)

  pub view-process_removed_namespaces :
      (current : List String) (s : NetState W)
      → view (process_removed_namespaces env current s).1.world ≡ view s.world
  unfolding process_removed_namespaces
  view-process_removed_namespaces current s =
      view-some_removed (removed_namespaces current s.entries) s
