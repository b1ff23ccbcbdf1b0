-- ===== src/NetworkPolicy/Single/Frame.antt =====
-- A part of the state that neither the files, nor Git and its provider, nor the status writes change.
use permission_binder_operat.Prelude.{
  String, false, ◌≡◌, refl, ◌∙◌, Option, none, some, List, [], ◌∷◌, Bool-cases, inl, inr,
}
use permission_binder_operat.NetworkPolicy.Disk.{list_files}
use permission_binder_operat.NetworkPolicy.Policies.{Policy}
use permission_binder_operat.NetworkPolicy.Provider.{detect_git_provider}
use permission_binder_operat.NetworkPolicy.Sources.{Credentials, get_git_credentials}
use permission_binder_operat.NetworkPolicy.Git.{tls_verify_of, site_of}
use permission_binder_operat.NetworkPolicy.Plan.{NewFile, files_to_create}
use permission_binder_operat.NetworkPolicy.Single.{
  Network, NetState, checkout_failed, at, Answer, reset_to_remote, on_site, planned,
  policies_listed, templates_listed, checked_out, in_clone, remove_clone, cloned, with_credentials,
  process_network_policy_for_namespace,
}
use permission_binder_operat.NetworkPolicy.Single.Blind.{
  Blind, view-step, view-reset_to_remote, view-propose,
}

module _ {W V : Type 0} (view : W → V) (env : Network W) (blind : Blind view env)
    (namespace : String) where
  view-on_site :
      (c : Credentials) (repo : String) (files : List NewFile) (s : NetState W)
      (provider : Option String)
      → view (on_site env c repo namespace files s provider).1.world ≡ view s.world
  unfolding on_site
  view-on_site c repo files s none = refl
  view-on_site c repo files s (some provider) =
      view-propose view env blind namespace
        (site_of env.parse_url env.spec.git_repository c provider) repo files s

  view-planned :
      (c : Credentials) (repo : String) (files : List NewFile) (s : NetState W)
      → view (planned env c repo namespace files s).1.world ≡ view s.world
  unfolding planned
  view-planned c repo [] s = refl
  view-planned c repo (file ∷ rest) s =
      view-on_site c repo (file ∷ rest) s
        (detect_git_provider env.spec.git_repository.url env.spec.git_repository.provider)

  view-policies_listed :
      (c : Credentials) (repo : String) (templates : List String) (s : NetState W)
      (policies : Option (List Policy))
      → view (policies_listed env c repo namespace templates s policies).1.world ≡ view s.world
  unfolding policies_listed
  view-policies_listed c repo templates s none = refl
  view-policies_listed c repo templates s (some policies) =
      view-planned c repo
        (files_to_create env.disk env.client env.codec env.match env.spec repo namespace templates
          policies s.world)
        s

  view-templates_listed :
      (c : Credentials) (repo : String) (s : NetState W) (templates : Option (List String))
      → view (templates_listed env c repo namespace s templates).1.world ≡ view s.world
  unfolding templates_listed
  view-templates_listed c repo s none = refl
  view-templates_listed c repo s (some templates) =
      view-policies_listed c repo templates s (env.client.list namespace s.world)

  view-checked_out :
      (c : Credentials) (repo : String) (s : NetState W)
      → view (checked_out env c repo namespace s).1.world ≡ view s.world
  unfolding checked_out
  view-checked_out c repo s =
      let base = env.spec.git_repository.base_branch in
      let clean = at s (reset_to_remote env repo base s.world) in
      view-templates_listed c repo clean
        (list_files env.disk repo env.spec.template_dir clean.world)
      ∙ view-reset_to_remote view env blind repo base s.world

  view-in_clone :
      (c : Credentials) (repo : String) (s : NetState W)
      → view (in_clone env c repo namespace s).1.world ≡ view s.world
  unfolding in_clone
  view-in_clone c repo s =
      let base = env.spec.git_repository.base_branch in
      let tls = tls_verify_of env.spec.git_repository.git_tls_verify in
      let fetched = env.git.fetch repo base c tls s.world in
      elim (Bool-cases (env.git.open_repo repo s.world)) [
        | inr broken ↦ rw broken refl
        | inl opened ↦ rw opened (
            view-step view checkout_failed (checked_out env c repo namespace) (at s fetched)
              (env.git.checkout repo base false fetched) (view-checked_out c repo)
            ∙ blind.git.checkout repo base false fetched
            ∙ blind.git.fetch repo base c tls s.world)
      ]

  view-remove_clone :
      (repo : String) (a : Answer W) → view (remove_clone env repo a).1.world ≡ view a.1.world
  unfolding remove_clone
  view-remove_clone repo (r, s) = blind.disk.remove_all repo s.world

  view-cloned :
      (c : Credentials) (s : NetState W) (r : Option String × W)
      → view (cloned env c namespace s r).1.world ≡ view r.1
  unfolding cloned
  view-cloned c s (none, w) = refl
  view-cloned c s (some repo, w) =
      view-remove_clone repo (in_clone env c repo namespace (at s w))
      ∙ view-in_clone c repo (at s w)

  view-with_credentials :
      (s : NetState W) (o : Option Credentials)
      → view (with_credentials env namespace s o).1.world ≡ view s.world
  unfolding with_credentials
  view-with_credentials s none = refl
  view-with_credentials s (some c) =
      let url = env.spec.git_repository.url in
      let tls = tls_verify_of env.spec.git_repository.git_tls_verify in
      view-cloned c s (env.git.clone url c tls s.world) ∙ blind.git.clone url c tls s.world

  pub view-process_network_policy_for_namespace :
      (s : NetState W)
      → view (process_network_policy_for_namespace env namespace s).1.world ≡ view s.world
  unfolding process_network_policy_for_namespace
  view-process_network_policy_for_namespace s = view-with_credentials s (
      get_git_credentials env.disk env.client env.codec
        (env.spec.git_repository.secret_namespace, env.spec.git_repository.secret_name) s.world)
