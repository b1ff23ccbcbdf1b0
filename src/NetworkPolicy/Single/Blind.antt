-- ===== src/NetworkPolicy/Single/Blind.antt =====
-- A part of the state that the writes of the workflow of a namespace leave alone.
use permission_binder_operat.Prelude.{
  ℕ, String, Bool, true, false, ◌≡◌, refl, ◌∙◌, List, [], ◌∷◌, Result, ok, err, Bool-cases,
  Option-cases, inl, inr,
}
use permission_binder_operat.GoPath.{dir, rel}
use permission_binder_operat.NetworkPolicy.Status.{
  Entry, PullRequest, StatusError, update_network_policy_status_with_pr,
}
use permission_binder_operat.NetworkPolicy.Status.Frame.{
  StatusBlind, view-update_network_policy_status_with_pr,
}
use permission_binder_operat.NetworkPolicy.Disk.{write_file}
use permission_binder_operat.NetworkPolicy.Disk.Frame.{DiskBlind, view-write_file}
use permission_binder_operat.NetworkPolicy.Kustomization.{FileError, ensure_kustomization_exists}
use permission_binder_operat.NetworkPolicy.Kustomization.Frame.{
  view-ensure_kustomization_exists, view-update_kustomization_resources,
}
use permission_binder_operat.NetworkPolicy.Provider.{generate_branch_name, handle_rate_limit_error}
use permission_binder_operat.NetworkPolicy.Sources.{Credentials}
use permission_binder_operat.NetworkPolicy.Git.{Git, Pull, Site, NewPull, tls_verify_of}
use permission_binder_operat.NetworkPolicy.Plan.{NewFile}
use permission_binder_operat.NetworkPolicy.Single.{
  Network, NetState, NetError, push_failed, write_failed, kustomization_failed, branch_failed, at,
  Answer, step, is_open, write_rest, record_entries, ensured, or_empty, kustomization_path,
  reset_to_remote, add_resource, write_files, pr_state, record_pr, noted, merge, auto_merge,
  proposed, title, new_pull, pushed, written, branched, propose,
}

pub record GitBlind {W V : Type 0} (view : W → V) (git : Git W) : Type 0 where
  pub clone :
      (url : String) (c : Credentials) (tls : Bool) (w : W)
      → view (git.clone url c tls w).1 ≡ view w
  pub fetch :
      (repo base : String) (c : Credentials) (tls : Bool) (w : W)
      → view (git.fetch repo base c tls w) ≡ view w
  pub checkout :
      (repo branch : String) (create : Bool) (w : W)
      → view (git.checkout repo branch create w).1 ≡ view w
  pub reset : (repo hash : String) (w : W) → view (git.reset repo hash w) ≡ view w
  pub commit_and_push :
      (repo branch message : String) (c : Credentials) (tls : Bool) (w : W)
      → view (git.commit_and_push repo branch message c tls w).1 ≡ view w
  pub create_pr : (site : Site) (new : NewPull) (w : W) → view (git.create_pr site new w).1 ≡ view w
  pub merge_pr : (site : Site) (number : ℕ) (w : W) → view (git.merge_pr site number w).1 ≡ view w
  pub delete_branch :
      (site : Site) (branch : String) (w : W) → view (git.delete_branch site branch w) ≡ view w

pub record Blind {W V : Type 0} (view : W → V) (env : Network W) : Type 0 where
  pub disk : DiskBlind view env.disk
  pub git : GitBlind view env.git
  pub status : StatusBlind view env.status

module _ {W V : Type 0} (view : W → V) where
  -- A step that leaves the part alone, before one that does.
  pub view-step :
      (e : NetError) (next : NetState W → Answer W) (s : NetState W) (r : Bool × W)
      → ((t : NetState W) → view (next t).1.world ≡ view t.world)
      → view (step e next s r).1.world ≡ view r.1
  unfolding step
  view-step e next s (true, w) h = h (at s w)
  view-step e next s (false, w) h = refl

  view-write_rest :
      (next : W → Bool × W) (r : Bool × W)
      → ((w : W) → view (next w).1 ≡ view w)
      → view (write_rest next r).1 ≡ view r.1
  unfolding write_rest
  view-write_rest next (true, w) h = h w
  view-write_rest next (false, w) h = refl

  view-record_entries :
      (s : NetState W) (r : Result StatusError (List Entry) × W)
      → view (record_entries s r).world ≡ view r.1
  unfolding record_entries
  view-record_entries s (ok entries, w) = refl
  view-record_entries s (err e, w) = refl

  view-ensured : (r : Result FileError (Unit {0}) × W) → view (ensured r).1 ≡ view r.1
  unfolding ensured
  view-ensured (ok _, w) = refl
  view-ensured (err e, w) = refl

  module _ (env : Network W) (blind : Blind view env) where
    pub view-reset_to_remote :
        (repo branch : String) (w : W) → view (reset_to_remote env repo branch w) ≡ view w
    unfolding reset_to_remote
    view-reset_to_remote repo branch w = elim (Option-cases (env.git.remote_head repo branch w)) [
      | inl none' ↦ rw (none', reset_to_remote) refl
      | inr (hash, e) ↦ rw (e, reset_to_remote) (blind.git.reset repo hash w)
    ]

    view-write_files :
        (repo : String) (files : List NewFile) (w : W)
        → view (write_files env repo files w).1 ≡ view w
    unfolding write_files add_resource
    view-write_files repo [] w = refl
    view-write_files repo (file ∷ rest) w =
        let manifest = kustomization_path env.spec.git_repository.cluster_name in
        view-write_rest (λ v. write_files env repo rest (add_resource env repo file.path v))
          (write_file env.disk repo file.path file.content w)
          (λ v.
            view-write_files repo rest (add_resource env repo file.path v)
            ∙ view-update_kustomization_resources view env.disk blind.disk env.yaml repo manifest
                (or_empty (rel (dir manifest) file.path)) true v)
        ∙ view-write_file view env.disk blind.disk repo file.path file.content w

    pub view-record_pr :
        (namespace state : String) (pr : PullRequest) (s : NetState W)
        → view (record_pr env namespace state pr s).world ≡ view s.world
    unfolding record_pr
    view-record_pr namespace state pr s =
        view-record_entries s
          (update_network_policy_status_with_pr env.status env.now namespace state pr s.world)
        ∙ view-update_network_policy_status_with_pr view env.status blind.status env.now namespace
            state pr s.world

    module _ (namespace : String) where
      view-merge :
          (site : Site) (files : List NewFile) (pr : Pull) (w : W)
          → view (merge env site files pr w) ≡ view w
      unfolding merge
      view-merge site files pr w = elim (Bool-cases (auto_merge env files)) [
        | inl yes' ↦ rw yes' (blind.git.merge_pr site pr.number w)
        | inr no' ↦ rw no' refl
      ]

      view-proposed :
          (site : Site) (branch : String) (files : List NewFile) (s : NetState W)
          (r : Result String Pull × W)
          → view (proposed env site branch namespace files s r).1.world ≡ view r.1
      unfolding proposed
      view-proposed site branch files s (err text, w) =
          elim (Bool-cases (handle_rate_limit_error text)) [
            | inl limited ↦ rw limited refl
            | inr other ↦ rw other refl
          ]
      view-proposed site branch files s (ok pr, w) =
          view-record_pr namespace (pr_state env site branch files (merge env site files pr w))
            (noted env pr branch) (at s (merge env site files pr w))
          ∙ view-merge site files pr w

      view-written :
          (site : Site) (branch repo : String) (files : List NewFile) (s : NetState W)
          → view (written env site branch repo namespace files s).1.world ≡ view s.world
      unfolding written pushed
      view-written site branch repo files s =
          let tls = tls_verify_of env.spec.git_repository.git_tls_verify in
          view-step push_failed (pushed env site branch namespace files) s
            (env.git.commit_and_push repo branch (title env namespace files) site.credentials tls
              s.world)
            (λ t.
              view-proposed site branch files t
                (env.git.create_pr site (new_pull env branch namespace files) t.world)
              ∙ blind.git.create_pr site (new_pull env branch namespace files) t.world)
          ∙ blind.git.commit_and_push repo branch (title env namespace files) site.credentials tls
              s.world

      view-branched :
          (site : Site) (branch repo : String) (files : List NewFile) (s : NetState W)
          → view (branched env site branch repo namespace files s).1.world ≡ view s.world
      unfolding branched
      view-branched site branch repo files s =
          let manifest = kustomization_path env.spec.git_repository.cluster_name in
          let ready = ensure_kustomization_exists env.disk env.yaml repo manifest s.world in
          view-step kustomization_failed
            (λ t.
              step write_failed (written env site branch repo namespace files) t
                (write_files env repo files t.world))
            s (ensured ready)
            (λ t.
              view-step write_failed (written env site branch repo namespace files) t
                (write_files env repo files t.world) (view-written site branch repo files)
              ∙ view-write_files repo files t.world)
          ∙ view-ensured ready
          ∙ view-ensure_kustomization_exists view env.disk blind.disk env.yaml repo manifest s.world

      pub view-propose :
          (site : Site) (repo : String) (files : List NewFile) (s : NetState W)
          → view (propose env site repo namespace files s).1.world ≡ view s.world
      unfolding propose
      view-propose site repo files s =
          let branch = generate_branch_name env.spec.git_repository.cluster_name namespace in
          let gone = env.git.delete_branch site branch s.world in
          elim (Bool-cases (is_open (env.git.pr_by_branch site branch s.world))) [
            | inl opened ↦ rw opened refl
            | inr closed ↦ rw closed (
                view-step branch_failed (branched env site branch repo namespace files) (at s gone)
                  (env.git.checkout repo branch true gone) (view-branched site branch repo files)
                ∙ blind.git.checkout repo branch true gone
                ∙ blind.git.delete_branch site branch s.world)
          ]
