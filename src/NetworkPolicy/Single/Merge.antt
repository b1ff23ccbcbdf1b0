-- ===== src/NetworkPolicy/Single/Merge.antt =====
-- When a pull request is merged, and when none is made.
use mathlib.Core.Path.{fun_ext}
use permission_binder_operat.Prelude.{
  ℕ, String, Bool, true, false, ◌≡◌, refl, ap, ◌∙◌, ◌⊎◌, List, [], ◌∷◌, Result, ok, err,
  if◌then◌else◌, arith,
}
use permission_binder_operat.NetworkPolicy.Disk.{write_file}
use permission_binder_operat.NetworkPolicy.Kustomization.{ensure_kustomization_exists}
use permission_binder_operat.NetworkPolicy.Provider.{generate_branch_name}
use permission_binder_operat.NetworkPolicy.Git.{Pull, Site, tls_verify_of}
use permission_binder_operat.NetworkPolicy.Plan.{NewFile}
use permission_binder_operat.NetworkPolicy.Single.{
  Network, NetState, push_failed, write_failed, kustomization_failed, branch_failed, at, step,
  is_open, kustomization_path, noted, variant_of, pr_created, record_pr, pr_state, count, new_pull,
  title, description, write_files, add_resource, write_rest, ensured, has_backup, merge_enabled,
  auto_merge, merge, proposed, pushed, written, branched, propose,
}

-- The same operator before a provider whose merge does something else.
abbrev pub with_merge : {W : Type 0} → (Site → ℕ → W → Bool × W) → Network W → Network W
with_merge m env = record env { git = record env.git { merge_pr = m } }

write_files_same :
    {W : Type 0} (env : Network W) (m : Site → ℕ → W → Bool × W) (repo : String)
    (files : List NewFile) (w : W)
    → write_files (with_merge m env) repo files w ≡ write_files env repo files w
unfolding write_files add_resource
write_files_same env m repo [] w = refl
write_files_same env m repo (file ∷ rest) w =
    ap
      (λ next.
        write_rest (λ v. next (add_resource env repo file.path v))
          (write_file env.disk repo file.path file.content w))
      (fun_ext (write_files_same env m repo rest))

module _ {W : Type 0} (env : Network W) (m : Site → ℕ → W → Bool × W) (site : Site)
    (namespace : String) (files : List NewFile)
    (manual : (has_backup files ≡ true) ⊎ (merge_enabled env.spec.auto_merge ≡ false)) where
  auto_merge_off : auto_merge env files ≡ false
  unfolding auto_merge
  auto_merge_off = ground arith

  merge_off :
      (pr : Pull) (w : W) → merge (with_merge m env) site files pr w ≡ merge env site files pr w
  unfolding merge auto_merge
  merge_off pr w = ground (arith, manual)

  proposed_off :
      (branch : String) (s : NetState W) (r : Result String Pull × W)
      → proposed (with_merge m env) site branch namespace files s r
        ≡ proposed env site branch namespace files s r
  unfolding proposed pr_state record_pr auto_merge
  proposed_off branch s (err text, w) = refl
  proposed_off branch s (ok pr, w) =
      ap
        (λ v. (
          ok tt,
          count (pr_created env.spec.git_repository.cluster_name namespace (variant_of files)) (
              record_pr env namespace (pr_state env site branch files v) (noted env pr branch)
                (at s v)),
        ))
        (merge_off pr w)

  pushed_off :
      (branch : String) (s : NetState W)
      → pushed (with_merge m env) site branch namespace files s
        ≡ pushed env site branch namespace files s
  unfolding pushed new_pull title description auto_merge
  pushed_off branch s =
      proposed_off branch s (env.git.create_pr site (new_pull env branch namespace files) s.world)

  written_off :
      (branch repo : String) (s : NetState W)
      → written (with_merge m env) site branch repo namespace files s
        ≡ written env site branch repo namespace files s
  unfolding written title
  written_off branch repo s =
      ap
        (λ next. step push_failed next s (
          env.git.commit_and_push repo branch (title env namespace files) site.credentials
            (tls_verify_of env.spec.git_repository.git_tls_verify) s.world))
        (fun_ext (pushed_off branch))

  branched_off :
      (branch repo : String) (s : NetState W)
      → branched (with_merge m env) site branch repo namespace files s
        ≡ branched env site branch repo namespace files s
  unfolding branched
  branched_off branch repo s =
      ap
        (λ next. step kustomization_failed next s (
          ensured (
            ensure_kustomization_exists env.disk env.yaml repo
              (kustomization_path env.spec.git_repository.cluster_name) s.world)))
        (fun_ext (λ (t : NetState W).
          ap
            (λ r.
              step write_failed (written (with_merge m env) site branch repo namespace files) t r)
            (write_files_same env m repo files t.world)
          ∙ ap (λ next. step write_failed next t (write_files env repo files t.world))
              (fun_ext (written_off branch repo))))

  -- Unless automatic merges are enabled and no file is a backup, the operator does the same whatever a
  -- merge would do: it never merges such a pull request.
  pub propose-manual :
      (repo : String) (s : NetState W)
      → propose (with_merge m env) site repo namespace files s
        ≡ propose env site repo namespace files s
  unfolding propose
  propose-manual repo s =
      let branch = generate_branch_name env.spec.git_repository.cluster_name namespace in
      let gone = env.git.delete_branch site branch s.world in
      ap
        (λ next.
          if is_open (env.git.pr_by_branch site branch s.world)
          then (ok tt, s)
          else step branch_failed next (at s gone) (env.git.checkout repo branch true gone))
        (fun_ext (branched_off branch repo))
