-- ===== src/NetworkPolicy/Single/Outcome.antt =====
-- What a success of the workflow means.
use permission_binder_operat.Prelude.{
  String, Bool, true, false, ◌≡◌, refl, sym, ap, ◌∙◌, ◌⊎◌, inl, inr, List, Result, ok, err, arith,
  Bool-cases, subst,
}
use permission_binder_operat.NetworkPolicy.Disk.{DiskLaws}
use permission_binder_operat.NetworkPolicy.Single.Stored.{
  Separate, AllStored, write_files-AllStored,
}
use permission_binder_operat.NetworkPolicy.Kustomization.{ensure_kustomization_exists}
use permission_binder_operat.NetworkPolicy.Provider.{generate_branch_name}
use permission_binder_operat.NetworkPolicy.Git.{Pull, Site, NewPull, tls_verify_of}
use permission_binder_operat.NetworkPolicy.Plan.{NewFile}
use permission_binder_operat.NetworkPolicy.Single.{
  Network, NetState, NetError, pr_created, push_failed, write_failed, kustomization_failed,
  branch_failed, at, Answer, step, is_open, merge, proposed, pushed, written, branched, propose,
  title, new_pull, variant_of, count, record_pr, pr_state, noted, write_files, ensured,
  kustomization_path,
}

-- A step that ends well has been carried out, and so has the next one.
step-ok :
    {W : Type 0} (e : NetError) (next : NetState W → Answer W) (s : NetState W) (r : Bool × W)
    → (step e next s r).0 ≡ ok tt
    → (r.0 ≡ true) × (step e next s r ≡ next (at s r.1))
unfolding step
step-ok e next s (true, w) h = (refl, refl)
step-ok e next s (false, w) h = absurd (ground arith)

module _ {W : Type 0} (env : Network W) (site : Site) (namespace repo : String)
    (files : List NewFile) where
  abbrev branch_of : String
  branch_of = generate_branch_name env.spec.git_repository.cluster_name namespace

  abbrev title_of : String
  title_of = title env namespace files

  abbrev new_of : NewPull
  new_of = new_pull env branch_of namespace files

  -- The state once the pull request was made: it may have been merged, it is noted in the status, and
  -- it is counted.
  abbrev pub finished : NetState W → Pull → W → NetState W
  finished s pr asked =
      let merged = merge env site files pr asked in
      count (pr_created env.spec.git_repository.cluster_name namespace (variant_of files)) (
        record_pr env namespace (pr_state env site branch_of files merged) (noted env pr branch_of)
          (at s merged))

  -- From `w`, where the branch is checked out, the kustomization was made sure of, all files were
  -- written and hold their contents, they were pushed to the branch, a pull request was made for it,
  -- and `after` is the state behind.
  pub record Proposed (s : NetState W) (w : W) (after : NetState W) : Type 0 where
    pub ready : W
    pub stored : W
    pub sent : W
    pub asked : W
    pub pr : Pull
    pub prepared :
        ensured (
          ensure_kustomization_exists env.disk env.yaml repo
            (kustomization_path env.spec.git_repository.cluster_name)
            w)
        ≡ (true, ready)
    pub all_written : write_files env repo files ready ≡ (true, stored)
    pub all_stored : AllStored env repo files stored
    pub pushed_all :
        env.git.commit_and_push repo branch_of title_of site.credentials
          (tls_verify_of env.spec.git_repository.git_tls_verify)
          stored
        ≡ (true, sent)
    pub requested : env.git.create_pr site new_of sent ≡ (ok pr, asked)
    pub ended : after ≡ finished s pr asked

  true_pair : (r : Bool × W) → r.0 ≡ true → r ≡ (true, r.1)
  true_pair (true, w) h = refl
  true_pair (false, w) h = absurd (ground arith)

  proposed-ok :
      (s : NetState W) (r : Result String Pull × W)
      → (proposed env site branch_of namespace files s r).0 ≡ ok tt
      → (pr : Pull) × (r ≡ (ok pr, r.1))
        × ((proposed env site branch_of namespace files s r).1 ≡ finished s pr r.1)
  unfolding proposed
  proposed-ok s (err text, w) h = absurd (ground arith)
  proposed-ok s (ok pr, w) h = (pr, refl, refl)

  branched-ok :
      DiskLaws env.disk
      → Separate env repo files
      → (start : NetState W) (w : W)
      → (branched env site branch_of repo namespace files (at start w)).0 ≡ ok tt
      → Proposed start w (branched env site branch_of repo namespace files (at start w)).1
  unfolding branched written pushed
  branched-ok laws separate start w h =
      let s = at start w in
      let ready = ensured (
        ensure_kustomization_exists env.disk env.yaml repo
          (kustomization_path env.spec.git_repository.cluster_name) s.world) in
      let s1 = at s ready.1 in
      let stored = write_files env repo files s1.world in
      let s2 = at s1 stored.1 in
      let sent =
        env.git.commit_and_push repo branch_of title_of site.credentials
          (tls_verify_of env.spec.git_repository.git_tls_verify) s2.world in
      let s3 = at s2 sent.1 in
      let asked = env.git.create_pr site new_of s3.world in
      let (is_ready, to_write) =
        step-ok kustomization_failed
          (λ t.
            step write_failed (written env site branch_of repo namespace files) t
              (write_files env repo files t.world))
          s ready h in
      let (is_stored, to_push) =
        step-ok write_failed (written env site branch_of repo namespace files) s1 stored
          (ap (λ (a : Answer W). a.0) (sym to_write) ∙ h) in
      let (is_sent, to_ask) =
        step-ok push_failed (pushed env site branch_of namespace files) s2 sent
          (ap (λ (a : Answer W). a.0) (sym (to_write ∙ to_push)) ∙ h) in
      let whole = to_write ∙ to_push ∙ to_ask in
      let (pr, is_made, ended) =
        proposed-ok s3 asked (ap (λ (a : Answer W). a.0) (sym whole) ∙ h) in
      record {
        ready = ready.1;
        stored = stored.1;
        sent = sent.1;
        asked = asked.1;
        pr = pr;
        prepared = true_pair ready is_ready;
        all_written = true_pair stored is_stored;
        all_stored = write_files-AllStored env repo laws files s1.world separate is_stored;
        pushed_all = true_pair sent is_sent;
        requested = is_made;
        ended = ap (λ (a : Answer W). a.1) whole ∙ ended;
      }

  -- In a file system, for files with different paths of which none is the kustomization: if the workflow
  -- ends well from the look at the pull request on, there was an open one already and nothing was done,
  -- or from the new branch on all the files were written and hold their contents, they were pushed, a
  -- pull request was made for them, and the answer is the state behind: with the merge, if there is to
  -- be one, the status entry and the count.
  pub propose_outcome :
      DiskLaws env.disk
      → Separate env repo files
      → (s : NetState W) → (propose env site repo namespace files s).0 ≡ ok tt
      → ((is_open (env.git.pr_by_branch site branch_of s.world) ≡ true)
          × (propose env site repo namespace files s ≡ (ok tt, s)))
        ⊎ ((w : W) × (env.git.checkout repo branch_of true
                (env.git.delete_branch site branch_of s.world)
              ≡ (true, w))
            × Proposed s w (propose env site repo namespace files s).1)
  unfolding propose
  propose_outcome laws separate s h =
      elim (Bool-cases (is_open (env.git.pr_by_branch site branch_of s.world))) [
        | inl opened ↦ inl (opened, rw opened refl)
        | inr closed ↦
            let gone = env.git.delete_branch site branch_of s.world in
            let there = env.git.checkout repo branch_of true gone in
            let to_branch : propose env site repo namespace files s
                ≡ step branch_failed (branched env site branch_of repo namespace files) (at s gone)
                    there =
              rw closed refl in
            let (is_there, rest) =
              step-ok branch_failed (branched env site branch_of repo namespace files) (at s gone)
                there (ap (λ (a : Answer W). a.0) (sym to_branch) ∙ h) in
            let whole = to_branch ∙ rest in
            inr (
              there.1,
              true_pair there is_there,
              subst (λ (a : Answer W). Proposed s there.1 a.1) (sym whole)
                  (branched-ok laws separate s there.1
                    (ap (λ (a : Answer W). a.0) (sym whole) ∙ h)),
            )
      ]
