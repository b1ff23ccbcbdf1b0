-- ===== src/NetworkPolicy/Single/Stored.antt =====
-- The files are in the repository when they have been written.
use permission_binder_operat.Prelude.{
  String, Bool, true, false, ◌≡◌, refl, sym, subst, ◌∙◌, ◌≢◌, some, List, [], ◌∷◌, All, arith,
}
use permission_binder_operat.GoPath.{join}
use permission_binder_operat.NetworkPolicy.Disk.{DiskLaws, read_file, write_file, read-write_file}
use permission_binder_operat.NetworkPolicy.Plan.{NewFile}
use permission_binder_operat.NetworkPolicy.Single.{
  Network, kustomization_path, add_resource, write_rest, write_files,
}
use permission_binder_operat.NetworkPolicy.Single.Files.{add_resource-keeps, write_files-keeps}

write_rest-ok :
    {W : Type 0} (next : W → Bool × W) (r : Bool × W)
    → (write_rest next r).0 ≡ true
    → (r.0 ≡ true) × ((next r.1).0 ≡ true) × (write_rest next r ≡ next r.1)
unfolding write_rest
write_rest-ok next (true, w) h = (refl, h, refl)
write_rest-ok next (false, w) h = absurd (ground arith)

module _ {W : Type 0} (env : Network W) (repo : String) where
  -- The files have different paths, and none is the kustomization.
  abbrev pub Separate : List NewFile → Type 0
  Separate [] = Unit {0}
  Separate (file ∷ rest) =
      (join (repo ∷ file.path ∷ [])
        ≢ join (repo ∷ kustomization_path env.spec.git_repository.cluster_name ∷ []))
      × All (λ (other : NewFile). join (repo ∷ file.path ∷ []) ≢ join (repo ∷ other.path ∷ [])) rest
      × Separate rest

  -- Every file holds its content.
  abbrev pub AllStored : List NewFile → W → Type 0
  AllStored files w =
      All (λ (file : NewFile). read_file env.disk repo file.path w ≡ some file.content) files

  pub write_files-AllStored :
      DiskLaws env.disk
      → (files : List NewFile) (w : W) → Separate files
      → (write_files env repo files w).0 ≡ true
      → AllStored files (write_files env repo files w).1
  unfolding write_files
  write_files-AllStored laws [] w h done = tt
  write_files-AllStored laws (file ∷ rest) w (apart, others, later) done =
      let next : W → Bool × W =
        λ v. write_files env repo rest (add_resource env repo file.path v) in
      let first = write_file env.disk repo file.path file.content w in
      let (written, more, same) = write_rest-ok next first done in
      let after = add_resource env repo file.path first.1 in
      subst (λ (r : Bool × W). AllStored (file ∷ rest) r.1) (sym same)
        (
          write_files-keeps env laws repo file.path apart rest after others
              ∙ add_resource-keeps env laws repo file.path apart file.path first.1
              ∙ read-write_file env.disk laws repo file.path file.content w written,
          write_files-AllStored laws rest after later more,
        )
