-- ===== src/NetworkPolicy/Single/Files.antt =====
-- Files of the repository that are there already are left as they are.
use permission_binder_operat.Prelude.{
  String, Bool, true, false, ◌≡◌, refl, sym, ap, ◌∙◌, ◌≢◌, Option, some, List, [], ◌∷◌, All,
}
use permission_binder_operat.GoPath.{join, dir, rel}
use permission_binder_operat.NetworkPolicy.Disk.{
  DiskLaws, read_file, write_file, file_exists, read-write_file_ne,
}
use permission_binder_operat.NetworkPolicy.Kustomization.File.{update_kustomization_resources-keeps}
use permission_binder_operat.NetworkPolicy.Policies.{Policy}
use permission_binder_operat.NetworkPolicy.Plan.{NewFile, files_to_create}
use permission_binder_operat.NetworkPolicy.Plan.Planned.{IsPlanned, files_to_create-IsPlanned}
use permission_binder_operat.NetworkPolicy.Single.{
  Network, kustomization_path, add_resource, write_rest, write_files, or_empty,
}

true-false : true ≡ false → ⊥
true-false e = cc

module _ {W : Type 0} (env : Network W) (laws : DiskLaws env.disk) (repo other : String)
    (apart : join (repo ∷ other ∷ [])
      ≢ join (repo ∷ kustomization_path env.spec.git_repository.cluster_name ∷ [])) where
  abbrev content : W → Option String
  content w = read_file env.disk repo other w

  abbrev Elsewhere : NewFile → Type 0
  Elsewhere file = join (repo ∷ other ∷ []) ≢ join (repo ∷ file.path ∷ [])

  pub add_resource-keeps :
      (path : String) (w : W) → content (add_resource env repo path w) ≡ content w
  unfolding add_resource
  add_resource-keeps path w =
      let file = kustomization_path env.spec.git_repository.cluster_name in
      update_kustomization_resources-keeps env.disk laws env.yaml repo file other apart
        (or_empty (rel (dir file) path)) true w

  write_rest-keeps :
      (next : W → Bool × W) (r : Bool × W)
      → ((w : W) → content (next w).1 ≡ content w)
      → content (write_rest next r).1 ≡ content r.1
  unfolding write_rest
  write_rest-keeps next (true, w) h = h w
  write_rest-keeps next (false, w) h = refl

  pub write_files-keeps :
      (files : List NewFile) (w : W)
      → All Elsewhere files
      → content (write_files env repo files w).1 ≡ content w
  unfolding write_files
  write_files-keeps [] w h = refl
  write_files-keeps (file ∷ rest) w (here, later) =
      write_rest-keeps (λ v. write_files env repo rest (add_resource env repo file.path v))
        (write_file env.disk repo file.path file.content w)
        (λ v.
          write_files-keeps rest (add_resource env repo file.path v) later
          ∙ add_resource-keeps file.path v)
      ∙ read-write_file_ne env.disk laws repo file.path other file.content w here

  elsewhere :
      (files : List NewFile) (w : W) (old namespace : String)
      → content w ≡ some old
      → All (IsPlanned env.disk env.client env.codec env.match env.spec repo namespace w) files
      → All Elsewhere files
  unfolding file_exists read_file
  elsewhere [] w old namespace there h = tt
  elsewhere (file ∷ rest) w old namespace there ((new, _), h) = (
    λ same. true-false (
        sym (laws.read-stat (repo ∷ other ∷ []) w old there)
        ∙ ap (λ path. env.disk.stat path w) same
        ∙ new),
    elsewhere rest w old namespace there h,
  )

  -- A file that is in the repository when the files are planned, and is not the kustomization, is
  -- left as it is when they are written, whether or not the writes succeed.
  pub existing_kept :
      (namespace old : String) (templates : List String) (policies : List Policy) (planning w : W)
      → read_file env.disk repo other planning ≡ some old
      → read_file env.disk repo other
          (write_files env repo
            (files_to_create env.disk env.client env.codec env.match env.spec repo namespace
              templates policies planning)
            w).1
        ≡ read_file env.disk repo other w
  existing_kept namespace old templates policies planning w there =
      let files =
        files_to_create env.disk env.client env.codec env.match env.spec repo namespace templates
          policies planning in
      write_files-keeps files w (
        elsewhere files planning old namespace there (
          files_to_create-IsPlanned env.disk env.client env.codec env.match env.spec repo namespace
            planning templates policies))
