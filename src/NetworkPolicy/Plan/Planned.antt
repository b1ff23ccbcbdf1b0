-- ===== src/NetworkPolicy/Plan/Planned.antt =====
-- What is planned.
use permission_binder_operat.Prelude.{
  String, Bool, true, false, ◌≡◌, inl, inr, Option, none, some, List, [], ◌∷◌, ◌++◌, All, Result,
  ok, err, arith, Bool-cases, is_some,
}
use permission_binder_operat.GoString.{◌<>◌}
use permission_binder_operat.NetworkPolicy.Disk.{Disk, file_exists}
use permission_binder_operat.NetworkPolicy.Policies.{NetworkSpec, Policy, PolicyClient, PolicyCodec}
use permission_binder_operat.NetworkPolicy.Provider.{Match, get_network_policy_name}
use permission_binder_operat.NetworkPolicy.Sources.{
  SourceError, process_template, backup_network_policy,
}
use permission_binder_operat.NetworkPolicy.Plan.{
  NewFile, has_policy, from_any_template, may_back_up, path_of, template_file_name, backup_file,
  new_file, template_file, other_file, with_file, template_files, other_files, files_to_create,
}

All-append : {A : Type 0} (P : A → Type 0) (xs ys : List A) → All P xs → All P ys → All P (xs ++ ys)
All-append P [] ys h k = k
All-append P (x ∷ xs) ys (p, h) k = (p, All-append P xs ys h k)

module _ {W : Type 0} (disk : Disk W) (client : PolicyClient W) (codec : PolicyCodec)
    (match : Match) (spec : NetworkSpec) (repo namespace : String) (w : W) where
  abbrev allowed : Bool
  allowed = may_back_up disk client codec match spec namespace

  abbrev path : String → String
  path file = path_of disk client codec match spec namespace file

  -- The file is not in the repository yet, and is a backup only where that is allowed.
  abbrev pub IsPlanned : NewFile → Type 0
  IsPlanned file =
      (file_exists disk repo file.path w ≡ false) × (file.is_backup ≡ true → allowed ≡ true)

  abbrev IfPlanned : Option NewFile → Type 0
  IfPlanned none = Unit {0}
  IfPlanned (some file) = IsPlanned file

  with_file-All :
      (o : Option NewFile) (files : List NewFile)
      → IfPlanned o
      → All IsPlanned files
      → All IsPlanned (with_file disk client codec match spec o files)
  with_file-All none files h k = k
  with_file-All (some file) files h k = (h, k)

  backup_file-planned :
      (at_path : String) (r : Result SourceError String)
      → file_exists disk repo at_path w ≡ false
      → allowed ≡ true
      → IfPlanned (backup_file disk client codec match spec at_path r)
  unfolding backup_file
  backup_file-planned at_path (err e) h k = tt
  backup_file-planned at_path (ok content) h k = (h, λ _. k)

  new_file-planned :
      (at_path : String) (r : Result SourceError String)
      → file_exists disk repo at_path w ≡ false
      → IfPlanned (new_file disk client codec match spec at_path r)
  unfolding new_file
  new_file-planned at_path (err e) h = tt
  new_file-planned at_path (ok content) h = elim (Bool-cases (is_some (codec.parse content))) [
    | inl valid ↦ rw valid (h, λ e. absurd (ground arith))
    | inr invalid ↦ rw invalid tt
  ]

  template_file-planned :
      (policies : List Policy) (template : String)
      → IfPlanned (template_file disk client codec match spec repo namespace policies template w)
  unfolding template_file
  template_file-planned policies template =
      let at_path = path (template_file_name disk client codec match spec namespace template) in
      let name = get_network_policy_name namespace template in
      elim (Bool-cases (file_exists disk repo at_path w)) [
        | inl old ↦ rw old tt
        | inr new ↦ elim (Bool-cases (has_policy name policies)) [
          | inr free ↦
              rw (new, free)
                (new_file-planned at_path
                  (process_template disk client codec repo spec.template_dir template namespace w)
                  new)
          | inl there ↦ elim (Bool-cases allowed) [
            | inl yes' ↦
                rw (new, there, yes')
                  (backup_file-planned at_path
                    (backup_network_policy disk client codec namespace name w) new yes')
            | inr no' ↦ rw (new, there, no') tt
          ]
        ]
      ]

  other_file-planned :
      (templates : List String) (policy : Policy)
      → allowed ≡ true
      → IfPlanned (other_file disk client codec match spec repo namespace templates policy w)
  unfolding other_file
  other_file-planned templates policy k =
      elim (Bool-cases (from_any_template policy.name namespace templates)) [
        | inl made ↦ rw made tt
        | inr own ↦ elim (Bool-cases (file_exists disk repo (path (policy.name <> ".yaml")) w)) [
          | inl old ↦ rw (own, old) tt
          | inr new ↦
              rw (own, new)
                (backup_file-planned (path (policy.name <> ".yaml"))
                  (backup_network_policy disk client codec namespace policy.name w) new k)
        ]
      ]

  template_files-IsPlanned :
      (policies : List Policy) (templates : List String)
      → All IsPlanned
          (template_files disk client codec match spec repo namespace policies templates w)
  unfolding template_files
  template_files-IsPlanned policies [] = tt
  template_files-IsPlanned policies (t ∷ rest) =
      with_file-All (template_file disk client codec match spec repo namespace policies t w)
        (template_files disk client codec match spec repo namespace policies rest w)
        (template_file-planned policies t) (template_files-IsPlanned policies rest)

  other_files-IsPlanned :
      (templates : List String) (policies : List Policy)
      → allowed ≡ true
      → All IsPlanned (other_files disk client codec match spec repo namespace templates policies w)
  unfolding other_files
  other_files-IsPlanned templates [] k = tt
  other_files-IsPlanned templates (p ∷ rest) k =
      with_file-All (other_file disk client codec match spec repo namespace templates p w)
        (other_files disk client codec match spec repo namespace templates rest w)
        (other_file-planned templates p k) (other_files-IsPlanned templates rest k)

  -- No file is planned that the repository already has, and a backup is planned only if backups are
  -- asked for and the namespace is not excluded from them.
  pub files_to_create-IsPlanned :
      (templates : List String) (policies : List Policy)
      → All IsPlanned
          (files_to_create disk client codec match spec repo namespace templates policies w)
  unfolding files_to_create
  files_to_create-IsPlanned templates policies = elim (Bool-cases allowed) [
    | inl yes' ↦ rw yes' (
        All-append IsPlanned
          (template_files disk client codec match spec repo namespace policies templates w)
          (other_files disk client codec match spec repo namespace templates policies w)
          (template_files-IsPlanned policies templates)
          (other_files-IsPlanned templates policies yes'))
    | inr no' ↦ rw no' (
        All-append IsPlanned
          (template_files disk client codec match spec repo namespace policies templates w) []
          (template_files-IsPlanned policies templates) tt)
  ]
