-- ===== src/NetworkPolicy/Kustomization/Frame.antt =====
-- A part of the state that no call of the `os` package changes is not changed by the kustomization.
use permission_binder_operat.Prelude.{
  String, Bool, true, false, ◌≡◌, refl, ◌∙◌, Option, none, some, [], ◌∷◌, Bool-cases, inl, inr,
}
use permission_binder_operat.GoPath.{join}
use permission_binder_operat.NetworkPolicy.Disk.{Disk, write_file, read_file}
use permission_binder_operat.NetworkPolicy.Disk.Frame.{DiskBlind, view-write_file}
use permission_binder_operat.NetworkPolicy.Kustomization.{
  Kustomization, KustomizationYaml, new_resources, resource_entry, file_written, write_printed,
  ensure_kustomization_exists, update_parsed, update_read, update_kustomization_resources,
}

module _ {W V : Type 0} (view : W → V) (disk : Disk W) (blind : DiskBlind view disk)
    (yaml : KustomizationYaml) (repo file : String) where
  view-file_written : (r : Bool × W) → view (file_written disk yaml r).1 ≡ view r.1
  unfolding file_written
  view-file_written (true, w) = refl
  view-file_written (false, w) = refl

  view-write_printed :
      (text : Option String) (w : W) → view (write_printed disk yaml repo file text w).1 ≡ view w
  unfolding write_printed
  view-write_printed none w = refl
  view-write_printed (some content) w =
      view-file_written (write_file disk repo file content w)
      ∙ view-write_file view disk blind repo file content w

  pub view-ensure_kustomization_exists :
      (w : W) → view (ensure_kustomization_exists disk yaml repo file w).1 ≡ view w
  unfolding ensure_kustomization_exists
  view-ensure_kustomization_exists w = elim (Bool-cases (disk.stat (join (repo ∷ file ∷ [])) w)) [
    | inl there ↦ rw there refl
    | inr missing ↦
        rw missing
          (view-write_printed (yaml.print (record { resources = []; other = yaml.new_fields })) w)
  ]

  view-update_parsed :
      (path : String) (add : Bool) (old : Option Kustomization) (w : W)
      → view (update_parsed disk yaml repo file path add old w).1 ≡ view w
  unfolding update_parsed
  view-update_parsed path add none w = refl
  view-update_parsed path add (some old) w =
      view-write_printed
        (yaml.print
          (record old { resources = new_resources add (resource_entry file path) old.resources }))
        w

  view-update_read :
      (path : String) (add : Bool) (content : Option String) (w : W)
      → view (update_read disk yaml repo file path add content w).1 ≡ view w
  unfolding update_read
  view-update_read path add none w = refl
  view-update_read path add (some content) w = view-update_parsed path add (yaml.parse content) w

  pub view-update_kustomization_resources :
      (path : String) (add : Bool) (w : W)
      → view (update_kustomization_resources disk yaml repo file path add w).1 ≡ view w
  unfolding update_kustomization_resources
  view-update_kustomization_resources path add w =
      view-update_read path add (read_file disk repo file w) w
