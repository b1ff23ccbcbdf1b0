-- ===== src/NetworkPolicy/Kustomization/File.antt =====
-- The file after an update.
use permission_binder_operat.Prelude.{
  String, Bool, true, false, ◌≡◌, refl, ◌∙◌, ap, ◌↔◌, ◌≢◌, Option, some, none, [], ◌∷◌, In,
  Distinct, ok, arith,
}
use permission_binder_operat.GoPath.{is_abs, join}
use permission_binder_operat.GoSort.Laws.{IsAscending}
use permission_binder_operat.NetworkPolicy.Disk.{
  Disk, DiskLaws, read_file, write_file, read-write_file, read-write_file_ne,
}
use permission_binder_operat.NetworkPolicy.Kustomization.{
  Kustomization, KustomizationYaml, new_resources, file_written, write_printed, update_parsed,
  update_read, update_kustomization_resources, resource_entry,
}
use permission_binder_operat.NetworkPolicy.Kustomization.Laws.{
  id, Wanted, In-new_resources_iff, new_resources-Distinct, new_resources-IsAscending,
}

-- `new` is `old` after the addition or removal of a path: a set of paths in ascending order, and
-- nothing else has changed.
pub record IsUpdated (add : Bool) (path : String) (old new : Kustomization) : Type 0 where
  pub members : (a : String) → In a new.resources ↔ Wanted add a path old.resources
  pub once : Distinct new.resources
  pub ascending : IsAscending id new.resources
  pub others : new.other ≡ old.other

abbrev after_update : Bool → String → Kustomization → Kustomization
after_update add path old = record old { resources = new_resources add path old.resources }

after_update-IsUpdated :
    (add : Bool) (path : String) (old : Kustomization)
    → Distinct old.resources
    → IsUpdated add path old (after_update add path old)
after_update-IsUpdated add path old once = record {
  members = λ a. In-new_resources_iff add a path old.resources once;
  once = new_resources-Distinct add path old.resources;
  ascending = new_resources-IsAscending add path old.resources;
  others = refl;
}

file_written-same :
    {W : Type 0} (disk : Disk W) (yaml : KustomizationYaml) (r : Bool × W)
    → (file_written disk yaml r).1 ≡ r.1
unfolding file_written
file_written-same disk yaml (true, w) = refl
file_written-same disk yaml (false, w) = refl

module _ {W : Type 0} (disk : Disk W) (laws : DiskLaws disk) (yaml : KustomizationYaml)
    (parse-print : (k : Kustomization) (content : String)
      → yaml.print k ≡ some content
      → yaml.parse content ≡ some k) where
  file_written-ok : (r : Bool × W) → (file_written disk yaml r).0 ≡ ok tt → r.0 ≡ true
  unfolding file_written
  file_written-ok (true, w) h = refl
  file_written-ok (false, w) h = absurd (ground arith)

  -- What was printed and written is read and parsed again.
  write_printed-ok :
      (repo file : String) (k : Kustomization) (text : Option String) (w : W)
      → yaml.print k ≡ text
      → (write_printed disk yaml repo file text w).0 ≡ ok tt
      → (content : String) × (read_file disk repo file (write_printed disk yaml repo file text w).1
          ≡ some content)
        × (yaml.parse content ≡ some k)
  unfolding write_printed
  write_printed-ok repo file k none w e h = absurd (ground arith)
  write_printed-ok repo file k (some content) w e h = (
    content,
    ap (read_file disk repo file)
          (file_written-same disk yaml (write_file disk repo file content w))
        ∙ read-write_file disk laws repo file content w
            (file_written-ok (write_file disk repo file content w) h),
    parse-print k content e,
  )

  update_lem :
      (repo file path content : String) (add : Bool) (old : Kustomization) (w : W)
      → read_file disk repo file w ≡ some content
      → yaml.parse content ≡ some old
      → is_abs path ≡ false
      → update_kustomization_resources disk yaml repo file path add w
        ≡ write_printed disk yaml repo file (yaml.print (after_update add path old)) w
  unfolding update_kustomization_resources
  update_lem repo file path content add old w there parsed below =
      rw (there, update_read, parsed, below) refl

  -- For a relative path and a file that can be parsed and lists no path twice: if
  -- `updateKustomizationResourcesSimple` succeeds, the file that it leaves is the one it found with the
  -- path added or removed: as a set, in ascending order, with no path twice, and with all else as it was.
  pub update_kustomization_resources_lem :
      (repo file path content : String) (add : Bool) (old : Kustomization) (w : W)
      → read_file disk repo file w ≡ some content
      → yaml.parse content ≡ some old
      → Distinct old.resources
      → is_abs path ≡ false
      → (update_kustomization_resources disk yaml repo file path add w).0 ≡ ok tt
      → (written : String) × (new : Kustomization) × (read_file disk repo file
            (update_kustomization_resources disk yaml repo file path add w).1
          ≡ some written)
        × (yaml.parse written ≡ some new)
        × IsUpdated add path old new
  update_kustomization_resources_lem repo file path content add old w there parsed once below =
      rw (update_lem repo file path content add old w there parsed below) λ h.
        let (written, found, new) =
          write_printed-ok repo file (after_update add path old)
            (yaml.print (after_update add path old)) w refl h in
        (written, after_update add path old, found, new, after_update-IsUpdated add path old once)

module _ {W : Type 0} (disk : Disk W) (laws : DiskLaws disk) (yaml : KustomizationYaml)
    (repo file other : String) (apart : join (repo ∷ other ∷ []) ≢ join (repo ∷ file ∷ [])) where
  write_printed-keeps :
      (text : Option String) (w : W)
      → read_file disk repo other (write_printed disk yaml repo file text w).1
        ≡ read_file disk repo other w
  unfolding write_printed
  write_printed-keeps none w = refl
  write_printed-keeps (some content) w =
      ap (read_file disk repo other)
        (file_written-same disk yaml (write_file disk repo file content w))
      ∙ read-write_file_ne disk laws repo file other content w apart

  update_parsed-keeps :
      (path : String) (add : Bool) (old : Option Kustomization) (w : W)
      → read_file disk repo other (update_parsed disk yaml repo file path add old w).1
        ≡ read_file disk repo other w
  unfolding update_parsed
  update_parsed-keeps path add none w = refl
  update_parsed-keeps path add (some old) w =
      write_printed-keeps
        (yaml.print
          (record old { resources = new_resources add (resource_entry file path) old.resources }))
        w

  update_read-keeps :
      (path : String) (add : Bool) (content : Option String) (w : W)
      → read_file disk repo other (update_read disk yaml repo file path add content w).1
        ≡ read_file disk repo other w
  unfolding update_read
  update_read-keeps path add none w = refl
  update_read-keeps path add (some content) w = update_parsed-keeps path add (yaml.parse content) w

  -- The update writes no file but the kustomization, whether or not it succeeds.
  pub update_kustomization_resources-keeps :
      (path : String) (add : Bool) (w : W)
      → read_file disk repo other (update_kustomization_resources disk yaml repo file path add w).1
        ≡ read_file disk repo other w
  unfolding update_kustomization_resources
  update_kustomization_resources-keeps path add w =
      update_read-keeps path add (read_file disk repo file w) w
