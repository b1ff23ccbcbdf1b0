-- ===== src/NetworkPolicy/Kustomization.antt =====
-- The list of resources of the repository
-- (operator/internal/controller/networkpolicy/network_policy_kustomization_simple.go).
pub mod Laws
pub mod File
pub mod Frame
use permission_binder_operat.Prelude.{
  String, Bool, true, false, not, ◌&&◌, Option, none, some, List, [], ◌∷◌, ◌++◌, Result, ok, err,
  if◌then◌else◌, ◌==◌,
}
use permission_binder_operat.GoPath.{dir, join, is_abs, rel}
use permission_binder_operat.GoSort.{sort_strings, sort_by}
use permission_binder_operat.Whitelist.{contains_string}
use permission_binder_operat.NetworkPolicy.Disk.{Disk, write_file, read_file}

-- kustypes.Kustomization: the resources, and what the file holds besides them.
pub record Kustomization : Type 0 where
  pub resources : List String
  pub other : String

-- `yaml.Unmarshal` and `yaml.Marshal` of a Kustomization, and the fields of a new one.
pub record KustomizationYaml : Type 0 where
  pub parse : String → Option Kustomization
  pub print : Kustomization → Option String
  pub new_fields : String

-- The resources without the first occurrence of the path.
pub remove_first : String → List String → List String
remove_first path [] = []
remove_first path (res ∷ rest) = if res == path then rest else res ∷ remove_first path rest

-- The loop, and what is added behind it.
pub edited : Bool → String → List String → List String
edited add path resources =
    if contains_string path resources
    then (if add then resources else remove_first path resources)
    else if add
    then resources ++ (path ∷ [])
    else resources

-- The resources that were not seen before.
pub unique : List String → List String → List String
unique seen [] = []
unique seen (res ∷ rest) =
    let others = unique seen rest in
    let later = unique (res ∷ seen) rest in if contains_string res seen then others else res ∷ later

-- The list that `updateKustomizationResourcesSimple` writes.
unfoldable pub new_resources : Bool → String → List String → List String
unfolding unique edited remove_first sort_by
new_resources add path resources = unique [] (sort_strings (edited add path resources))

or_path : String → Option String → String
or_path path none = path
or_path path (some relative) = relative

-- The entry for a path: an absolute one is made relative to the directory of the file.
resource_entry : String → String → String
resource_entry file path = if is_abs path then or_path path (rel (dir file) path) else path

pub data FileError : Type 0 where
  read_failed parse_failed print_failed write_failed : FileError

module _ {W : Type 0} (disk : Disk W) (yaml : KustomizationYaml) where
  file_written : Bool × W → Result FileError (Unit {0}) × W
  file_written (true, w) = (ok tt, w)
  file_written (false, w) = (err write_failed, w)

  write_printed : String → String → Option String → W → Result FileError (Unit {0}) × W
  write_printed repo file none w = (err print_failed, w)
  write_printed repo file (some content) w = file_written (write_file disk repo file content w)

  -- `ensureKustomizationExistsSimple`
  unfoldable pub ensure_kustomization_exists : String → String → W → Result FileError (Unit {0}) × W
  unfolding write_printed file_written
  ensure_kustomization_exists repo file w =
      if disk.stat (join (repo ∷ file ∷ [])) w
      then (ok tt, w)
      else write_printed repo file (yaml.print (record { resources = []; other = yaml.new_fields }))
          w

  update_parsed :
      String → String → String → Bool → Option Kustomization → W → Result FileError (Unit {0}) × W
  update_parsed repo file path add none w = (err parse_failed, w)
  update_parsed repo file path add (some old) w =
      write_printed repo file
        (yaml.print
          (record old { resources = new_resources add (resource_entry file path) old.resources }))
        w

  update_read :
      String → String → String → Bool → Option String → W → Result FileError (Unit {0}) × W
  update_read repo file path add none w = (err read_failed, w)
  update_read repo file path add (some content) w =
      update_parsed repo file path add (yaml.parse content) w

  -- `updateKustomizationResourcesSimple`
  unfoldable pub update_kustomization_resources :
      String → String → String → Bool → W → Result FileError (Unit {0}) × W
  unfolding update_read update_parsed write_printed file_written resource_entry or_path
  update_kustomization_resources repo file path add w =
      update_read repo file path add (read_file disk repo file w) w
