-- ===== src/NetworkPolicy/Disk.antt =====
-- The files of a cloned repository
-- (operator/internal/controller/networkpolicy/git_file_operations.go).
-- The calls of Go's `os` package are a record of operations on the state `W`, with `DiskLaws` for what
-- is relied on: a file that was written is read back, and the files under other paths are left alone.
pub mod Frame
use permission_binder_operat.Prelude.{
  String, Bool, true, false, not, ◌&&◌, ◌≡◌, refl, ◌∙◌, ◌≢◌, Option, none, some, List, [], ◌∷◌,
  if◌then◌else◌, arith,
}
use permission_binder_operat.GoString.{has_suffix}
use permission_binder_operat.GoPath.{join, dir}

-- An entry of `os.ReadDir`.
pub record DirEntry : Type 0 where
  pub name : String
  pub is_dir : Bool

-- `os.Stat`, `os.ReadFile`, `os.ReadDir`, `os.MkdirAll`, `os.WriteFile`, `os.Remove` and `os.RemoveAll`.
pub record Disk (W : Type 0) : Type 0 where
  pub stat : String → W → Bool
  pub read : String → W → Option String
  pub read_dir : String → W → Option (List DirEntry)
  pub make_dirs : String → W → Bool × W
  pub write : String → String → W → Bool × W
  pub remove : String → W → Bool × W
  pub remove_all : String → W → W

-- Laws for the paths that `filepath.Join` returns.
pub record DiskLaws {W : Type 0} (disk : Disk W) : Type 0 where
  pub read-write :
      (ps : List String) (content : String) (w : W)
      → (disk.write (join ps) content w).0 ≡ true
      → disk.read (join ps) (disk.write (join ps) content w).1 ≡ some content
  pub read-write_ne :
      (ps qs : List String) (content : String) (w : W)
      → join qs ≢ join ps
      → disk.read (join qs) (disk.write (join ps) content w).1 ≡ disk.read (join qs) w
  pub read-make_dirs :
      (path : String) (qs : List String) (w : W)
      → disk.read (join qs) (disk.make_dirs path w).1 ≡ disk.read (join qs) w
  pub read-stat :
      (qs : List String) (w : W) (content : String)
      → disk.read (join qs) w ≡ some content
      → disk.stat (join qs) w ≡ true

yaml_names : List DirEntry → List String
yaml_names [] = []
yaml_names (entry ∷ rest) =
    let others = yaml_names rest in
    if not entry.is_dir && has_suffix entry.name ".yaml" then entry.name ∷ others else others

module _ {W : Type 0} (disk : Disk W) where
  write_made : String → String → Bool × W → Bool × W
  write_made full content (false, w) = (false, w)
  write_made full content (true, w) = disk.write full content w

  -- `writeFile`
  unfoldable pub write_file : String → String → String → W → Bool × W
  unfolding write_made
  write_file repo path content w =
      write_made (join (repo ∷ path ∷ [])) content
        (disk.make_dirs (dir (join (repo ∷ path ∷ []))) w)

  -- `readFile`
  unfoldable pub read_file : String → String → W → Option String
  read_file repo path w = disk.read (join (repo ∷ path ∷ [])) w

  -- `fileExists`
  unfoldable pub file_exists : String → String → W → Bool
  file_exists repo path w = disk.stat (join (repo ∷ path ∷ [])) w

  listed : Option (List DirEntry) → Option (List String)
  listed none = none
  listed (some entries) = some (yaml_names entries)

  -- `listFiles`
  unfoldable pub list_files : String → String → W → Option (List String)
  unfolding listed yaml_names has_suffix
  list_files repo path w = listed (disk.read_dir (join (repo ∷ path ∷ [])) w)

  module _ (laws : DiskLaws disk) where
    write_made-read :
        (full : List String) (content : String) (r : Bool × W)
        → (write_made (join full) content r).0 ≡ true
        → disk.read (join full) (write_made (join full) content r).1 ≡ some content
    unfolding write_made
    write_made-read full content (false, w) h = absurd (ground arith)
    write_made-read full content (true, w) h = laws.read-write full content w h

    -- A file that was written is read back.
    pub read-write_file :
        (repo path content : String) (w : W)
        → (write_file repo path content w).0 ≡ true
        → read_file repo path (write_file repo path content w).1 ≡ some content
    unfolding write_file read_file
    read-write_file repo path content w h =
        write_made-read (repo ∷ path ∷ []) content
          (disk.make_dirs (dir (join (repo ∷ path ∷ []))) w) h

    write_made-ne :
        (full other : List String) (content : String) (r : Bool × W)
        → join other ≢ join full
        → disk.read (join other) (write_made (join full) content r).1 ≡ disk.read (join other) r.1
    unfolding write_made
    write_made-ne full other content (false, w) h = refl
    write_made-ne full other content (true, w) h = laws.read-write_ne full other content w h

    -- Writing a file leaves the others as they are, whether or not it succeeds.
    pub read-write_file_ne :
        (repo path other content : String) (w : W)
        → join (repo ∷ other ∷ []) ≢ join (repo ∷ path ∷ [])
        → read_file repo other (write_file repo path content w).1 ≡ read_file repo other w
    unfolding write_file read_file
    read-write_file_ne repo path other content w h =
        write_made-ne (repo ∷ path ∷ []) (repo ∷ other ∷ []) content
          (disk.make_dirs (dir (join (repo ∷ path ∷ []))) w) h
        ∙ laws.read-make_dirs (dir (join (repo ∷ path ∷ []))) (repo ∷ other ∷ []) w
