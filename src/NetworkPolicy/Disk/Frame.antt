-- ===== src/NetworkPolicy/Disk/Frame.antt =====
-- A part of the state that no call of the `os` package changes is not changed by a write.
use permission_binder_operat.Prelude.{String, Bool, true, false, ◌≡◌, refl, ◌∙◌, [], ◌∷◌}
use permission_binder_operat.GoPath.{join, dir}
use permission_binder_operat.NetworkPolicy.Disk.{Disk, write_made, write_file}

pub record DiskBlind {W V : Type 0} (view : W → V) (disk : Disk W) : Type 0 where
  pub make_dirs : (path : String) (w : W) → view (disk.make_dirs path w).1 ≡ view w
  pub write : (path content : String) (w : W) → view (disk.write path content w).1 ≡ view w
  pub remove : (path : String) (w : W) → view (disk.remove path w).1 ≡ view w
  pub remove_all : (path : String) (w : W) → view (disk.remove_all path w) ≡ view w

module _ {W V : Type 0} (view : W → V) (disk : Disk W) (blind : DiskBlind view disk) where
  view-write_made :
      (full content : String) (r : Bool × W) → view (write_made disk full content r).1 ≡ view r.1
  unfolding write_made
  view-write_made full content (true, w) = blind.write full content w
  view-write_made full content (false, w) = refl

  pub view-write_file :
      (repo path content : String) (w : W) → view (write_file disk repo path content w).1 ≡ view w
  unfolding write_file
  view-write_file repo path content w =
      view-write_made (join (repo ∷ path ∷ [])) content
        (disk.make_dirs (dir (join (repo ∷ path ∷ []))) w)
      ∙ blind.make_dirs (dir (join (repo ∷ path ∷ []))) w
