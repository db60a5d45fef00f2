-- ===== src/Mounts.antt =====
-- utils/mount.go: the mount point of a path, from the lines of /proc/self/mountinfo.
pub mod Longest
mod Tests
use btrfs_nfs_csi.Base.{
  ℕ, ◌≡◌, refl, Bool, true, false, not, ◌&&◌, ◌||◌, List, [], ◌∷◌, Option, none, some, Bytes, codes,
  ltb, ◌==◌, ◌=b◌, length, drop, split, fields, has_prefix, if◌then◌else◌,
}

-- `fields[4]`, where there are five fields.
unfoldable pub mount_field : List Bytes → Option Bytes
mount_field (a ∷ b ∷ c ∷ d ∷ mount ∷ _) = some mount
mount_field _ = none

-- The rest of the path behind the mount point is empty or starts with a slash.
unfoldable pub ends_component : Bytes → Bool
ends_component [] = true
ends_component (c ∷ _) = c == b'/'

-- The two tests by which the loop does not skip a mount point.
unfoldable pub covers : Bytes → Bytes → Bool
unfolding ends_component
covers path mount =
    has_prefix path mount && (mount =b codes "/" || ends_component (drop (length mount) path))

-- One round of the loop: the best mount point so far, which is empty at first.
unfoldable pub better_mount : Bytes → Bytes → Option Bytes → Bytes
better_mount path best none = best
better_mount path best (some mount) =
    if covers path mount && ltb (length best) (length mount) then mount else best

unfoldable pub best_mount : Bytes → Bytes → List Bytes → Bytes
best_mount path best [] = best
best_mount path best (line ∷ lines) =
    best_mount path (better_mount path best (mount_field (fields line))) lines

-- `none` is the error. The path is absolute, and the file has been read.
unfoldable pub find_mount_point : Bytes → Bytes → Option Bytes
find_mount_point path mountinfo =
    let best = best_mount path [] (split b'\n' mountinfo) in if best =b [] then none else some best

unfoldable pub is_mount_point : Bytes → Bytes → Bool
is_mount_point path mountinfo = elim (find_mount_point path mountinfo) [
  | none ↦ false
  | some mount ↦ mount =b path
]
