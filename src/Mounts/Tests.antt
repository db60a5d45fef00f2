-- ===== src/Mounts/Tests.antt =====
-- A mount table with nested mount points.
use btrfs_nfs_csi.Base.{◌≡◌, refl, some, Bytes, codes, ◌=b◌, split, fields, has_prefix}
use btrfs_nfs_csi.Mounts.{find_mount_point, best_mount, better_mount, mount_field, covers}
use btrfs_nfs_csi.Mounts.Longest.{mounts_of, Finds, find_mount_point-Finds}

abbrev table : Bytes
table =
    codes
      "21 1 8:1 / / rw\n30 21 8:2 / /mnt rw\n31 30 8:3 / /mnt/btr rw\n32 30 8:4 / /mnt/btrfs rw\n"

find_mount_point_runs : find_mount_point (codes "/mnt/btrfs/a") table ≡ some (codes "/mnt/btrfs")
unfolding find_mount_point best_mount better_mount mount_field covers fields has_prefix ◌=b◌
find_mount_point_runs = refl

below_sibling : find_mount_point (codes "/mnt/btrfsx") table ≡ some (codes "/mnt")
unfolding find_mount_point best_mount better_mount mount_field covers fields has_prefix ◌=b◌
below_sibling = refl

find_mount_point-Finds_example :
    Finds
      (codes "/mnt/btrfs/a")
      (mounts_of (split b'\n' table))
      (find_mount_point (codes "/mnt/btrfs/a") table)
find_mount_point-Finds_example = find_mount_point-Finds (codes "/mnt/btrfs/a") table
