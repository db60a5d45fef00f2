-- ===== src/Node.antt =====
-- integrations/kubernetes/driver: node.go over a mounter, with cleanupMountPoint of mount.go.
pub mod Address
pub mod Stats
pub mod ReadOnly
mod Tests
use btrfs_nfs_csi.Base.{
  ◌≡◌, refl, Bool, true, false, not, ◌&&◌, ◌||◌, List, [], ◌∷◌, ◌++◌, Option, none, some, Bytes,
  codes, ◌=b◌, split, if◌then◌else◌,
}
use btrfs_nfs_csi.Validate.{Labels}
use btrfs_nfs_csi.Storage.Model.{label_at}
use btrfs_nfs_csi.Csi.Tracker.{Code, invalid_argument, internal, Reply, ok, refused}
use btrfs_nfs_csi.Csi.Requests.{param_nfs_server, param_nfs_share_path, param_nfs_mount_options}

-- What IsMountPoint says of a path: whether it is one, or one of three errors.
pub data MountCheck : Type 0 where
  mounted not_mounted no_such_path corrupted check_failed : MountCheck

-- The mounter of k8s.io/mount-utils and os.MkdirAll. A flag tells that no error came back. The names
-- are those of the library: `cleanup` stands for CleanupMountWithForce and CleanupMountPoint.
pub record Mounter : Type 1 where
  pub World : Type 0
  pub is_mount_point : Bytes → World → MountCheck
  pub mkdir_all : Bytes → World → Bool × World
  pub mount : Bytes → Bytes → Bytes → List Bytes → World → Bool × World
  pub cleanup : Bytes → World → Bool × World

abbrev pub data_dir : Bytes
data_dir = codes "data"

-- The options of the NFS mount; the flag is that of the two access modes that only read.
unfoldable pub stage_options : Bool → Bytes → List Bytes
stage_options reader_only extra =
    (if reader_only then codes "ro" else codes "rw")
    ∷ (if extra =b [] then [] else split b',' extra)

module _ (M : Mounter) where
  -- What follows the check of a path: it is mounted already, or it is mounted by `go`, where need be
  -- behind a clean-up, or the call is refused.
  unfoldable pub ensure_mounted :
      Bytes → (M.World → Reply Unit × M.World) → M.World → Reply Unit × M.World
  ensure_mounted path go w = elim (M.is_mount_point path w) [
    | mounted ↦ (ok tt, w)
    | not_mounted ↦ go w
    | no_such_path ↦ go w
    | corrupted ↦ let r = M.cleanup path w in if r.0 then go r.1 else (refused internal, r.1)
    | check_failed ↦ (refused internal, w)
  ]

  -- A call that is refused where the one before it failed.
  abbrev then_do : Bool × M.World → (M.World → Reply Unit × M.World) → Reply Unit × M.World
  then_do (true, w) go = go w
  then_do (false, w) go = (refused internal, w)

  abbrev done : M.World → Reply Unit × M.World
  done w = (ok tt, w)

  mount_nfs : Bytes → Bytes → List Bytes → M.World → Reply Unit × M.World
  mount_nfs source path options w =
      then_do (M.mkdir_all path w) λ v. then_do (M.mount source path (codes "nfs") options v) done

  unfoldable pub node_stage_volume : Bytes → Bytes → Labels → Bool → M.World → Reply Unit × M.World
  unfolding ensure_mounted mount_nfs
  node_stage_volume volume_id staging_path ctx reader_only w =
      let server = label_at ctx param_nfs_server in
      let share = label_at ctx param_nfs_share_path in
      if volume_id =b [] || staging_path =b []
      then (refused invalid_argument, w)
      else if server =b [] || share =b []
      then (refused invalid_argument, w)
      else ensure_mounted staging_path
          (mount_nfs (server ++ b':' ∷ share) staging_path
            (stage_options reader_only (label_at ctx param_nfs_mount_options)))
          w

  unfoldable pub cleaned : Bytes → M.World → Reply Unit × M.World
  cleaned path w = then_do (M.cleanup path w) done

  unfoldable pub node_unstage_volume : Bytes → Bytes → M.World → Reply Unit × M.World
  unfolding cleaned
  node_unstage_volume volume_id staging_path w =
      if volume_id =b [] || staging_path =b []
      then (refused invalid_argument, w)
      else cleaned staging_path w

  -- The remount of a bind mount as read-only. Where it fails the target is cleaned up, and an error
  -- of that is only logged.
  unfoldable pub remount_ro : Bytes → M.World → Reply Unit × M.World
  remount_ro target w =
      let r = M.mount [] target [] (codes "bind" ∷ codes "remount" ∷ codes "ro" ∷ []) w in
      if r.0 then (ok tt, r.1) else (refused internal, (M.cleanup target r.1).1)

  unfoldable pub bind_mount : Bytes → Bytes → Bool → M.World → Reply Unit × M.World
  unfolding remount_ro
  bind_mount staging_path target read_only w = then_do (M.mkdir_all target w) λ v.
      then_do (M.mount (staging_path ++ b'/' ∷ data_dir) target [] (codes "bind" ∷ []) v)
        (if read_only then remount_ro target else done)

  unfoldable pub node_publish_volume : Bytes → Bytes → Bytes → Bool → M.World → Reply Unit × M.World
  unfolding ensure_mounted bind_mount
  node_publish_volume volume_id staging_path target read_only w =
      if volume_id =b [] || staging_path =b [] || target =b []
      then (refused invalid_argument, w)
      else ensure_mounted target (bind_mount staging_path target read_only) w

  unfoldable pub node_unpublish_volume : Bytes → Bytes → M.World → Reply Unit × M.World
  unfolding cleaned
  node_unpublish_volume volume_id target w =
      if volume_id =b [] || target =b [] then (refused invalid_argument, w) else cleaned target w
