-- ===== src/Storage/Usage/Tests.antt =====
-- A volume whose owner was changed by a node, scanned with and without the usage of its subvolume.
use btrfs_nfs_csi.Base.{◌≡◌, refl, List, [], ◌∷◌, Option, none, some, codes, lookup, ◌=b◌}
use btrfs_nfs_csi.Base.Int.{pos}
use btrfs_nfs_csi.Strconv.{format}
use btrfs_nfs_csi.FileMode.{unix_mode, file_mode}
use btrfs_nfs_csi.Storage.Model.{VolumeMetadata}
use btrfs_nfs_csi.Storage.Host.{State, FilePath, Event}
use btrfs_nfs_csi.Storage.Exec.{ok, ◌>>=◌}
use btrfs_nfs_csi.Storage.Meta.{volumes, data_path, key, get, update, write_json_atomic}
use btrfs_nfs_csi.Storage.Samples.{calm, cfg, tenant, db}
use btrfs_nfs_csi.Storage.Usage.{
  FileInfo, UsageMap, rewritten, fs_mode, used_of, drifted, observe, scanned, scan_volume,
  seen_volume, rewrite_volume,
}
use btrfs_nfs_csi.Storage.Usage.Scanned.{Reports, Unwritten, scan_volume-Reports}

abbrev filled : VolumeMetadata
filled = record db { used_bytes = 512 }

abbrev with_filled : State
with_filled = record { volumes = (codes "default/db", filled) ∷ []; snapshots = []; trace = [] }

-- A node has changed the owner.
abbrev given_away : List Event → FilePath → Option FileInfo
given_away t p = some record { owner = pos 1000; group = pos 0; file_mode_bits = file_mode 0o2770 }

abbrev read_usage : UsageMap
read_usage = some λ p. some record { referenced = 700; exclusive = 0 }

unread_run :
    (scan_volume calm given_away cfg tenant none 9 (codes "db") filled with_filled).0
    ≡ ok (rewritten (record db { uid = pos 1000; used_bytes = 0; updated_at = 9 }))
unfolding scan_volume seen_volume rewrite_volume ◌>>=◌ used_of drifted fs_mode format unix_mode
    file_mode ◌=b◌ update get lookup key write_json_atomic observe scanned
unread_run = refl

read_run :
    (scan_volume calm given_away cfg tenant read_usage 9 (codes "db") filled with_filled).0
    ≡ ok (rewritten (record db { uid = pos 1000; used_bytes = 700; updated_at = 9 }))
unfolding scan_volume seen_volume rewrite_volume ◌>>=◌ used_of drifted fs_mode format unix_mode
    file_mode ◌=b◌ update get lookup key write_json_atomic observe scanned
read_run = refl

filled_is_cached : lookup (key tenant (codes "db")) with_filled.volumes ≡ some filled
unfolding lookup key ◌=b◌
filled_is_cached = refl

scan_volume-Reports_example :
    Reports none
      (data_path cfg.base_path volumes tenant (codes "db"))
      filled
      (Unwritten calm cfg tenant
        (codes "db")
        filled
        none
        (given_away [] (data_path cfg.base_path volumes tenant (codes "db")))
        9
        with_filled)
      (given_away [] (data_path cfg.base_path volumes tenant (codes "db")))
      (scan_volume calm given_away cfg tenant none 9 (codes "db") filled with_filled).0
scan_volume-Reports_example =
    scan_volume-Reports calm given_away cfg tenant (codes "db") none 9 filled with_filled
      filled_is_cached
