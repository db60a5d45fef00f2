-- ===== src/Storage/Usage.antt =====
-- agent/storage/usage.go: one scan of the usage updater. What `stat` reports of a directory and what
-- the bulk query of the btrfs tool returns are arguments; the metrics and the counts are left out.
pub mod Scanned
mod Tests
use btrfs_nfs_csi.Base.{
  ℕ, Bool, true, false, not, ◌&&◌, ◌||◌, List, [], ◌∷◌, Option, none, some, Bytes, ◌=b◌, ◌==◌,
  is_none, if◌then◌else◌,
}
use btrfs_nfs_csi.Base.Int.{ℤ, same}
use btrfs_nfs_csi.Strconv.{format}
use btrfs_nfs_csi.FileMode.{unix_mode}
use btrfs_nfs_csi.Storage.Model.{VolumeMetadata, SnapshotMetadata}
use btrfs_nfs_csi.Storage.Host.{FilePath, stat, Event, Host, Config, State}
use btrfs_nfs_csi.Storage.Exec.{Exec, ok, err, ◌>>=◌, ◌>>◌, pure, after_call}
use btrfs_nfs_csi.Storage.Meta.{
  volumes, snapshots, data_path, update, Updated, updated, no_entry, unreadable, unwritable,
  entries_of,
}

-- `info.Sys()` and `info.Mode()`.
pub record FileInfo : Type 0 where
  pub owner : ℤ
  pub group : ℤ
  pub file_mode_bits : ℕ

pub record QgroupInfo : Type 0 where
  pub referenced : ℕ
  pub exclusive : ℕ

-- The map of the bulk query, by the path of the subvolume; `none` is the nil map.
abbrev pub UsageMap : Type 0
UsageMap = Option (FilePath → Option QgroupInfo)

-- What is done to one entry.
pub data Scan (T : Type 0) : Type 0 where
  unchanged scan_failed : Scan T
  rewritten : T → Scan T

unfoldable pub fs_mode : FileInfo → Bytes
fs_mode i = format 8 (unix_mode i.file_mode_bits)

-- The usage of a volume, which stays 0 where it has no quota or there is no map; `none` where the map
-- lacks the volume.
unfoldable pub used_of : UsageMap → FilePath → VolumeMetadata → Option ℕ
used_of none p v = some 0
used_of (some usage) p v =
    if v.quota_bytes == 0
    then some 0
    else elim (usage p) [ none ↦ none | some q ↦ some q.referenced ]

-- `meta.QuotaBytes > 0 && usageMap != nil`
abbrev pub is_measured : UsageMap → VolumeMetadata → Bool
is_measured usage v = not (v.quota_bytes == 0) && not (is_none usage)

unfoldable pub drifted : UsageMap → FileInfo → ℕ → VolumeMetadata → Bool
drifted usage i used v =
    not (same i.owner v.uid)
    || not (same i.group v.gid)
    || not (fs_mode i =b v.mode)
    || (is_measured usage v && not (used == v.used_bytes))

-- The function that the scan hands to the store.
unfoldable pub observe : FileInfo → ℕ → ℕ → VolumeMetadata → VolumeMetadata
observe i used now v = record v {
  uid = i.owner;
  gid = i.group;
  mode = fs_mode i;
  used_bytes = used;
  updated_at = now;
}

unfoldable pub observe_snapshot : QgroupInfo → ℕ → SnapshotMetadata → SnapshotMetadata
observe_snapshot q now v = record v {
  used_bytes = q.referenced;
  exclusive_bytes = q.exclusive;
  updated_at = now;
}

unfoldable pub scanned : {T : Type 0} → Updated T → Scan T
scanned (updated before after) = rewritten after
scanned no_entry = scan_failed
scanned unreadable = scan_failed
scanned unwritable = scan_failed

module _ (host : Host) (file_info : List Event → FilePath → Option FileInfo) (cfg : Config)
    (tenant : Bytes) (usage : UsageMap) (now : ℕ) where
  -- The call is logged; `none` is a stat that fails.
  abbrev pub stat_info : FilePath → Exec (Option FileInfo)
  stat_info p s = (ok (file_info s.trace p), after_call s (stat p) (host.respond s.trace (stat p)))

  unfoldable pub rewrite_volume :
      Bytes → VolumeMetadata → FileInfo → Option ℕ → Exec (Scan VolumeMetadata)
  rewrite_volume name cached i none = pure scan_failed
  rewrite_volume name cached i (some used) =
      if drifted usage i used cached
      then (do
        u ← update host cfg.base_path volumes tenant name (observe i used now) (λ v. v)
        pure (scanned u))
      else pure unchanged

  unfoldable pub seen_volume : Bytes → VolumeMetadata → Option FileInfo → Exec (Scan VolumeMetadata)
  seen_volume name cached none = pure scan_failed
  seen_volume name cached (some i) =
      rewrite_volume name cached i
        (used_of usage (data_path cfg.base_path volumes tenant name) cached)

  -- The body of Range over the volumes.
  unfoldable pub scan_volume : Bytes → VolumeMetadata → Exec (Scan VolumeMetadata)
  scan_volume name cached = do
    i ← stat_info (data_path cfg.base_path volumes tenant name)
    seen_volume name cached i

  unfoldable pub rewrite_snapshot :
      Bytes → SnapshotMetadata → Option QgroupInfo → Exec (Scan SnapshotMetadata)
  rewrite_snapshot name cached none = pure scan_failed
  rewrite_snapshot name cached (some q) =
      if q.referenced == cached.used_bytes && q.exclusive == cached.exclusive_bytes
      then pure unchanged
      else (do
        u ← update host cfg.base_path snapshots tenant name (observe_snapshot q now) (λ v. v)
        pure (scanned u))

  -- The body of Range over the snapshots.
  unfoldable pub scan_snapshot : Bytes → SnapshotMetadata → Exec (Scan SnapshotMetadata)
  scan_snapshot name cached = elim usage [
    | none ↦ pure unchanged
    | some at_path ↦
        rewrite_snapshot name cached (at_path (data_path cfg.base_path snapshots tenant name))
  ]

  -- A failure of one entry does not end the scan.
  unfoldable pub scan_volumes : List (Bytes × VolumeMetadata) → Exec Unit
  scan_volumes [] = pure tt
  scan_volumes ((name, v) ∷ rest) = do r ← scan_volume name v; scan_volumes rest

  unfoldable pub scan_snapshots : List (Bytes × SnapshotMetadata) → Exec Unit
  scan_snapshots [] = pure tt
  scan_snapshots ((name, v) ∷ rest) = do r ← scan_snapshot name v; scan_snapshots rest

  unfoldable pub scan_all : Exec Unit
  scan_all s =
      let v = scan_volumes (entries_of tenant s.volumes) s in
      scan_snapshots (entries_of tenant v.1.snapshots) v.1

-- updateAll: the bulk query is not made where quotas are off, and a failed one leaves no map.
unfoldable pub update_all :
    Host → (List Event → FilePath → Option FileInfo) → Config → Bytes → UsageMap → ℕ → Exec Unit
update_all host file_info cfg tenant queried now =
    scan_all host file_info cfg tenant (if cfg.quota_enabled then queried else none) now
