-- ===== src/Storage/Snapshots.antt =====
-- agent/storage/snapshot.go: CreateSnapshot.
use btrfs_nfs_csi.Base.{ℕ, true, Bytes, if◌then◌else◌}
use btrfs_nfs_csi.Validate.{valid_name, validate_labels}
use btrfs_nfs_csi.Storage.Model.{
  VolumeMetadata, SnapshotMetadata, SnapshotCreateRequest, validation, storage, snapshot_exists,
  wrapped, invalid, busy, already_exists, internal_error,
}
use btrfs_nfs_csi.Storage.Host.{
  Host, Config, FilePath, Outcome, done, target_exists, mkdir_all, remove_all, subvolume_snapshot,
  subvolume_delete, Read, got,
}
use btrfs_nfs_csi.Storage.Exec.{Exec, ◌>>=◌, ◌>>◌, pure, fail, guard, call, try_call, must, locked}
use btrfs_nfs_csi.Storage.Tenant.{tenant_path}
use btrfs_nfs_csi.Storage.Labels.{require_immutable_labels}
use btrfs_nfs_csi.Storage.Meta.{volumes, snapshots, dir, meta_path, data_path, get, store}
use btrfs_nfs_csi.Storage.Clones.{found_snapshot}

-- The snapshot keeps the properties of its source volume.
abbrev pub snapshot_of : VolumeMetadata → SnapshotCreateRequest → FilePath → ℕ → SnapshotMetadata
snapshot_of v req path now = record {
  name = req.name;
  volume = req.volume;
  path = path;
  size_bytes = v.size_bytes;
  used_bytes = 0;
  exclusive_bytes = 0;
  quota_bytes = v.quota_bytes;
  nocow = v.nocow;
  compression = v.compression;
  uid = v.uid;
  gid = v.gid;
  mode = v.mode;
  labels = req.labels;
  created_at = now;
  updated_at = now;
}

abbrev pub refuse_existing_snapshot : Read SnapshotMetadata → Exec Unit
refuse_existing_snapshot (got v) = fail (snapshot_exists v)
refuse_existing_snapshot _ = pure tt

module _ (host : Host) (cfg : Config) (tenant : Bytes) where
  abbrev pub snapshot_dir : Bytes → FilePath
  snapshot_dir = dir cfg.base_path snapshots tenant

  abbrev pub snapshot_data : Bytes → FilePath
  snapshot_data = data_path cfg.base_path snapshots tenant

  unfoldable pub discard_snapshot : Bytes → Exec Unit
  discard_snapshot name = do
    try_call host (subvolume_delete (snapshot_data name))
    try_call host (remove_all (snapshot_dir name))

  unfoldable pub snapshot_made : Bytes → Outcome → Exec Unit
  snapshot_made name done = pure tt
  snapshot_made name target_exists = fail (storage already_exists)
  snapshot_made name _ =
      try_call host (remove_all (snapshot_dir name)) >> fail (storage internal_error)

  unfoldable pub store_snapshot : SnapshotMetadata → Exec SnapshotMetadata
  store_snapshot v = do
    stored ← store host cfg.base_path snapshots tenant v.name v
    if stored then pure v else (discard_snapshot v.name >> fail wrapped)

  unfoldable pub create_snapshot_locked :
      SnapshotCreateRequest → VolumeMetadata → ℕ → Exec SnapshotMetadata
  create_snapshot_locked req v now = do
    existing ← get host cfg.base_path snapshots tenant req.name
    refuse_existing_snapshot existing
    must host (mkdir_all (snapshot_dir req.name) cfg.default_dir_mode) (pure tt)
        (storage internal_error)
    made ← call host (
        subvolume_snapshot (data_path cfg.base_path volumes tenant req.volume)
          (snapshot_data req.name) true)
    snapshot_made req.name made
    store_snapshot (snapshot_of v req (snapshot_dir req.name) now)

  unfoldable pub create_snapshot : SnapshotCreateRequest → ℕ → Exec SnapshotMetadata
  unfolding create_snapshot_locked
  create_snapshot req now = do
    tenant_path host cfg tenant
    guard (valid_name req.name) validation
    guard (valid_name req.volume) validation
    guard (validate_labels req.labels) validation
    guard (require_immutable_labels cfg.immutable_label_keys req.labels) (storage invalid)
    r ← get host cfg.base_path volumes tenant req.volume
    v ← found_snapshot r
    locked host (meta_path cfg.base_path snapshots tenant req.name) (storage busy)
        (create_snapshot_locked req v now)
