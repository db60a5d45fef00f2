-- ===== src/Storage/Clones.antt =====
-- agent/storage/volume.go: CloneVolume; agent/storage/clone.go: CreateClone.
use btrfs_nfs_csi.Base.{ℕ, false, ◌&&◌, [], none, Bytes, codes, ltb, insert}
use btrfs_nfs_csi.Validate.{
  Labels, valid_name, validate_labels, label_clone_source_type, label_clone_source_name,
}
use btrfs_nfs_csi.Storage.Model.{
  VolumeMetadata, SnapshotMetadata, VolumeCloneRequest, CloneCreateRequest, validation, storage,
  wrapped, invalid, busy, not_found, already_exists, internal_error,
}
use btrfs_nfs_csi.Storage.Host.{
  Host, Config, FilePath, Outcome, done, target_exists, mkdir_all, subvolume_snapshot, qgroup_limit,
  Read, got,
}
use btrfs_nfs_csi.Storage.Exec.{Exec, ◌>>=◌, ◌>>◌, pure, fail, guard, when, call, must, locked}
use btrfs_nfs_csi.Storage.Tenant.{tenant_path}
use btrfs_nfs_csi.Storage.Labels.{require_immutable_labels}
use btrfs_nfs_csi.Storage.Meta.{volumes, snapshots, meta_path, data_path, get}
use btrfs_nfs_csi.Storage.Volumes.{
  volume_dir, volume_data, cleanup, refuse_existing, store_or_clean, subvolume_created,
}
use btrfs_nfs_csi.Storage.Access.{get_volume}

-- The labels of a clone: where it comes from is written over the request's own labels.
unfoldable pub clone_labels : Bytes → Bytes → Labels → Labels
clone_labels kind source labels =
    insert label_clone_source_name source (insert label_clone_source_type kind labels)

-- The record of a clone has the properties of its source and no exports.
abbrev pub cloned_from : VolumeMetadata → Bytes → FilePath → Labels → ℕ → VolumeMetadata
cloned_from src name path labels now = record {
  name = name;
  path = path;
  size_bytes = src.size_bytes;
  nocow = src.nocow;
  compression = src.compression;
  quota_bytes = src.quota_bytes;
  used_bytes = 0;
  uid = src.uid;
  gid = src.gid;
  mode = src.mode;
  labels = labels;
  exports = [];
  created_at = now;
  updated_at = now;
  last_attach_at = none;
}

-- The properties that CreateClone falls back to when the snapshot's volume is gone.
abbrev pub volume_of_snapshot : SnapshotMetadata → VolumeMetadata
volume_of_snapshot snap = record {
  name = [];
  path = [];
  size_bytes = snap.size_bytes;
  nocow = snap.nocow;
  compression = snap.compression;
  quota_bytes = snap.quota_bytes;
  used_bytes = 0;
  uid = snap.uid;
  gid = snap.gid;
  mode = snap.mode;
  labels = [];
  exports = [];
  created_at = 0;
  updated_at = 0;
  last_attach_at = none;
}

unfoldable pub source_of : SnapshotMetadata → Read VolumeMetadata → VolumeMetadata
source_of snap (got v) = v
source_of snap _ = volume_of_snapshot snap

-- The snapshot that a clone is made from: any failure to read it is NOT_FOUND.
unfoldable pub found_snapshot : {T : Type 0} → Read T → Exec T
found_snapshot (got v) = pure v
found_snapshot _ = fail (storage not_found)

module _ (host : Host) (cfg : Config) (tenant : Bytes) where
  -- CloneVolume removes the directory and the target subvolume after a snapshot that failed.
  unfoldable pub clone_made : Bytes → Outcome → Exec Unit
  clone_made name done = pure tt
  clone_made name target_exists = fail (storage already_exists)
  clone_made name _ = cleanup host cfg tenant name >> fail (storage internal_error)

  unfoldable pub check_clone : Bytes → Labels → Exec Unit
  check_clone name labels = do
    guard (validate_labels labels) validation
    guard (require_immutable_labels cfg.immutable_label_keys labels) (storage invalid)

  unfoldable pub clone_volume_locked :
      Bytes → VolumeMetadata → Labels → Bytes → ℕ → Exec VolumeMetadata
  unfolding clone_made
  clone_volume_locked source src labels name now = do
    existing ← get host cfg.base_path volumes tenant name
    refuse_existing existing
    must host (mkdir_all (volume_dir host cfg tenant name) cfg.default_dir_mode) (pure tt)
        (storage internal_error)
    made ← call host (
        subvolume_snapshot (volume_data host cfg tenant source) (volume_data host cfg tenant name)
          false)
    clone_made name made
    when cfg.quota_enabled (
        must host (qgroup_limit (volume_data host cfg tenant name) src.quota_bytes)
          (cleanup host cfg tenant name) wrapped)
    store_or_clean host cfg tenant
        (cloned_from src name (volume_dir host cfg tenant name) labels now)

  unfoldable pub clone_volume : VolumeCloneRequest → ℕ → Exec VolumeMetadata
  unfolding check_clone clone_volume_locked
  clone_volume req now = do
    tenant_path host cfg tenant
    guard (valid_name req.name) validation
    check_clone req.name (clone_labels (codes "volume") req.source req.labels)
    src ← get_volume host cfg tenant req.source
    locked host (meta_path cfg.base_path volumes tenant req.name) (storage busy) (
        clone_volume_locked req.source src (clone_labels (codes "volume") req.source req.labels)
          req.name now)

  unfoldable pub create_clone_locked :
      Bytes → VolumeMetadata → Labels → Bytes → ℕ → Exec VolumeMetadata
  create_clone_locked snapshot src labels name now = do
    existing ← get host cfg.base_path volumes tenant name
    refuse_existing existing
    must host (mkdir_all (volume_dir host cfg tenant name) cfg.default_dir_mode) (pure tt)
        (storage internal_error)
    made ← call host (
        subvolume_snapshot (data_path cfg.base_path snapshots tenant snapshot)
          (volume_data host cfg tenant name) false)
    subvolume_created host cfg tenant name made
    when (cfg.quota_enabled && ltb 0 src.quota_bytes) (
        must host (qgroup_limit (volume_data host cfg tenant name) src.quota_bytes)
          (cleanup host cfg tenant name) wrapped)
    store_or_clean host cfg tenant
        (cloned_from src name (volume_dir host cfg tenant name) labels now)

  unfoldable pub create_clone : CloneCreateRequest → ℕ → Exec VolumeMetadata
  unfolding check_clone create_clone_locked
  create_clone req now = do
    tenant_path host cfg tenant
    guard (valid_name req.name) validation
    guard (valid_name req.snapshot) validation
    check_clone req.name (clone_labels (codes "snapshot") req.snapshot req.labels)
    r ← get host cfg.base_path snapshots tenant req.snapshot
    snap ← found_snapshot r
    v ← get host cfg.base_path volumes tenant snap.volume
    locked host (meta_path cfg.base_path volumes tenant req.name) (storage busy) (
        create_clone_locked req.snapshot (source_of snap v)
          (clone_labels (codes "snapshot") req.snapshot req.labels) req.name now)
