-- ===== src/Storage/Volumes.antt =====
-- agent/storage/volume.go: the handlers of volumes.
use btrfs_nfs_csi.Base.{ℕ, not, ◌&&◌, [], none, some, Bytes, ◌=b◌, ◌==◌, if◌then◌else◌}
use btrfs_nfs_csi.Validate.{
  valid_name, validate_labels, validate_uid, validate_gid, validate_mode, is_valid_compression,
  compresses,
}
use btrfs_nfs_csi.FileMode.{file_mode}
use btrfs_nfs_csi.Storage.Model.{
  VolumeMetadata, VolumeCreateRequest, validation, storage, volume_exists, wrapped, invalid,
  already_exists, busy, internal_error,
}
use btrfs_nfs_csi.Storage.Host.{
  Host, Config, Outcome, done, target_exists, Read, got, FilePath, mkdir_all, remove_all,
  subvolume_create, subvolume_delete, set_nocow, set_compression, qgroup_limit, chmod, chown,
}
use btrfs_nfs_csi.Storage.Exec.{
  Exec, Result, ok, err, ◌>>=◌, ◌>>◌, pure, fail, lift, when, call, try_call, must, locked,
}
use btrfs_nfs_csi.Storage.Tenant.{tenant_path}
use btrfs_nfs_csi.Storage.Labels.{require_immutable_labels}
use btrfs_nfs_csi.Storage.Meta.{volumes, dir, meta_path, data_path, get, store}

-- `if req.QuotaBytes == 0 { req.QuotaBytes = req.SizeBytes }` and the default mode.
abbrev pub with_defaults : Config → VolumeCreateRequest → VolumeCreateRequest
with_defaults cfg req = record req {
  quota_bytes = if req.quota_bytes == 0 then req.size_bytes else req.quota_bytes;
  mode = if req.mode =b [] then cfg.default_data_mode else req.mode;
}

-- The validation part of CreateVolume, in its order, with the request and the mode that follow.
unfoldable pub validate_create : Config → VolumeCreateRequest → Result (VolumeCreateRequest × ℕ)
validate_create cfg req =
    if not (valid_name req.name)
    then err validation
    else if req.size_bytes == 0
    then err (storage invalid)
    else if req.nocow && compresses req.compression
    then err (storage invalid)
    else if not (is_valid_compression req.compression)
    then err (storage invalid)
    else if not (validate_labels req.labels)
    then err validation
    else if not (require_immutable_labels cfg.immutable_label_keys req.labels)
    then err (storage invalid)
    else if not (validate_uid req.uid)
    then err (storage invalid)
    else if not (validate_gid req.gid)
    then err (storage invalid)
    else elim (validate_mode (with_defaults cfg req).mode) [
      | none ↦ err (storage invalid)
      | some mode ↦ ok (with_defaults cfg req, mode)
    ]

abbrev pub volume_of : FilePath → VolumeCreateRequest → ℕ → VolumeMetadata
volume_of path req now = record {
  name = req.name;
  path = path;
  size_bytes = req.size_bytes;
  nocow = req.nocow;
  compression = req.compression;
  quota_bytes = req.quota_bytes;
  used_bytes = 0;
  uid = req.uid;
  gid = req.gid;
  mode = req.mode;
  labels = req.labels;
  exports = [];
  created_at = now;
  updated_at = now;
  last_attach_at = none;
}

-- The cache check under the lock: an entry that is there is returned beside the error.
abbrev pub refuse_existing : Read VolumeMetadata → Exec Unit
refuse_existing (got v) = fail (volume_exists v)
refuse_existing _ = pure tt

-- btrfs.Manager.SetCompression checks the algorithm before it runs the tool.
abbrev pub must_compress : Host → FilePath → Bytes → Exec Unit → Exec Unit
must_compress host p algo cleanup =
    if is_valid_compression algo
    then must host (set_compression p algo) cleanup wrapped
    else cleanup >> fail wrapped

module _ (host : Host) (cfg : Config) (tenant : Bytes) where
  abbrev pub volume_dir : Bytes → FilePath
  volume_dir = dir cfg.base_path volumes tenant

  abbrev pub volume_data : Bytes → FilePath
  volume_data = data_path cfg.base_path volumes tenant

  -- The closure `cleanup` of the create handlers.
  unfoldable pub cleanup : Bytes → Exec Unit
  cleanup name = do
    try_call host (subvolume_delete (volume_data name))
    try_call host (remove_all (volume_dir name))

  unfoldable pub subvolume_created : Bytes → Outcome → Exec Unit
  subvolume_created name done = pure tt
  subvolume_created name target_exists = fail (storage already_exists)
  subvolume_created name _ =
      try_call host (remove_all (volume_dir name)) >> fail (storage internal_error)

  unfoldable pub store_or_clean : VolumeMetadata → Exec VolumeMetadata
  store_or_clean v = do
    stored ← store host cfg.base_path volumes tenant v.name v
    if stored then pure v else (cleanup v.name >> fail wrapped)

  -- What CreateVolume does with the fresh subvolume, up to the metadata.
  unfoldable pub configure : VolumeCreateRequest → ℕ → Exec Unit
  configure req mode = do
    when req.nocow (must host (set_nocow (volume_data req.name)) (cleanup req.name) wrapped)
    when (compresses req.compression)
        (must_compress host (volume_data req.name) req.compression (cleanup req.name))
    when cfg.quota_enabled
        (must host (qgroup_limit (volume_data req.name) req.quota_bytes) (cleanup req.name) wrapped)
    try_call host (chmod (volume_data req.name) (file_mode mode))
    try_call host (chown (volume_data req.name) req.uid req.gid)

  unfoldable pub create_locked : VolumeCreateRequest → ℕ → ℕ → Exec VolumeMetadata
  create_locked req mode now = do
    existing ← get host cfg.base_path volumes tenant req.name
    refuse_existing existing
    must host (mkdir_all (volume_dir req.name) cfg.default_dir_mode) (pure tt)
        (storage internal_error)
    made ← call host (subvolume_create (volume_data req.name))
    subvolume_created req.name made
    configure req mode
    store_or_clean (volume_of (volume_dir req.name) req now)

  unfoldable pub create_volume : VolumeCreateRequest → ℕ → Exec VolumeMetadata
  unfolding create_locked
  create_volume req now = do
    tenant_path host cfg tenant
    valid ← lift (validate_create cfg req)
    locked host (meta_path cfg.base_path volumes tenant req.name) (storage busy)
        (create_locked valid.0 valid.1 now)
