-- ===== src/Storage/Access.antt =====
-- agent/storage/volume.go and snapshot.go: the handlers that read, list and delete.
use btrfs_nfs_csi.Base.{not, ◌||◌, List, [], map, filter, Bytes, ◌=b◌, ltb, length}
use btrfs_nfs_csi.Validate.{valid_name}
use btrfs_nfs_csi.Storage.Model.{
  VolumeMetadata, SnapshotMetadata, validation, storage, wrapped, not_found, busy, metadata_error,
}
use btrfs_nfs_csi.Storage.Host.{
  Host, Config, State, Read, got, missing, broken, remove_all, subvolume_delete,
}
use btrfs_nfs_csi.Storage.Exec.{Exec, ok, ◌>>=◌, ◌>>◌, pure, fail, guard, must}
use btrfs_nfs_csi.Storage.Tenant.{tenant_path}
use btrfs_nfs_csi.Storage.Meta.{
  Store, volumes, snapshots, dir, data_path, get, delete_entry, exists_entry, entries_of,
}

-- The error of a read through the cache, as the handlers that return a record report it.
unfoldable pub found_or : {T : Type 0} → Read T → Exec T
found_or (got v) = pure v
found_or missing = fail (storage not_found)
found_or broken = fail (storage metadata_error)

module _ (host : Host) (cfg : Config) (tenant : Bytes) where
  -- GetVolume and GetSnapshot differ in the store alone.
  unfoldable pub get_entry : {T : Type 0} → Store T → Bytes → Exec T
  unfolding found_or
  get_entry st name = do
    tenant_path host cfg tenant
    guard (valid_name name) validation
    r ← get host cfg.base_path st tenant name
    found_or r

  unfoldable pub get_volume : Bytes → Exec VolumeMetadata
  unfolding get_entry
  get_volume = get_entry volumes

  unfoldable pub get_snapshot : Bytes → Exec SnapshotMetadata
  unfolding get_entry
  get_snapshot = get_entry snapshots

  read_cache : {T : Type 0} → (State → List T) → Exec (List T)
  read_cache f s = (ok (f s), s)

  unfoldable pub list_volumes : Exec (List VolumeMetadata)
  unfolding read_cache
  list_volumes = do
    tenant_path host cfg tenant
    read_cache (λ s. map (λ e. e.1) (entries_of tenant s.volumes))

  unfoldable pub list_snapshots : Bytes → Exec (List SnapshotMetadata)
  unfolding read_cache
  list_snapshots volume = do
    tenant_path host cfg tenant
    read_cache (λ s.
        filter (λ v. (volume =b []) || (v.volume =b volume))
          (map (λ e. e.1) (entries_of tenant s.snapshots)))

  -- The end of both deletes: the subvolume, the cache entry, the directory.
  unfoldable pub remove_entry : {T : Type 0} → Store T → Bytes → Exec Unit
  remove_entry st name = do
    must host (subvolume_delete (data_path cfg.base_path st tenant name)) (pure tt) wrapped
    delete_entry host cfg.base_path st tenant name
    must host (remove_all (dir cfg.base_path st tenant name)) (pure tt) wrapped

  unfoldable pub not_exported : Read VolumeMetadata → Exec Unit
  not_exported (got v) = guard (not (ltb 0 (length v.exports))) (storage busy)
  not_exported missing = fail (storage not_found)
  not_exported broken = fail wrapped

  unfoldable pub delete_volume : Bytes → Exec Unit
  unfolding not_exported remove_entry
  delete_volume name = do
    tenant_path host cfg tenant
    guard (valid_name name) validation
    r ← get host cfg.base_path volumes tenant name
    not_exported r
    remove_entry volumes name

  check_exists : Bytes → Exec Unit
  check_exists name s = guard (exists_entry snapshots tenant name s) (storage not_found) s

  unfoldable pub delete_snapshot : Bytes → Exec Unit
  unfolding check_exists remove_entry
  delete_snapshot name = do
    tenant_path host cfg tenant
    guard (valid_name name) validation
    check_exists name
    remove_entry snapshots name
