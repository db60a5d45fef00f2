-- ===== src/Reconciler.antt =====
-- agent/storage/reconciler.go over the interface of agent/storage/nfs/exporter.go, and
-- uniqueExportIPs of agent/storage/model.go.
pub mod Keys
pub mod Synced
mod Tests
use btrfs_nfs_csi.Base.{
  ℕ, zero, suc, ◌≡◌, refl, Bool, true, false, ◌&&◌, ◌||◌, List, [], ◌∷◌, ◌++◌, filter, any, Option,
  none, some, Bytes, codes, Dict, ◌=b◌, ltb, ◌==◌, has_prefix, sort, if◌then◌else◌,
}
use btrfs_nfs_csi.Storage.Model.{ExportMetadata, VolumeMetadata, seen_ips}
use btrfs_nfs_csi.Storage.Host.{FilePath}
use btrfs_nfs_csi.Storage.Meta.{volumes, dir, entries_of}
use btrfs_nfs_csi.Nfs.{ExportInfo, Exporter, lists}

unfoldable pub unique_export_ips : List ExportMetadata → List Bytes
unfolding sort
unique_export_ips clients = sort (seen_ips clients [])

-- The entries below the tenant's directory: `strings.HasPrefix(e.Path, tenantDir+"/")`.
unfoldable pub tenant_exports : Bytes → List ExportInfo → List ExportInfo
tenant_exports tenant_dir entries =
    filter (λ e. has_prefix e.path (tenant_dir ++ codes "/")) entries

-- The keys of the Go map `actualExports`, one for each path.
unfoldable pub path_keys : List ExportInfo → List Bytes → List Bytes
path_keys [] seen = seen
path_keys (e ∷ entries) seen =
    path_keys entries (if any (λ p. e.path =b p) seen then seen else e.path ∷ seen)

-- An absolute path as a text.
unfoldable pub path_text : FilePath → Bytes
path_text [] = []
path_text (segment ∷ path) = b'/' ∷ (segment ++ path_text path)

-- `s.volumes.Dir(tenant, name)`
abbrev pub volume_dir : FilePath → Bytes → Bytes → Bytes
volume_dir base tenant name = path_text (dir base volumes tenant name)

-- `true` where os.Stat finds the path. The file system stands still during one pass.
module _ (E : Exporter) (exists : Bytes → Bool) where
  -- The calls of one path, and the count of those that did not fail.
  abbrev counted : Bool → ℕ → ℕ
  counted ok n = if ok then suc n else n

  unfoldable pub remove_orphans : List Bytes → ℕ → E.State → ℕ × E.State
  remove_orphans [] removed s = (removed, s)
  remove_orphans (path ∷ paths) removed s =
      let r = if exists path then (false, s) else E.unexport path [] s in
      remove_orphans paths (counted r.0 removed) r.1

  -- The clients of one volume, but for those that the listing shows.
  unfoldable pub restore_clients : Bytes → List ExportInfo → List Bytes → ℕ → E.State → ℕ × E.State
  restore_clients volume_dir actual [] restored s = (restored, s)
  restore_clients volume_dir actual (ip ∷ ips) restored s =
      let r = if lists volume_dir ip actual then (false, s) else E.add volume_dir ip s in
      restore_clients volume_dir actual ips (counted r.0 restored) r.1

  -- The volumes of the tenant, by their directories.
  unfoldable pub restore_volumes :
      (Bytes → Bytes) → List ExportInfo → List (Bytes × VolumeMetadata) → ℕ → E.State → ℕ × E.State
  restore_volumes dir_of actual [] restored s = (restored, s)
  restore_volumes dir_of actual ((name, v) ∷ rest) restored s =
      let r = restore_clients (dir_of name) actual (unique_export_ips v.exports) restored s in
      restore_volumes dir_of actual rest r.0 r.1

  -- The two counts behind the listing.
  unfoldable pub reconcile_listed :
      (Bytes → Bytes)
      → List (Bytes × VolumeMetadata)
      → List ExportInfo
      → E.State
      → (ℕ × ℕ) × E.State
  reconcile_listed dir_of entries actual s =
      let gone = remove_orphans (path_keys actual []) 0 s in
      let back = restore_volumes dir_of actual entries 0 gone.1 in ((gone.0, back.0), back.1)

  -- `none` is the return on a listing that failed.
  unfoldable pub reconcile_with :
      Bytes → (Bytes → Bytes) → List (Bytes × VolumeMetadata) → E.State → Option (ℕ × ℕ) × E.State
  reconcile_with tenant_dir dir_of cached s =
      let listed = E.list_exports s in
      elim listed.0 [
        | none ↦ (none, listed.1)
        | some entries ↦
            let r = reconcile_listed dir_of cached (tenant_exports tenant_dir entries) listed.1 in
            (some r.0, r.1)
      ]

  -- One pass for a tenant, over the cached volumes.
  abbrev pub reconcile_exports :
      FilePath → Bytes → Dict VolumeMetadata → E.State → Option (ℕ × ℕ) × E.State
  reconcile_exports base tenant cache =
      reconcile_with (path_text (base ++ tenant ∷ [])) (volume_dir base tenant)
        (entries_of tenant cache)
