-- ===== src/Storage/Tenant.antt =====
-- agent/storage/storage.go: tenantPath.
use btrfs_nfs_csi.Base.{[], ◌∷◌, ◌++◌, Bytes, Bool, true, false}
use btrfs_nfs_csi.Validate.{valid_name}
use btrfs_nfs_csi.Storage.Model.{validation, storage, not_found}
use btrfs_nfs_csi.Storage.Host.{stat, Outcome, not_exist, Host, Config}
use btrfs_nfs_csi.Storage.Exec.{Exec, ◌>>=◌, ◌>>◌, guard, call}

-- Whether a stat error says anything but that the path does not exist.
abbrev pub may_exist : Outcome → Bool
may_exist not_exist = false
may_exist _ = true

unfoldable pub tenant_path : Host → Config → Bytes → Exec Unit
tenant_path host cfg tenant = do
  guard (valid_name tenant) validation
  found ← call host (stat (cfg.base_path ++ tenant ∷ []))
  guard (may_exist found) (storage not_found)
