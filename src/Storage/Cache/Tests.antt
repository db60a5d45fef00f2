-- ===== src/Storage/Cache/Tests.antt =====
-- The caches after a start on a disk with one volume.
use btrfs_nfs_csi.Base.{◌≡◌, refl, true, false, [], ◌∷◌, some, codes, ◌=b◌, insert}
use btrfs_nfs_csi.Storage.Host.{Host, done, got, missing, snapshots_dir}
use btrfs_nfs_csi.Storage.Exec.{◌>>=◌}
use btrfs_nfs_csi.Storage.Meta.{load_from_disk, key}
use btrfs_nfs_csi.Storage.Samples.{cfg, db}
use btrfs_nfs_csi.Storage.Cache.{ReadDir, load_cache}

-- Every volume has its data and its metadata.
abbrev whole_disk : Host
whole_disk = record {
  respond = λ t c. done;
  volume_at = λ t p. got db;
  snapshot_at = λ t p. missing;
}

abbrev two_names : ReadDir
two_names t p =
    some ((codes "db", true) ∷ (codes "lost+found.txt", false) ∷ (snapshots_dir, true) ∷ [])

-- A volume named like the directory of the snapshots is not there after a start.
load_cache_run :
    (load_cache whole_disk cfg two_names
      (codes "t" ∷ [])
      record { volumes = []; snapshots = []; trace = [] }).1.volumes
    ≡ (codes "t/db", db) ∷ []
unfolding load_cache ◌>>=◌ load_from_disk insert key ◌=b◌
load_cache_run = refl
