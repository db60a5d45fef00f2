-- ===== src/Storage/Cache.antt =====
-- loadCache of agent/storage/storage.go: the caches after a start, from the directories of the tenants.
mod Tests
use btrfs_nfs_csi.Base.{
  ◌≡◌, refl, Bool, true, false, not, ◌||◌, List, [], ◌∷◌, ◌++◌, Option, none, some, Bytes, codes,
  ◌=b◌, insert, if◌then◌else◌,
}
use btrfs_nfs_csi.Storage.Model.{VolumeMetadata}
use btrfs_nfs_csi.Storage.Host.{
  FilePath, stat, Event, Host, Config, State, Outcome, done, not_exist, target_exists, failed, Read,
  got, missing, broken, snapshots_dir,
}
use btrfs_nfs_csi.Storage.Exec.{Exec, ok, err, ◌>>=◌, ◌>>◌, pure, call}
use btrfs_nfs_csi.Storage.Meta.{Store, volumes, snapshots, data_path, load_from_disk, key}

-- The name of an entry of a directory, and whether it is a directory itself.
abbrev pub DirEntry : Type 0
DirEntry = Bytes × Bool

-- What os.ReadDir yields, `none` for an error.
abbrev pub ReadDir : Type 0
ReadDir = List Event → FilePath → Option (List DirEntry)

module _ (host : Host) (cfg : Config) (tenant : Bytes) where
  -- Whether a name is passed over is asked first; a directory without its data is a phantom.
  unfoldable pub load_entry : {T : Type 0} → Store T → (Bytes → Bool) → DirEntry → Exec Unit
  load_entry st skipped (name, false) = pure tt
  load_entry st skipped (name, true) = if skipped name then pure tt else (do
    o ← call host (stat (data_path cfg.base_path st tenant name))
    elim o [
      | not_exist ↦ pure tt
      | _ ↦ (do r ← load_from_disk host cfg.base_path st tenant name; pure tt)
    ])

  unfoldable pub load_entries : {T : Type 0} → Store T → (Bytes → Bool) → List DirEntry → Exec Unit
  unfolding load_entry
  load_entries st skipped [] = pure tt
  load_entries st skipped (e ∷ entries) = do
    load_entry st skipped e
    load_entries st skipped entries

  -- A directory that cannot be read is passed over.
  unfoldable pub load_dir : {T : Type 0} → ReadDir → FilePath → Store T → (Bytes → Bool) → Exec Unit
  unfolding load_entries
  load_dir read_dir p st skipped s = elim (read_dir s.trace p) [
    | none ↦ (ok tt, s)
    | some entries ↦ load_entries st skipped entries s
  ]

  unfoldable pub load_tenant : ReadDir → Exec Unit
  unfolding load_dir
  load_tenant read_dir = do
    load_dir read_dir (cfg.base_path ++ tenant ∷ []) volumes (λ name. name =b snapshots_dir)
    load_dir read_dir (cfg.base_path ++ tenant ∷ snapshots_dir ∷ []) snapshots (λ name. false)

unfoldable pub load_cache : Host → Config → ReadDir → List Bytes → Exec Unit
unfolding load_tenant
load_cache host cfg read_dir [] = pure tt
load_cache host cfg read_dir (tenant ∷ tenants) = do
  load_tenant host cfg tenant read_dir
  load_cache host cfg read_dir tenants
