-- ===== src/Storage/Layout.antt =====
-- Where entries stand: the keys of the cache and the directories on the disk.
use btrfs_nfs_csi.Base.{
  ◌≡◌, refl, sym, ◌∙◌, ap, true, List, lookup, Option, none, [], ◌∷◌, ◌++◌, some, Bytes, cut,
  cut-append, arith,
}
use btrfs_nfs_csi.Validate.{valid_name, is_name_char}
use btrfs_nfs_csi.Validate.Bounds.{valid_name-Lacks}
use btrfs_nfs_csi.Storage.Model.{VolumeMetadata, SnapshotMetadata}
use btrfs_nfs_csi.Storage.Host.{
  FilePath, snapshots_dir, Event, Read, Config, State, remove_all, done, working,
}
use btrfs_nfs_csi.Storage.Exec.{ok, ◌>>=◌, must}
use btrfs_nfs_csi.Storage.Tenant.{tenant_path}
use btrfs_nfs_csi.Storage.Meta.{volumes, snapshots, key, dir, get, delete_entry}
use btrfs_nfs_csi.Storage.Access.{delete_volume}

pair_eq : (a b : Bytes × Bytes) → some a ≡ some b → (a.0 ≡ b.0) × (a.1 ≡ b.1)
pair_eq a b h = ground arith

-- Two entries share a cache key only if both their tenants and their names are equal, for tenants
-- that are valid names.
pub key_injective :
    (t u a b : Bytes)
    → valid_name t ≡ true
    → valid_name u ≡ true
    → key t a ≡ key u b
    → (t ≡ u) × (a ≡ b)
unfolding key is_name_char
key_injective t u a b ht hu same =
    let left = cut-append b'/' t a (valid_name-Lacks b'/' t refl ht) in
    let right = cut-append b'/' u b (valid_name-Lacks b'/' u refl hu) in
    pair_eq (t, a) (u, b) (sym left ∙ ap (cut b'/') same ∙ right)

assoc : (p q r : FilePath) → (p ++ q) ++ r ≡ p ++ (q ++ r)
assoc [] q r = refl
assoc (x ∷ p) q r = ap (λ l. x ∷ l) (assoc p q r)

snapshots-valid : valid_name snapshots_dir ≡ true
unfolding valid_name is_name_char
snapshots-valid = refl

dir-snapshots :
    (base : FilePath) (tenant name : Bytes)
    → dir base snapshots tenant name ≡ dir base volumes tenant snapshots_dir ++ name ∷ []
unfolding dir
dir-snapshots base tenant name = sym (assoc base (tenant ∷ snapshots_dir ∷ []) (name ∷ []))

abbrev pub latest : List Event → Option Event
latest [] = none
latest (e ∷ events) = some e

-- DeleteVolume accepts "snapshots" as the name of a volume, and its last call then removes a directory
-- that holds the directories of all snapshots of the tenant: where the tenant is a valid name, a volume
-- of that name is in the cache without exports, and every call succeeds.
pub delete_volume-snapshots :
    (volume_at : List Event → FilePath → Read VolumeMetadata)
    (snapshot_at : List Event → FilePath → Read SnapshotMetadata) (cfg : Config) (tenant : Bytes)
    (v : VolumeMetadata) (s : State)
    → valid_name tenant ≡ true
    → lookup (key tenant snapshots_dir) s.volumes ≡ some v
    → v.exports ≡ []
    → (let r = delete_volume (working volume_at snapshot_at) cfg tenant snapshots_dir s in
        (p : FilePath) × (r.0 ≡ ok tt)
        × (latest r.1.trace ≡ some (remove_all p, done))
        × ((name : Bytes) → dir cfg.base_path snapshots tenant name ≡ p ++ name ∷ []))
unfolding delete_volume ◌>>=◌ tenant_path get must delete_entry lookup
delete_volume-snapshots volume_at snapshot_at cfg tenant v s good known unused = (
  dir cfg.base_path volumes tenant snapshots_dir,
  rw (good, snapshots-valid, known, unused) refl,
  rw (good, snapshots-valid, known, unused) refl,
  dir-snapshots cfg.base_path tenant,
)
