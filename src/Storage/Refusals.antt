-- ===== src/Storage/Refusals.antt =====
-- What a refused or failed handler leaves as it was.
use btrfs_nfs_csi.Base.{
  ℕ, ◌<◌, ◌≡◌, refl, Bool, true, not, List, Option, some, Bytes, lookup, lookup-insert, eq_refl,
  length, drop, ◌++◌, ltb, arith,
}
use btrfs_nfs_csi.Validate.{Labels}
use btrfs_nfs_csi.Storage.Exports.{stays, remove_export, overwritten}
use btrfs_nfs_csi.Storage.InPlace.{filter_in_place-filter}
use btrfs_nfs_csi.Storage.Success.{volume_of-Fulfils}
use btrfs_nfs_csi.Storage.Volumes.{validate_create, refuse_existing, create_locked, create_volume}
use btrfs_nfs_csi.Base.{◌∙◌, []}
use btrfs_nfs_csi.Storage.Exec.{lift, locked}
use btrfs_nfs_csi.Storage.Exec.Triple.{Triple-lift, Triple-locked}
use btrfs_nfs_csi.Storage.Meta.{meta_path}
use btrfs_nfs_csi.Storage.Model.{VolumeCreateRequest, VolumeMetadata, Error, storage, busy}
use btrfs_nfs_csi.Storage.Host.{
  Host, Config, State, FilePath, Read, got, missing, broken, Event, write_file, failed, Document,
}
use btrfs_nfs_csi.Storage.Exec.{Result, ok, err, ◌>>=◌, guard, call, try_call, is_done}
use btrfs_nfs_csi.Storage.Exec.Triple.{
  Post, Triple, Triple-bind, Triple-guard, Triple-call, Triple-weaken, Triple-fail,
}
use btrfs_nfs_csi.Storage.Disk.{has_subvolume}
use btrfs_nfs_csi.Storage.Tenant.{tenant_path}
use btrfs_nfs_csi.Storage.Meta.{volumes, key, get, update, unwritable, write_json_atomic}
use btrfs_nfs_csi.Storage.Access.{delete_volume, not_exported}

module _ (host : Host) (cfg : Config) (tenant name : Bytes) (v : VolumeMetadata) (p : FilePath)
    (b : Bool) where
  -- The cached record and the subvolume at any one path.
  abbrev Held : State → Type 0
  Held s = (lookup (key tenant name) s.volumes ≡ some v) × (has_subvolume p s.trace ≡ b)

  abbrev Never : Unit {0} → State → Type 0
  Never a s = ⊥

  held_guard : (g : Bool) (e : Error) → Triple Held (guard g e) (λ _. Held) (λ _. Held)
  held_guard g e = Triple-weaken (Triple-guard g e λ s h. h) λ a s h. h.1

  held_tenant : Triple Held (tenant_path host cfg tenant) (λ _. Held) (λ _. Held)
  unfolding tenant_path
  held_tenant =
      Triple-bind _ _ (held_guard _ _)
        λ _. Triple-bind _ _ (Triple-call host _ λ s h. h) λ o. held_guard _ _

  held_get :
      Triple Held
        (get host cfg.base_path volumes tenant name)
        (λ r s. (r ≡ got v) × Held s)
        (λ _. Held)
  unfolding get
  held_get = record { run = λ s h. rw (h.0, get) (refl, h) }

  held_refuse :
      0 < length v.exports
      → (r : Read VolumeMetadata)
      → Triple (λ s. (r ≡ got v) × Held s) (not_exported host cfg tenant r) Never (λ _. Held)
  unfolding not_exported
  held_refuse used (got w) =
      Triple-weaken (Triple-guard _ _ λ s h. h.1) λ a s h. spoiled w h.0 h.1.0
    where
      spoiled : (w : VolumeMetadata) → not (ltb 0 (length w.exports)) ≡ true → got w ≡ got v → ⊥
      spoiled w unused same =
          let it : w ≡ v = ground arith in
          let more : 0 < length w.exports = rw it used in ground arith
  held_refuse used missing = Triple-fail _ λ s h. h.1
  held_refuse used broken = Triple-fail _ λ s h. h.1

  refused :
      0 < length v.exports → Triple Held (delete_volume host cfg tenant name) Never (λ _. Held)
  unfolding delete_volume
  refused used = Triple-bind _ _ held_tenant λ _. Triple-bind _ _ (held_guard _ _) λ _.
      Triple-bind _ _ held_get
        λ r. Triple-bind _ _ (held_refuse used r) λ _. record { run = λ s h. absurd h }

  held_lift :
      {A : Type 0} (r : Result A) → Triple Held (lift r) (λ a s. (r ≡ ok a) × Held s) (λ _. Held)
  held_lift r = Triple-lift r (λ a k s h. (k, h)) λ e k s h. h

  held_existing :
      (r : Read VolumeMetadata)
      → Triple (λ s. (r ≡ got v) × Held s) (refuse_existing r) Never (λ _. Held)
  held_existing (got w) = Triple-fail _ λ s h. h.1
  held_existing missing = record { run = λ s h. absurd (cc (h.0)) }
  held_existing broken = record { run = λ s h. absurd (cc (h.0)) }

  locked_conflict :
      (req : VolumeCreateRequest) (mode now : ℕ)
      → req.name ≡ name
      → Triple Held (create_locked host cfg tenant req mode now) (λ _ _. ⊥) (λ _. Held)
  unfolding create_locked
  locked_conflict req mode now same =
      Triple-bind {R = λ r s. (r ≡ got v) × Held s} _ _ (rw same held_get)
        λ r. Triple-bind _ _ (held_existing r) λ _. record { run = λ s h. absurd h }

  conflict :
      (req : VolumeCreateRequest) (now : ℕ)
      → req.name ≡ name
      → Triple Held (create_volume host cfg tenant req now) (λ _ _. ⊥) (λ _. Held)
  unfolding create_volume
  conflict req now same = Triple-bind _ _ held_tenant λ _.
      Triple-bind _ _ (held_lift (validate_create cfg req))
        λ valid. record { run = λ s h. (held valid h.0).run s h.1 }
    where
      held :
          (valid : VolumeCreateRequest × ℕ)
          → validate_create cfg req ≡ ok valid
          → Triple Held
              (locked host
                (meta_path cfg.base_path volumes tenant req.name)
                (storage busy)
                (create_locked host cfg tenant valid.0 valid.1 now))
              (λ _ _. ⊥)
              (λ _. Held)
      held valid known =
          Triple-locked host _ _ _ (λ s o h. h) (λ a s o h. h) (λ e s o h. h) (λ s h. h)
            (locked_conflict valid.0 valid.1 now
              ((volume_of-Fulfils cfg req valid [] now known).0 ∙ same))

-- The action ends in an error, and the cached record and the subvolume at a path stay.
abbrev pub Refused :
    {A : Type 0} → Bytes → Bytes → VolumeMetadata → FilePath → State → Result A × State → Type 0
Refused tenant name v p s (r, s') =
    ((e : Error) × (r ≡ err e))
    × (lookup (key tenant name) s'.volumes ≡ some v)
    × (has_subvolume p s'.trace ≡ has_subvolume p s.trace)

Held-Refused :
    {A : Type 0} (host : Host) (cfg : Config) (tenant name : Bytes) (v : VolumeMetadata)
    (p : FilePath) (s : State) (r : Result A) (s' : State)
    → Post (λ _ _. ⊥) (λ _. Held host cfg tenant name v p (has_subvolume p s.trace)) r s'
    → Refused tenant name v p s (r, s')
Held-Refused host cfg tenant name v p s (ok a) s' h = absurd h
Held-Refused host cfg tenant name v p s (err e) s' h = ((e, refl), h.0, h.1)

-- DeleteVolume on a volume whose cached record has exports is refused: it ends in an error, and the
-- record and every subvolume stay.
pub delete_volume-Refused :
    (host : Host) (cfg : Config) (tenant name : Bytes) (v : VolumeMetadata) (s : State)
    → lookup (key tenant name) s.volumes ≡ some v
    → 0 < length v.exports
    → (p : FilePath) → Refused tenant name v p s (delete_volume host cfg tenant name s)
delete_volume-Refused host cfg tenant name v s known used p =
    Held-Refused host cfg tenant name v p s _ _
      ((refused host cfg tenant name v p (has_subvolume p s.trace) used).run s (known, refl))

-- CreateVolume for a name that has a record in the cache never succeeds: it ends in an error, and
-- the record and every subvolume stay.
pub create_volume-Refused :
    (host : Host) (cfg : Config) (tenant : Bytes) (req : VolumeCreateRequest) (now : ℕ)
    (v : VolumeMetadata) (s : State)
    → lookup (key tenant req.name) s.volumes ≡ some v
    → (p : FilePath) → Refused tenant req.name v p s (create_volume host cfg tenant req now s)
create_volume-Refused host cfg tenant req now v s known p =
    Held-Refused host cfg tenant req.name v p s _ _ (
      (conflict host cfg tenant req.name v p (has_subvolume p s.trace) req now refl).run s
        (known, refl))

-- An Update whose file cannot be written leaves in the cache what the caller's function has made of
-- the arrays that it shares with the cached record.
pub update-unwritable :
    (host : Host) (base : FilePath) (tenant name : Bytes)
    (change alias : VolumeMetadata → VolumeMetadata) (v : VolumeMetadata) (s : State)
    → ((t : List Event) (p : FilePath) (d : Document) → host.respond t (write_file p d) ≡ failed)
    → lookup (key tenant name) s.volumes ≡ some v
    → ((update host base volumes tenant name change alias s).0 ≡ ok unwritable)
      × (lookup (key tenant name) (update host base volumes tenant name change alias s).1.volumes
          ≡ some (alias v))
unfolding update get write_json_atomic try_call call ◌>>=◌
update-unwritable host base tenant name change alias v s full known =
    rw (known, get, full, is_done)
      (
        refl,
        rw
            (
              lookup-insert (key tenant name) (key tenant name) (alias v) s.volumes,
              eq_refl (key tenant name),
            )
            refl,
      )

-- Where the Update of DeleteVolumeExport cannot write the metadata file it fails, and the cached
-- record then has the kept exports followed by the rest of its old list.
pub delete_export-unwritable :
    (host : Host) (base : FilePath) (tenant name client : Bytes) (labels : Option Labels) (now : ℕ)
    (v : VolumeMetadata) (s : State)
    → ((t : List Event) (p : FilePath) (d : Document) → host.respond t (write_file p d) ≡ failed)
    → lookup (key tenant name) s.volumes ≡ some v
    → ((update host base volumes tenant name
          (remove_export client labels now)
          (overwritten client labels)
          s).0
        ≡ ok unwritable)
      × ((w : VolumeMetadata) × (lookup
              (key tenant name)
              (update host base volumes tenant name
                (remove_export client labels now)
                (overwritten client labels)
                s).1.volumes
            ≡ some w)
          × (w.exports
              ≡ (remove_export client labels now v).exports
                ++ drop (length (remove_export client labels now v).exports) v.exports))
unfolding remove_export overwritten
delete_export-unwritable host base tenant name client labels now v s full known =
    let (refused, left) =
      update-unwritable host base tenant name (remove_export client labels now)
        (overwritten client labels) v s full known in
    (
      refused,
      (overwritten client labels v, left, filter_in_place-filter (stays client labels) v.exports),
    )
