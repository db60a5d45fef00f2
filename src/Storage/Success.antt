-- ===== src/Storage/Success.antt =====
-- CreateVolume: what a success says of the record.
use btrfs_nfs_csi.Base.{
  ℕ, ◌<◌, ◌≡◌, refl, sym, subst, true, false, ◌&&◌, [], some, Bytes, lookup, lookup-insert, eq_refl,
  arith,
}
use btrfs_nfs_csi.Validate.{compresses, valid_name}
use btrfs_nfs_csi.Storage.Model.{VolumeMetadata, VolumeCreateRequest, Error, storage, busy}
use btrfs_nfs_csi.Storage.Host.{
  Host, Config, State, FilePath, Outcome, done, not_exist, target_exists, failed,
}
use btrfs_nfs_csi.Storage.Exec.{Result, ok, err, locked}
use btrfs_nfs_csi.Storage.Exec.Triple.{
  Post, Triple, Triple-pure, Triple-fail, Triple-if, Triple-bind, Triple-lift, Triple-locked,
  Triple-weaken, Triple-fact,
}
use btrfs_nfs_csi.Storage.Meta.{volumes, key, meta_path, store, cache_written}
use btrfs_nfs_csi.Storage.Volumes.{
  validate_create, volume_of, volume_dir, cleanup, store_or_clean, create_locked, create_volume,
}

-- The record of a new volume has what the request asks for, and is one that the checks allow.
abbrev pub Fulfils : VolumeCreateRequest → VolumeMetadata → Type 0
Fulfils req v =
    (v.name ≡ req.name)
    × (v.size_bytes ≡ req.size_bytes)
    × (v.labels ≡ req.labels)
    × (v.exports ≡ [])
    × (valid_name v.name ≡ true)
    × (0 < v.size_bytes)
    × ((v.nocow && compresses v.compression) ≡ false)

pub volume_of-Fulfils :
    (cfg : Config) (req : VolumeCreateRequest) (valid : VolumeCreateRequest × ℕ) (path : FilePath)
    (now : ℕ)
    → validate_create cfg req ≡ ok valid
    → Fulfils req (volume_of path valid.0 now)
unfolding validate_create
volume_of-Fulfils cfg req valid path now h = ground arith

module _ (host : Host) (cfg : Config) (tenant : Bytes) where
  abbrev Cached : VolumeMetadata → State → Type 0
  Cached v s = lookup (key tenant v.name) s.volumes ≡ some v

  abbrev Any : Error → State → Type 0
  Any e s = Unit {0}

  abbrev Start : State → Type 0
  Start s = Unit {0}

  put_rule :
      (v : VolumeMetadata) (w : Outcome)
      → Triple Start
          (cache_written host cfg.base_path volumes (key tenant v.name) v w)
          (λ stored s. stored ≡ true → Cached v s)
          Any
  put_rule v done = record {
    run = λ s h e.
        rw
          (
            lookup-insert (key tenant v.name) (key tenant v.name) v s.volumes,
            eq_refl (key tenant v.name),
          )
          refl;
  }
  put_rule v not_exist = record { run = λ s h e. absurd (cc (e)) }
  put_rule v target_exists = record { run = λ s h e. absurd (cc (e)) }
  put_rule v failed = record { run = λ s h e. absurd (cc (e)) }

  store_or_clean_rule :
      (v : VolumeMetadata)
      → Triple Start (store_or_clean host cfg tenant v) (λ w s. (w ≡ v) × Cached v s) Any
  unfolding store_or_clean store
  store_or_clean_rule v =
      Triple-bind {R = λ stored s. stored ≡ true → Cached v s} _ _
        (Triple-bind _ _ (Triple-fact Unit _) λ w. put_rule v w)
        λ stored.
          Triple-if stored _ _ (λ e. Triple-pure v λ s h. (refl, h e))
            λ e.
              Triple-bind {R = λ a s. Unit} _ _
                (record {
                  run = λ s h. (Triple-fact Unit (cleanup host cfg tenant v.name)).run s tt;
                })
                λ _. Triple-fail _ λ s h. tt

  locked_rule :
      (req : VolumeCreateRequest) (mode now : ℕ)
      → Triple Start
          (create_locked host cfg tenant req mode now)
          (λ w s. (w ≡ volume_of (volume_dir host cfg tenant req.name) req now) × Cached w s)
          Any
  unfolding create_locked
  locked_rule req mode now = Triple-bind _ _ (Triple-fact Unit _) λ _.
      Triple-bind _ _ (Triple-fact Unit _) λ _. Triple-bind _ _ (Triple-fact Unit _) λ _.
        Triple-bind _ _ (Triple-fact Unit _) λ _. Triple-bind _ _ (Triple-fact Unit _) λ _.
          Triple-bind _ _ (Triple-fact Unit _)
            λ _. Triple-weaken (store_or_clean_rule _) λ w s h. (h.0, rw (h.0) (h.1))

  create_rule :
      (req : VolumeCreateRequest) (now : ℕ)
      → Triple Start (create_volume host cfg tenant req now) (λ v s. Fulfils req v × Cached v s) Any
  unfolding create_volume
  create_rule req now = Triple-bind _ _ (Triple-fact Unit _) λ _.
      Triple-bind {R = λ valid s. validate_create cfg req ≡ ok valid} _ _
        (Triple-lift _ (λ valid known s h. known) λ e known s h. tt)
        λ valid. record { run = λ s known. (held valid known).run s tt }
    where
      held :
          (valid : VolumeCreateRequest × ℕ)
          → validate_create cfg req ≡ ok valid
          → Triple Start
              (locked host
                (meta_path cfg.base_path volumes tenant req.name)
                (storage busy)
                (create_locked host cfg tenant valid.0 valid.1 now))
              (λ v s. Fulfils req v × Cached v s)
              Any
      held valid known =
          Triple-locked host _ _ _ (λ s o h. tt) (λ v s o h. h) (λ e s o h. tt) (λ s h. tt)
            (Triple-weaken (locked_rule valid.0 valid.1 now) λ v s h. (
              subst (Fulfils req) (sym h.0) (
                  volume_of-Fulfils cfg req valid (volume_dir host cfg tenant valid.0.name) now
                    known),
              h.1,
            ))

-- Where CreateVolume succeeds, the record that it returns stands in the cache under the key of its
-- name, has the name, the size and the labels of the request and no exports, and is one that the
-- checks allow: a valid name, a size that is not zero, and not both nocow and compression.
pub create_volume-Fulfils :
    (host : Host) (cfg : Config) (tenant : Bytes) (req : VolumeCreateRequest) (now : ℕ)
    (v : VolumeMetadata) (s : State)
    → (create_volume host cfg tenant req now s).0 ≡ ok v
    → Fulfils req v
      × (lookup (key tenant v.name) (create_volume host cfg tenant req now s).1.volumes ≡ some v)
create_volume-Fulfils host cfg tenant req now v s success =
    read (create_volume host cfg tenant req now s).0 (create_volume host cfg tenant req now s).1
      ((create_rule host cfg tenant req now).run s tt) success
  where
    read :
        (r : Result VolumeMetadata) (s' : State)
        → Post
            (λ w s. Fulfils req w × (lookup (key tenant w.name) s.volumes ≡ some w))
            (λ e s. Unit {0})
            r
            s'
        → r ≡ ok v
        → Fulfils req v × (lookup (key tenant v.name) s'.volumes ≡ some v)
    read (ok w) s' h e =
        let same : w ≡ v = ground arith in
        subst (λ x. Fulfils req x × (lookup (key tenant x.name) s'.volumes ≡ some x)) same h
    read (err x) s' h e = absurd (cc (e))
