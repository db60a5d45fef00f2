-- ===== src/Storage/Orphans/Created.antt =====
-- CreateVolume and CreateSnapshot leave no subvolume behind when they fail.
use btrfs_nfs_csi.Base.{ℕ, ◌≡◌, refl, Bool, true, List, Bytes, arith, subst}
use btrfs_nfs_csi.Validate.{compresses, is_valid_compression}
use btrfs_nfs_csi.FileMode.{file_mode}
use btrfs_nfs_csi.Storage.Model.{
  VolumeMetadata, VolumeCreateRequest, wrapped, volume_exists, storage, busy, already_exists,
  internal_error,
}
use btrfs_nfs_csi.Storage.Host.{
  Host, Config, State, Event, FilePath, Outcome, done, not_exist, target_exists, failed,
  subvolume_delete, chmod, chown, Read, got, missing, broken,
}
use btrfs_nfs_csi.Storage.Exec.{Exec, ok, locked}
use btrfs_nfs_csi.Storage.Exec.Triple.{
  Triple, Triple-pure, Triple-fail, Triple-if, Triple-bind, Triple-when, Triple-try, Triple-call,
  Triple-lift, Answered,
}
use btrfs_nfs_csi.Storage.Meta.{volumes, meta_path}
use btrfs_nfs_csi.Storage.Meta.Frame.{get_rule, store_rule}
use btrfs_nfs_csi.Storage.Volumes.{
  validate_create, volume_data, cleanup, subvolume_created, configure, store_or_clean,
  create_locked, create_volume, refuse_existing,
}
use btrfs_nfs_csi.Storage.Orphans.{
  Settled, made, Made, Gone, Made-Gone, meta_keeps, before_rule, create-Answered, cleanup_rule,
  fresh_rule, tenant_rule, locked_rule, settled,
}

module _ (host : Host) (cfg : Config) (tenant : Bytes)
    (deletes : (t : List Event) (q : FilePath) → host.respond t (subvolume_delete q) ≡ done) where
  module _ (b : Bool) where
    pub store_or_clean_rule :
        (v : VolumeMetadata)
        → Triple
            (Made (volume_data host cfg tenant v.name) true)
            (store_or_clean host cfg tenant v)
            (λ _. Made (volume_data host cfg tenant v.name) true)
            (Gone (volume_data host cfg tenant v.name) b)
    unfolding store_or_clean cleanup
    store_or_clean_rule v =
        Triple-bind _ _
          (store_rule host cfg.base_path volumes (meta_keeps _ true) tenant v.name (λ s w h. h) v)
          λ stored.
            Triple-if stored _ _ (λ _. Triple-pure v λ s h. h)
              (λ _. cleanup_rule _ host deletes b true _ wrapped)

    pub refuse_rule :
        (p : FilePath) (r : Read VolumeMetadata)
        → Triple (Made p b) (refuse_existing r) (λ _. Made p b) (Gone p b)
    refuse_rule p (got v) = Triple-fail _ λ s h. Made-Gone p b (volume_exists v) s h
    refuse_rule p missing = Triple-pure tt λ s h. h
    refuse_rule p broken = Triple-pure tt λ s h. h

    pub subvolume_created_rule :
        (name : Bytes) (p : FilePath) (o : Outcome)
        → Triple
            (Answered (Made p true) (Made p b) o)
            (subvolume_created host cfg tenant name o)
            (λ _. Made p true)
            (Gone p b)
    unfolding subvolume_created
    subvolume_created_rule name p done = Triple-pure tt λ s h. h
    subvolume_created_rule name p target_exists =
        Triple-fail _ λ s h. Made-Gone p b (storage already_exists) s h
    subvolume_created_rule name p not_exist =
        Triple-bind {R = λ _. Made p b} _ _ (Triple-try host _ λ s h. h)
          λ _. Triple-fail _ λ s h. Made-Gone p b (storage internal_error) s h
    subvolume_created_rule name p failed =
        Triple-bind {R = λ _. Made p b} _ _ (Triple-try host _ λ s h. h)
          λ _. Triple-fail _ λ s h. Made-Gone p b (storage internal_error) s h

    module _ (req : VolumeCreateRequest) where
      abbrev fresh : FilePath
      fresh = volume_data host cfg tenant req.name

      configure_rule :
          (mode : ℕ)
          → Triple
              (Made fresh true)
              (configure host cfg tenant req mode)
              (λ _. Made fresh true)
              (Gone fresh b)
      unfolding configure cleanup
      configure_rule mode =
          Triple-bind _ _
            (Triple-when req.nocow _ (fresh_rule fresh host deletes b _ _ wrapped refl))
            λ _.
              Triple-bind _ _
                (Triple-when (compresses req.compression) _ (
                  Triple-if (is_valid_compression req.compression) _ _
                    (λ _. fresh_rule fresh host deletes b _ _ wrapped refl)
                    (λ _. cleanup_rule fresh host deletes b true _ wrapped)))
                λ _.
                  Triple-bind _ _
                    (Triple-when cfg.quota_enabled _
                      (fresh_rule fresh host deletes b _ _ wrapped refl))
                    λ _.
                      Triple-bind _ _ (Triple-try host (chmod fresh (file_mode mode)) λ s h. h)
                        λ _. Triple-try host (chown fresh req.uid req.gid) λ s h. h

      create_locked_rule :
          (mode now : ℕ)
          → Triple
              (Made fresh b)
              (create_locked host cfg tenant req mode now)
              (λ _. Made fresh true)
              (Gone fresh b)
      unfolding create_locked
      create_locked_rule mode now =
          Triple-bind _ _
            (get_rule host cfg.base_path volumes (meta_keeps fresh b) tenant req.name λ s w h. h)
            λ r. Triple-bind _ _ (refuse_rule fresh r) λ _.
              Triple-bind _ _ (before_rule fresh host b _ _ refl) λ _.
                Triple-bind _ _ (Triple-call host _ λ s h. create-Answered fresh b _ s h) λ o.
                  Triple-bind _ _ (subvolume_created_rule req.name fresh o)
                    λ _. Triple-bind _ _ (configure_rule mode) λ _. store_or_clean_rule _

  validate_create-name :
      (req : VolumeCreateRequest) (valid : VolumeCreateRequest × ℕ)
      → validate_create cfg req ≡ ok valid
      → valid.0.name ≡ req.name
  unfolding validate_create
  validate_create-name req valid h = ground arith

  create_rule :
      (req : VolumeCreateRequest) (now : ℕ) (b : Bool)
      → Triple
          (Made (volume_data host cfg tenant req.name) b)
          (create_volume host cfg tenant req now)
          (λ _. Made (volume_data host cfg tenant req.name) true)
          (Gone (volume_data host cfg tenant req.name) b)
  unfolding create_volume
  create_rule req now b = Triple-bind _ _ (tenant_rule fresh b host cfg tenant) λ _.
      Triple-bind {R = λ valid s. (valid.0.name ≡ req.name) × Made fresh b s} _ _
        (Triple-lift _ (λ valid known s h. (validate_create-name req valid known, h))
          λ e known s h. Made-Gone fresh b e s h)
        λ valid. record { run = λ s h. (held valid h.0).run s h.1 }
    where
      fresh : FilePath
      fresh = volume_data host cfg tenant req.name

      body : VolumeCreateRequest × ℕ → Exec VolumeMetadata
      body valid = create_locked host cfg tenant valid.0 valid.1 now

      held :
          (valid : VolumeCreateRequest × ℕ)
          → valid.0.name ≡ req.name
          → Triple
              (Made fresh b)
              (locked host
                (meta_path cfg.base_path volumes tenant req.name)
                (storage busy)
                (body valid))
              (λ _. Made fresh true)
              (Gone fresh b)
      held valid same = locked_rule fresh b host _ _ _ (
          subst
            (λ n.
              Triple (Made (volume_data host cfg tenant n) b) (body valid)
                (λ _. Made (volume_data host cfg tenant n) true)
                (Gone (volume_data host cfg tenant n) b))
            same (create_locked_rule b valid.0 valid.1 now))

  -- CreateVolume on a host whose deletions succeed: after a success the volume's subvolume is
  -- there, and after any error it is there only if it was there before.
  pub create_volume-Settled :
      (req : VolumeCreateRequest) (now : ℕ) (s : State)
      → Settled
          (create_volume host cfg tenant req now s).0
          (made (volume_data host cfg tenant req.name) s)
          (made (volume_data host cfg tenant req.name) (create_volume host cfg tenant req now s).1)
  create_volume-Settled req now s =
      settled (volume_data host cfg tenant req.name) (create_volume host cfg tenant req now)
        (create_rule req now) s
