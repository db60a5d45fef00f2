-- ===== src/Storage/Orphans/Cloned.antt =====
-- CloneVolume and CreateClone leave no subvolume behind when they fail.
use btrfs_nfs_csi.Base.{ℕ, ◌≡◌, refl, Bool, true, false, ◌&&◌, List, Bytes, ltb}
use btrfs_nfs_csi.Validate.{Labels}
use btrfs_nfs_csi.Storage.Model.{
  VolumeMetadata, VolumeCloneRequest, CloneCreateRequest, wrapped, storage, already_exists,
  internal_error, not_found, metadata_error,
}
use btrfs_nfs_csi.Storage.Host.{
  Host, Config, State, Event, FilePath, Outcome, done, not_exist, target_exists, failed,
  subvolume_delete, Read, got, missing, broken,
}
use btrfs_nfs_csi.Storage.Exec.Triple.{
  Triple, Triple-pure, Triple-fail, Triple-bind, Triple-when, Triple-call, Answered,
}
use btrfs_nfs_csi.Storage.Meta.{volumes, snapshots}
use btrfs_nfs_csi.Storage.Meta.Frame.{get_rule}
use btrfs_nfs_csi.Storage.Volumes.{volume_data, cleanup}
use btrfs_nfs_csi.Storage.Access.{get_volume, get_entry, found_or}
use btrfs_nfs_csi.Storage.Clones.{
  check_clone, clone_made, clone_volume_locked, clone_volume, create_clone_locked, create_clone,
  source_of,
}
use btrfs_nfs_csi.Storage.Orphans.{
  Settled, made, Made, Gone, Made-Gone, meta_keeps, before_rule, snapshot-Answered, cleanup_rule,
  fresh_rule, guard_rule, tenant_rule, locked_rule, settled, found_rule,
}
use btrfs_nfs_csi.Storage.Orphans.Created.{refuse_rule, subvolume_created_rule, store_or_clean_rule}

module _ (host : Host) (cfg : Config) (tenant : Bytes)
    (deletes : (t : List Event) (q : FilePath) → host.respond t (subvolume_delete q) ≡ done) where
  check_clone_rule :
      (p : FilePath) (b : Bool) (name : Bytes) (labels : Labels)
      → Triple (Made p b) (check_clone host cfg tenant name labels) (λ _. Made p b) (Gone p b)
  unfolding check_clone
  check_clone_rule p b name labels = Triple-bind _ _ (guard_rule p b _ _) λ _. guard_rule p b _ _

  get_volume_rule :
      (p : FilePath) (b : Bool) (name : Bytes)
      → Triple (Made p b) (get_volume host cfg tenant name) (λ _. Made p b) (Gone p b)
  unfolding get_volume get_entry found_or
  get_volume_rule p b name = Triple-bind _ _ (tenant_rule p b host cfg tenant) λ _.
      Triple-bind _ _ (guard_rule p b _ _) λ _.
        Triple-bind _ _
          (get_rule host cfg.base_path volumes (meta_keeps p b) tenant name λ s w h. h) λ r. read r
    where
      read : (r : Read VolumeMetadata) → Triple (Made p b) (found_or r) (λ _. Made p b) (Gone p b)
      read (got v) = Triple-pure v λ s h. h
      read missing = Triple-fail _ λ s h. Made-Gone p b (storage not_found) s h
      read broken = Triple-fail _ λ s h. Made-Gone p b (storage metadata_error) s h

  module _ (name : Bytes) where
    abbrev fresh : FilePath
    fresh = volume_data host cfg tenant name

    clone_made_rule :
        (b : Bool) (o : Outcome)
        → Triple
            (Answered (Made fresh true) (Made fresh b) o)
            (clone_made host cfg tenant name o)
            (λ _. Made fresh true)
            (Gone fresh b)
    unfolding clone_made cleanup
    clone_made_rule b done = Triple-pure tt λ s h. h
    clone_made_rule b target_exists =
        Triple-fail _ λ s h. Made-Gone fresh b (storage already_exists) s h
    clone_made_rule b not_exist = cleanup_rule fresh host deletes b b _ (storage internal_error)
    clone_made_rule b failed = cleanup_rule fresh host deletes b b _ (storage internal_error)

    module _ (src : VolumeMetadata) (labels : Labels) (source : Bytes) (now : ℕ) (b : Bool) where
      clone_locked_rule :
          Triple
            (Made fresh b)
            (clone_volume_locked host cfg tenant source src labels name now)
            (λ _. Made fresh true)
            (Gone fresh b)
      unfolding clone_volume_locked cleanup
      clone_locked_rule =
          Triple-bind _ _
            (get_rule host cfg.base_path volumes (meta_keeps fresh b) tenant name λ s w h. h)
            λ r. Triple-bind _ _ (refuse_rule host cfg tenant deletes b fresh r) λ _.
              Triple-bind _ _ (before_rule fresh host b _ _ refl) λ _.
                Triple-bind _ _ (Triple-call host _ λ s h. snapshot-Answered fresh b _ false _ s h)
                  λ o. Triple-bind _ _ (clone_made_rule b o) λ _.
                    Triple-bind _ _
                      (Triple-when cfg.quota_enabled _
                        (fresh_rule fresh host deletes b _ _ wrapped refl))
                      λ _. store_or_clean_rule host cfg tenant deletes b _

      create_clone_locked_rule :
          Triple
            (Made fresh b)
            (create_clone_locked host cfg tenant source src labels name now)
            (λ _. Made fresh true)
            (Gone fresh b)
      unfolding create_clone_locked cleanup
      create_clone_locked_rule =
          Triple-bind _ _
            (get_rule host cfg.base_path volumes (meta_keeps fresh b) tenant name λ s w h. h)
            λ r. Triple-bind _ _ (refuse_rule host cfg tenant deletes b fresh r) λ _.
              Triple-bind _ _ (before_rule fresh host b _ _ refl) λ _.
                Triple-bind _ _ (Triple-call host _ λ s h. snapshot-Answered fresh b _ false _ s h)
                  λ o.
                    Triple-bind _ _ (subvolume_created_rule host cfg tenant deletes b name fresh o)
                      λ _.
                        Triple-bind _ _
                          (Triple-when (cfg.quota_enabled && ltb 0 src.quota_bytes) _
                            (fresh_rule fresh host deletes b _ _ wrapped refl))
                          λ _. store_or_clean_rule host cfg tenant deletes b _

  -- CloneVolume on a host whose deletions succeed: after a success the clone's subvolume is there,
  -- and after any error it is there only if it was there before.
  pub clone_volume-Settled :
      (req : VolumeCloneRequest) (now : ℕ) (s : State)
      → Settled
          (clone_volume host cfg tenant req now s).0
          (made (fresh req.name) s)
          (made (fresh req.name) (clone_volume host cfg tenant req now s).1)
  unfolding clone_volume
  clone_volume-Settled req now s =
      settled (fresh req.name) (clone_volume host cfg tenant req now) rule s
    where
      rule :
          (b : Bool)
          → Triple
              (Made (fresh req.name) b)
              (clone_volume host cfg tenant req now)
              (λ _. Made (fresh req.name) true)
              (Gone (fresh req.name) b)
      rule b = Triple-bind _ _ (tenant_rule _ b host cfg tenant) λ _.
          Triple-bind _ _ (guard_rule _ b _ _) λ _.
            Triple-bind _ _ (check_clone_rule _ b req.name _) λ _.
              Triple-bind _ _ (get_volume_rule (fresh req.name) b req.source)
                λ v. locked_rule _ b host _ _ _ (clone_locked_rule req.name v _ req.source now b)

  -- CreateClone on a host whose deletions succeed: after a success the clone's subvolume is there,
  -- and after any error it is there only if it was there before.
  pub create_clone-Settled :
      (req : CloneCreateRequest) (now : ℕ) (s : State)
      → Settled
          (create_clone host cfg tenant req now s).0
          (made (fresh req.name) s)
          (made (fresh req.name) (create_clone host cfg tenant req now s).1)
  unfolding create_clone
  create_clone-Settled req now s =
      settled (fresh req.name) (create_clone host cfg tenant req now) rule s
    where
      rule :
          (b : Bool)
          → Triple
              (Made (fresh req.name) b)
              (create_clone host cfg tenant req now)
              (λ _. Made (fresh req.name) true)
              (Gone (fresh req.name) b)
      rule b = Triple-bind _ _ (tenant_rule _ b host cfg tenant) λ _.
          Triple-bind _ _ (guard_rule _ b _ _) λ _. Triple-bind _ _ (guard_rule _ b _ _) λ _.
            Triple-bind _ _ (check_clone_rule _ b req.name _) λ _.
              Triple-bind _ _
                (get_rule host cfg.base_path snapshots (meta_keeps _ b) tenant req.snapshot
                  λ s w h. h)
                λ r. Triple-bind _ _ (found_rule _ b r) λ snap.
                  Triple-bind _ _
                    (get_rule host cfg.base_path volumes (meta_keeps _ b) tenant snap.volume
                      λ s w h. h)
                    λ v.
                      locked_rule _ b host _ _ _
                        (create_clone_locked_rule req.name (source_of snap v) _ req.snapshot now b)
