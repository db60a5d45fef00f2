-- ===== src/Storage/Orphans/Snapped.antt =====
-- CreateSnapshot leaves no subvolume behind when it fails.
use btrfs_nfs_csi.Base.{ℕ, ◌≡◌, refl, Bool, true, List, Bytes}
use btrfs_nfs_csi.Storage.Model.{
  VolumeMetadata, SnapshotMetadata, SnapshotCreateRequest, wrapped, storage, snapshot_exists,
  already_exists, internal_error,
}
use btrfs_nfs_csi.Storage.Host.{
  Host, Config, State, Event, FilePath, Outcome, done, not_exist, target_exists, failed,
  subvolume_delete, Read, got, missing, broken,
}
use btrfs_nfs_csi.Storage.Exec.Triple.{
  Triple, Triple-pure, Triple-fail, Triple-if, Triple-bind, Triple-try, Triple-call, Answered,
}
use btrfs_nfs_csi.Storage.Meta.{volumes, snapshots}
use btrfs_nfs_csi.Storage.Meta.Frame.{get_rule, store_rule}
use btrfs_nfs_csi.Storage.Snapshots.{
  snapshot_data, discard_snapshot, snapshot_made, store_snapshot, create_snapshot_locked,
  create_snapshot, refuse_existing_snapshot,
}
use btrfs_nfs_csi.Storage.Orphans.{
  Settled, made, Made, Gone, Made-Gone, meta_keeps, before_rule, snapshot-Answered, cleanup_rule,
  guard_rule, tenant_rule, locked_rule, settled, found_rule,
}

refuse_rule :
    (p : FilePath) (b : Bool) (r : Read SnapshotMetadata)
    → Triple (Made p b) (refuse_existing_snapshot r) (λ _. Made p b) (Gone p b)
refuse_rule p b (got v) = Triple-fail _ λ s h. Made-Gone p b (snapshot_exists v) s h
refuse_rule p b missing = Triple-pure tt λ s h. h
refuse_rule p b broken = Triple-pure tt λ s h. h

module _ (host : Host) (cfg : Config) (tenant : Bytes)
    (deletes : (t : List Event) (q : FilePath) → host.respond t (subvolume_delete q) ≡ done) where
  store_snapshot_rule :
      (b : Bool) (v : SnapshotMetadata)
      → Triple
          (Made (snapshot_data host cfg tenant v.name) true)
          (store_snapshot host cfg tenant v)
          (λ _. Made (snapshot_data host cfg tenant v.name) true)
          (Gone (snapshot_data host cfg tenant v.name) b)
  unfolding store_snapshot discard_snapshot
  store_snapshot_rule b v =
      Triple-bind _ _
        (store_rule host cfg.base_path snapshots (meta_keeps _ true) tenant v.name (λ s w h. h) v)
        λ stored.
          Triple-if stored _ _ (λ _. Triple-pure v λ s h. h)
            (λ _. cleanup_rule _ host deletes b true _ wrapped)

  snapshot_made_rule :
      (b : Bool) (name : Bytes) (p : FilePath) (o : Outcome)
      → Triple
          (Answered (Made p true) (Made p b) o)
          (snapshot_made host cfg tenant name o)
          (λ _. Made p true)
          (Gone p b)
  unfolding snapshot_made
  snapshot_made_rule b name p done = Triple-pure tt λ s h. h
  snapshot_made_rule b name p target_exists =
      Triple-fail _ λ s h. Made-Gone p b (storage already_exists) s h
  snapshot_made_rule b name p not_exist =
      Triple-bind {R = λ _. Made p b} _ _ (Triple-try host _ λ s h. h)
        λ _. Triple-fail _ λ s h. Made-Gone p b (storage internal_error) s h
  snapshot_made_rule b name p failed =
      Triple-bind {R = λ _. Made p b} _ _ (Triple-try host _ λ s h. h)
        λ _. Triple-fail _ λ s h. Made-Gone p b (storage internal_error) s h

  module _ (req : SnapshotCreateRequest) (now : ℕ) where
    abbrev fresh : FilePath
    fresh = snapshot_data host cfg tenant req.name

    create_locked_rule :
        (b : Bool) (v : VolumeMetadata)
        → Triple
            (Made fresh b)
            (create_snapshot_locked host cfg tenant req v now)
            (λ _. Made fresh true)
            (Gone fresh b)
    unfolding create_snapshot_locked
    create_locked_rule b v =
        Triple-bind _ _
          (get_rule host cfg.base_path snapshots (meta_keeps fresh b) tenant req.name λ s w h. h)
          λ r. Triple-bind _ _ (refuse_rule fresh b r) λ _.
            Triple-bind _ _ (before_rule fresh host b _ _ refl) λ _.
              Triple-bind _ _ (Triple-call host _ λ s h. snapshot-Answered fresh b _ true _ s h)
                λ o.
                  Triple-bind _ _ (snapshot_made_rule b req.name fresh o)
                    λ _. store_snapshot_rule b _

    create_rule :
        (b : Bool)
        → Triple
            (Made fresh b)
            (create_snapshot host cfg tenant req now)
            (λ _. Made fresh true)
            (Gone fresh b)
    unfolding create_snapshot
    create_rule b = Triple-bind _ _ (tenant_rule fresh b host cfg tenant) λ _.
        Triple-bind _ _ (guard_rule fresh b _ _) λ _. Triple-bind _ _ (guard_rule fresh b _ _) λ _.
          Triple-bind _ _ (guard_rule fresh b _ _) λ _.
            Triple-bind _ _ (guard_rule fresh b _ _) λ _.
              Triple-bind _ _
                (get_rule host cfg.base_path volumes (meta_keeps fresh b) tenant req.volume
                  λ s w h. h)
                λ r.
                  Triple-bind _ _ (found_rule fresh b r)
                    λ v. locked_rule fresh b host _ _ _ (create_locked_rule b v)

    -- CreateSnapshot on a host whose deletions succeed: after a success the snapshot's subvolume
    -- is there, and after any error it is there only if it was there before.
    pub create_snapshot-Settled :
        (s : State)
        → Settled
            (create_snapshot host cfg tenant req now s).0
            (made fresh s)
            (made fresh (create_snapshot host cfg tenant req now s).1)
    create_snapshot-Settled s =
        settled fresh (create_snapshot host cfg tenant req now) create_rule s
