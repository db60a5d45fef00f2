-- ===== src/Storage/Growth.antt =====
-- UpdateVolume: what the checks of a request mean for the record that is written.
pub mod Write
use btrfs_nfs_csi.Storage.Growth.Write.{
  Held, Any, held_guard, held_lift, held_tenant, held_get, held_disk, Wrote, update-Wrote,
}
use btrfs_nfs_csi.Base.{
  ℕ, ◌≤◌, ◌≡◌, refl, Bool, true, false, List, Option, none, some, Bytes, lookup, arith,
  if◌then◌else◌, inl, inr, ◌⊎◌, subst, sym,
}
use btrfs_nfs_csi.Validate.{Labels, valid_name, compresses, is_valid_compression}
use btrfs_nfs_csi.Storage.Model.{VolumeMetadata, SnapshotMetadata, VolumeUpdateRequest, Error}
use btrfs_nfs_csi.Storage.Host.{
  Host, Config, State, FilePath, Read, got, missing, broken, Call, Outcome, done, not_exist,
  target_exists, failed, Event, working,
}
use btrfs_nfs_csi.Storage.Exec.{Exec, Result, ok, err, ◌>>=◌, ◌>>◌, pure, guard, lift, must, when}
use btrfs_nfs_csi.Storage.Exec.Triple.{
  Post, Triple, Triple-pure, Triple-fail, Triple-if, Triple-bind, Triple-guard, Triple-lift,
  Triple-when, Triple-call, Triple-must, Triple-weaken, Triple-modify, Triple-try, Answered,
}
use btrfs_nfs_csi.Storage.Tenant.{tenant_path}
use btrfs_nfs_csi.Storage.Meta.{
  volumes, key, get, update, write_json_atomic, Updated, updated, no_entry, unreadable, unwritable,
  update_found,
}
use btrfs_nfs_csi.Storage.Access.{found_or}
use btrfs_nfs_csi.Storage.Update.{
  check_labels, check_fields, check_mode, effective_nocow, apply_update, run_compression,
  apply_to_disk, when_set, written, update_current, update_volume,
}

-- No request that passes the checks makes the volume smaller or puts compression on a nocow volume.
abbrev pub Grown : VolumeMetadata → VolumeMetadata → Type 0
Grown cur v =
    (cur.size_bytes ≤ v.size_bytes)
    × (cur.nocow ≡ true → compresses v.compression ≡ true → compresses cur.compression ≡ true)

apply_update-Grown :
    (cur : VolumeMetadata) (req : VolumeUpdateRequest) (labels : Option Labels)
    (nocow : Option Bool) (now : ℕ)
    → check_fields cur req ≡ true
    → Grown cur (apply_update (record req { labels = labels; nocow = nocow }) now cur)
unfolding check_fields apply_update
apply_update-Grown cur req labels nocow now h = ground arith

-- A request that only sets nocow.
abbrev pub nocow_only : VolumeUpdateRequest
nocow_only = record {
  size_bytes = none;
  nocow = some true;
  compression = none;
  uid = none;
  gid = none;
  mode = none;
  labels = none;
}

-- On a volume with compression and without nocow, UpdateVolume accepts a request that only sets nocow,
-- and the record that it returns has both: where the tenant and the name are valid, the record is in
-- the cache, and every call succeeds.
pub nocow_only-accepted :
    (volume_at : List Event → FilePath → Read VolumeMetadata)
    (snapshot_at : List Event → FilePath → Read SnapshotMetadata) (cfg : Config)
    (tenant name : Bytes) (cur : VolumeMetadata) (now : ℕ) (s : State)
    → valid_name tenant ≡ true
    → valid_name name ≡ true
    → lookup (key tenant name) s.volumes ≡ some cur
    → cur.nocow ≡ false
    → compresses cur.compression ≡ true
    → (v : VolumeMetadata) × ((update_volume
          (working volume_at snapshot_at)
          cfg
          tenant
          name
          nocow_only
          now
          s).0
        ≡ ok v)
      × (v.nocow ≡ true)
      × (compresses v.compression ≡ true)
unfolding update_volume ◌>>=◌ tenant_path get found_or check_labels check_fields check_mode when
    must update write_json_atomic apply_update lookup
nocow_only-accepted volume_at snapshot_at cfg tenant name cur now s good named known plain packed =
    (apply_update nocow_only now cur, rw (good, named, known, plain, known) refl, refl, packed)

module _ (host : Host) (cfg : Config) (tenant name : Bytes) (cur : VolumeMetadata) where
  written_rule :
      (change : VolumeMetadata → VolumeMetadata) (u : Updated VolumeMetadata)
      → Grown cur (change cur)
      → Triple
          (λ s. (Wrote host cfg tenant name cur) change u)
          (written u)
          (λ v s. Grown cur v)
          (Any host cfg tenant name cur)
  unfolding written
  written_rule change (updated before after) grown =
      Triple-pure after λ s w. subst (Grown cur) (after_change w) grown
    where
      after_change :
          (Wrote host cfg tenant name cur) change (updated before after) → change cur ≡ after
      after_change w = elim w [
        | inl e ↦ ground arith
        | inr f ↦ elim f [ inl e ↦ absurd (cc (e)) | inr e ↦ absurd (cc (e)) ]
      ]
  written_rule change no_entry grown = Triple-fail _ λ s w. tt
  written_rule change unreadable grown = Triple-fail _ λ s w. tt
  written_rule change unwritable grown = Triple-fail _ λ s w. tt

  module _ (req : VolumeUpdateRequest) (now : ℕ) where
    current_rule :
        Triple
          (Held host cfg tenant name cur)
          (update_current host cfg tenant name req now cur)
          (λ v s. Grown cur v)
          (Any host cfg tenant name cur)
    unfolding update_current
    current_rule = Triple-bind _ _ ((held_lift host cfg tenant name cur) _) λ kept.
        Triple-bind _ _ ((held_guard host cfg tenant name cur) _ _)
          λ _. record { run = λ s h. (checked kept h.0).run s h.1 }
      where
        change : Option Labels → VolumeMetadata → VolumeMetadata
        change kept =
            apply_update (record req { labels = kept; nocow = effective_nocow cur req.nocow }) now

        checked :
            (kept : Option Labels)
            → check_fields cur req ≡ true
            → Triple
                (Held host cfg tenant name cur)
                (do
                  mode ← lift (check_mode req.mode)
                  apply_to_disk host cfg tenant name cur req mode
                  u ← update host cfg.base_path volumes tenant name (change kept) (λ v. v)
                  written u)
                (λ v s. Grown cur v)
                (Any host cfg tenant name cur)
        checked kept accepted = Triple-bind _ _ ((held_lift host cfg tenant name cur) _) λ mode.
            Triple-bind _ _ ((held_disk host cfg tenant name cur) req mode) λ _.
              Triple-bind _ _ ((update-Wrote host cfg tenant name cur) (change kept)) λ u.
                written_rule (change kept) u
                  (apply_update-Grown cur req kept (effective_nocow cur req.nocow) now accepted)

    volume_rule :
        Triple
          (Held host cfg tenant name cur)
          (update_volume host cfg tenant name req now)
          (λ v s. Grown cur v)
          (Any host cfg tenant name cur)
    unfolding update_volume found_or
    volume_rule = Triple-bind _ _ (held_tenant host cfg tenant name cur) λ _.
        Triple-bind _ _ (Triple-weaken ((held_guard host cfg tenant name cur) _ _) λ a s h. h.1)
          λ _. Triple-bind _ _ (held_get host cfg tenant name cur) λ r.
            Triple-bind {R = λ v s. (v ≡ cur) × (Held host cfg tenant name cur) s} _ _
              (found_rule r)
              λ v. record { run = λ s h. (subst of_current (sym h.0) current_rule).run s h.1 }
      where
        of_current : VolumeMetadata → Type 0
        of_current v =
            Triple (Held host cfg tenant name cur) (update_current host cfg tenant name req now v)
              (λ w s. Grown cur w) (Any host cfg tenant name cur)

        found_rule :
            (r : Read VolumeMetadata)
            → Triple
                (λ s. (r ≡ got cur) × (Held host cfg tenant name cur) s)
                (found_or r)
                (λ v s. (v ≡ cur) × (Held host cfg tenant name cur) s)
                (Any host cfg tenant name cur)
        found_rule (got v) = Triple-pure v λ s h. (same v h.0, h.1)
          where
            same : (v : VolumeMetadata) → got v ≡ got cur → v ≡ cur
            same v e = ground arith
        found_rule missing = Triple-fail _ λ s h. tt
        found_rule broken = Triple-fail _ λ s h. tt

-- Where UpdateVolume succeeds on a volume whose record is in the cache, the new record is at least
-- as large, and it has compression on a nocow volume only if the old record had.
pub update_volume-Grown :
    (host : Host) (cfg : Config) (tenant name : Bytes) (req : VolumeUpdateRequest) (now : ℕ)
    (cur v : VolumeMetadata) (s : State)
    → lookup (key tenant name) s.volumes ≡ some cur
    → (update_volume host cfg tenant name req now s).0 ≡ ok v
    → Grown cur v
update_volume-Grown host cfg tenant name req now cur v s known success =
    read (update_volume host cfg tenant name req now s).0
      (update_volume host cfg tenant name req now s).1
      ((volume_rule host cfg tenant name cur req now).run s known) success
  where
    read :
        (r : Result VolumeMetadata) (s' : State)
        → Post (λ w s. Grown cur w) (λ e s. Unit) r s'
        → r ≡ ok v
        → Grown cur v
    read (ok w) s' h e = let same : w ≡ v = ground arith in subst (Grown cur) same h
    read (err x) s' h e = absurd (cc (e))
