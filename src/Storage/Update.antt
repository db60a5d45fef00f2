-- ===== src/Storage/Update.antt =====
-- agent/storage/volume.go: UpdateVolume.
use btrfs_nfs_csi.Base.{
  ℕ, Bool, true, false, not, ◌&&◌, ◌||◌, Option, none, some, Bytes, ltb, if◌then◌else◌, is_none,
}
use btrfs_nfs_csi.Validate.{
  Labels, valid_name, validate_labels, validate_uid, validate_gid, validate_mode,
  is_valid_compression, compresses,
}
use btrfs_nfs_csi.FileMode.{file_mode}
use btrfs_nfs_csi.Storage.Model.{
  VolumeMetadata, VolumeUpdateRequest, validation, storage, wrapped, invalid,
}
use btrfs_nfs_csi.Storage.Host.{
  Host, Config, FilePath, set_nocow, set_compression, qgroup_limit, chmod, chown,
}
use btrfs_nfs_csi.Storage.Exec.{
  Exec, Result, ok, err, ◌>>=◌, ◌>>◌, pure, fail, lift, guard, when, must,
}
use btrfs_nfs_csi.Storage.Tenant.{tenant_path}
use btrfs_nfs_csi.Storage.Labels.{protect_immutable_labels}
use btrfs_nfs_csi.Storage.Meta.{volumes, data_path, get, update, Updated, updated}
use btrfs_nfs_csi.Storage.Access.{found_or}

-- `*p`, or the current value for a nil pointer.
abbrev pub or_current : {A : Type 0} → Option A → A → A
or_current none a = a
or_current (some b) a = b

-- A test that a nil pointer skips.
abbrev pub if_set : {A : Type 0} → Option A → (A → Bool) → Bool
if_set none test = true
if_set (some a) test = test a

-- The labels that the request ends with: protectImmutableLabels writes into the request's own map.
unfoldable pub check_labels : Config → VolumeMetadata → Option Labels → Result (Option Labels)
check_labels cfg cur none = ok none
check_labels cfg cur (some labels) =
    if not (validate_labels labels)
    then err validation
    else elim (protect_immutable_labels cfg.immutable_label_keys cur.labels labels) [
      | none ↦ err (storage invalid)
      | some kept ↦ ok (some kept)
    ]

unfoldable pub check_mode : Option Bytes → Result (Option ℕ)
check_mode none = ok none
check_mode (some mode) = elim (validate_mode mode) [
  | none ↦ err (storage invalid)
  | some parsed ↦ ok (some parsed)
]

-- The checks between the labels and the mode.
unfoldable pub check_fields : VolumeMetadata → VolumeUpdateRequest → Bool
check_fields cur req =
    if_set req.size_bytes (λ size. not (ltb size cur.size_bytes))
    && if_set req.compression
        (λ algo. is_valid_compression algo && not (cur.nocow && compresses algo))
    && if_set req.uid validate_uid
    && if_set req.gid validate_gid

-- `req.NoCOW` after the branch that ignores a request to revert it.
abbrev pub effective_nocow : VolumeMetadata → Option Bool → Option Bool
effective_nocow cur (some false) = if cur.nocow then none else some false
effective_nocow cur r = r

-- The function that UpdateVolume hands to the store.
unfoldable pub apply_update : VolumeUpdateRequest → ℕ → VolumeMetadata → VolumeMetadata
apply_update req now v = record v {
  size_bytes = or_current req.size_bytes v.size_bytes;
  quota_bytes = or_current req.size_bytes v.quota_bytes;
  nocow = or_current req.nocow v.nocow;
  compression = or_current req.compression v.compression;
  uid = or_current req.uid v.uid;
  gid = or_current req.gid v.gid;
  mode = or_current req.mode v.mode;
  labels = or_current req.labels v.labels;
  updated_at = now;
}

unfoldable pub written : Updated VolumeMetadata → Exec VolumeMetadata
written (updated before after) = pure after
written _ = fail wrapped

module _ (host : Host) (cfg : Config) (tenant name : Bytes) where
  abbrev target : FilePath
  target = data_path cfg.base_path volumes tenant name

  abbrev nothing : Exec Unit
  nothing = pure tt

  -- `if p != nil { call(*p) }`
  abbrev pub when_set : {A : Type 0} → Option A → (A → Exec Unit) → Exec Unit
  when_set none f = pure tt
  when_set (some a) f = f a

  unfoldable pub run_compression : Bytes → Exec Unit
  run_compression algo = when (compresses algo) (
      if is_valid_compression algo
      then must host (set_compression target algo) nothing wrapped
      else fail wrapped)

  -- The calls on the subvolume, each of which ends the handler when it fails.
  unfoldable pub apply_to_disk : VolumeMetadata → VolumeUpdateRequest → Option ℕ → Exec Unit
  unfolding run_compression
  apply_to_disk cur req mode = do
    when_set req.size_bytes
        (λ size. when cfg.quota_enabled (must host (qgroup_limit target size) nothing wrapped))
    when_set req.nocow
        (λ nocow. when (nocow && not cur.nocow) (must host (set_nocow target) nothing wrapped))
    when_set req.compression run_compression
    when (not (is_none req.uid) || not (is_none req.gid)) (
        must host (chown target (or_current req.uid cur.uid) (or_current req.gid cur.gid)) nothing
          wrapped)
    when_set mode (λ m. must host (chmod target (file_mode m)) nothing wrapped)

  -- UpdateVolume from the validation on, with the record that it read before.
  unfoldable pub update_current : VolumeUpdateRequest → ℕ → VolumeMetadata → Exec VolumeMetadata
  unfolding apply_to_disk written
  update_current req now cur = do
    kept ← lift (check_labels cfg cur req.labels)
    guard (check_fields cur req) (storage invalid)
    mode ← lift (check_mode req.mode)
    apply_to_disk cur req mode
    u ←
        update host cfg.base_path volumes tenant name
          (apply_update (record req { labels = kept; nocow = effective_nocow cur req.nocow }) now)
          (λ v. v)
    written u

  unfoldable pub update_volume : VolumeUpdateRequest → ℕ → Exec VolumeMetadata
  unfolding update_current
  update_volume req now = do
    tenant_path host cfg tenant
    guard (valid_name name) validation
    r ← get host cfg.base_path volumes tenant name
    cur ← found_or r
    update_current req now cur
