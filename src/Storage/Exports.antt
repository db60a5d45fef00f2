-- ===== src/Storage/Exports.antt =====
-- agent/storage/export.go: the NFS exports of a volume.
use btrfs_nfs_csi.Base.{
  ℕ, zero, suc, Bool, not, ◌&&◌, ◌||◌, List, [], ◌∷◌, ◌++◌, filter, length, any, Option, none, some,
  Bytes, ◌=b◌, ◌==◌, if◌then◌else◌,
}
use btrfs_nfs_csi.Validate.{Labels, valid_name, validate_labels}
use btrfs_nfs_csi.Storage.Model.{
  VolumeMetadata, ExportMetadata, ExportEntry, validation, storage, wrapped, invalid, not_found,
  internal_error, has_export, exports_for_ip, labels_contain,
}
use btrfs_nfs_csi.Storage.Host.{Host, Config, FilePath, nfs_export, nfs_unexport}
use btrfs_nfs_csi.Storage.Exec.{Exec, ok, ◌>>=◌, ◌>>◌, pure, fail, guard, when, must}
use btrfs_nfs_csi.Storage.Tenant.{tenant_path}
use btrfs_nfs_csi.Storage.Labels.{require_immutable_labels}
use btrfs_nfs_csi.Storage.Meta.{volumes, dir, update, Updated, updated, no_entry, entries_of}

-- The change of CreateVolumeExport to the record.
unfoldable pub add_export : Bytes → Labels → ℕ → VolumeMetadata → VolumeMetadata
add_export client labels now v =
    let attached = record v { last_attach_at = some now; updated_at = now } in
    if has_export v.exports client labels then attached else record v {
      last_attach_at = some now;
      updated_at = now;
      exports = v.exports ++ record { ip = client; labels = labels; created_at = now } ∷ [];
    }

-- `firstRef`: no export of this address was there.
unfoldable pub first_ref : Bytes → Labels → VolumeMetadata → Bool
first_ref client labels v =
    not (has_export v.exports client labels) && exports_for_ip v.exports client == 0

-- The test by which the loop of DeleteVolumeExport keeps an entry. Labels that are nil match all.
unfoldable pub stays : Bytes → Option Labels → ExportMetadata → Bool
stays client none c = not (c.ip =b client)
stays client (some labels) c = not (c.ip =b client) || not (labels_contain c.labels labels)

unfoldable pub remove_export : Bytes → Option Labels → ℕ → VolumeMetadata → VolumeMetadata
remove_export client labels now v = record v {
  exports = filter (stays client labels) v.exports;
  updated_at = now;
}

abbrev pub element_at : {A : Type 0} → ℕ → List A → Option A
element_at i [] = none
element_at zero (x ∷ xs) = some x
element_at (suc i) (x ∷ xs) = element_at i xs

-- `array[w] = c`
abbrev pub put_at : {A : Type 0} → ℕ → A → List A → List A
put_at w c [] = []
put_at zero c (x ∷ xs) = c ∷ xs
put_at (suc w) c (x ∷ xs) = x ∷ put_at w c xs

-- The loop with `filtered` over the array that it reads: `filtered := meta.Exports[:0]` shares the
-- array, so that an append to it, of a length `w`, writes the array at `w`. The loop is at `i`, with so
-- many rounds to go.
unfoldable pub filter_in_place : {A : Type 0} → (A → Bool) → ℕ → ℕ → ℕ → List A → List A
filter_in_place keep zero i w array = array
filter_in_place keep (suc rounds) i w array = elim (element_at i array) [
  | none ↦ array
  | some c ↦
      filter_in_place keep rounds (suc i) (if keep c then suc w else w)
        (if keep c then put_at w c array else array)
]

-- The cached record after the loop of DeleteVolumeExport: its slice has the array and its length.
unfoldable pub overwritten : Bytes → Option Labels → VolumeMetadata → VolumeMetadata
unfolding filter_in_place
overwritten client labels v = record v {
  exports = filter_in_place (stays client labels) (length v.exports) 0 0 v.exports;
}

-- `lastRef`: an entry went, and no export of this address is left.
unfoldable pub last_ref : Bytes → Option Labels → VolumeMetadata → Bool
last_ref client labels v =
    any (λ c. not (stays client labels c)) v.exports
    && exports_for_ip (filter (stays client labels) v.exports) client == 0

-- The error of an Update that returned no record.
unfoldable pub seen_before : Updated VolumeMetadata → Exec VolumeMetadata
seen_before (updated before after) = pure before
seen_before no_entry = fail (storage not_found)
seen_before _ = fail wrapped

-- net.ParseIP is a parameter: `true` where it returns an address.
module _ (parse_ip : Bytes → Bool) (host : Host) (cfg : Config) (tenant : Bytes) where
  abbrev exported_dir : Bytes → FilePath
  exported_dir = dir cfg.base_path volumes tenant

  unfoldable pub export_first : Bytes → Bytes → Labels → VolumeMetadata → Exec Unit
  export_first name client labels before =
      when (first_ref client labels before)
        (must host (nfs_export (exported_dir name) client) (pure tt) (storage internal_error))

  unfoldable pub create_volume_export : Bytes → Bytes → Labels → ℕ → Exec Unit
  unfolding export_first seen_before
  create_volume_export name client labels now = do
    tenant_path host cfg tenant
    guard (valid_name name) validation
    guard (parse_ip client) (storage invalid)
    guard (validate_labels labels) validation
    guard (require_immutable_labels cfg.immutable_label_keys labels) (storage invalid)
    u ← update host cfg.base_path volumes tenant name (add_export client labels now) (λ v. v)
    before ← seen_before u
    export_first name client labels before

  unfoldable pub unexport_last : Bytes → Bytes → Option Labels → VolumeMetadata → Exec Unit
  unexport_last name client labels before =
      when (last_ref client labels before)
        (must host (nfs_unexport (exported_dir name) client) (pure tt) (storage internal_error))

  -- `len(labels)` of a nil map is 0, and a loop over it does nothing.
  abbrev pub or_empty : Option Labels → Labels
  or_empty none = []
  or_empty (some labels) = labels

  unfoldable pub delete_volume_export : Bytes → Bytes → Option Labels → ℕ → Exec Unit
  unfolding unexport_last seen_before
  delete_volume_export name client labels now = do
    tenant_path host cfg tenant
    guard (valid_name name) validation
    guard (parse_ip client) (storage invalid)
    guard (validate_labels (or_empty labels)) validation
    u ←
        update host cfg.base_path volumes tenant name (remove_export client labels now)
          (overwritten client labels)
    before ← seen_before u
    unexport_last name client labels before

  entries_for : Bytes → List ExportMetadata → List ExportEntry
  entries_for name [] = []
  entries_for name (c ∷ clients) =
      record { name = name; client = c.ip; labels = c.labels; created_at = c.created_at }
      ∷ entries_for name clients

  all_entries : List (Bytes × VolumeMetadata) → List ExportEntry
  unfolding entries_for
  all_entries [] = []
  all_entries ((name, v) ∷ rest) = entries_for name v.exports ++ all_entries rest

  read_entries : Exec (List ExportEntry)
  unfolding all_entries
  read_entries s = (ok (all_entries (entries_of tenant s.volumes)), s)

  unfoldable pub list_volume_exports : Exec (List ExportEntry)
  unfolding read_entries
  list_volume_exports = do tenant_path host cfg tenant; read_entries
