-- ===== src/Storage/Model.antt =====
-- agent/storage/model.go, and the error types of agent/storage/utils.go.
use btrfs_nfs_csi.Base.{
  ℕ, suc, Bool, true, false, ◌&&◌, List, [], ◌∷◌, Option, none, some, Bytes, ◌=b◌, lookup, length,
  if◌then◌else◌, ◌==◌, all, any,
}
use btrfs_nfs_csi.Base.Int.{ℤ}
use btrfs_nfs_csi.Validate.{Labels}

pub record ExportMetadata : Type 0 where
  pub ip : Bytes
  pub labels : Labels
  pub created_at : ℕ

-- Times are nanoseconds in UTC.
pub record VolumeMetadata : Type 0 where
  pub name : Bytes
  pub path : List Bytes
  pub size_bytes : ℕ
  pub nocow : Bool
  pub compression : Bytes
  pub quota_bytes : ℕ
  pub used_bytes : ℕ
  pub uid : ℤ
  pub gid : ℤ
  pub mode : Bytes
  pub labels : Labels
  pub exports : List ExportMetadata
  pub created_at : ℕ
  pub updated_at : ℕ
  pub last_attach_at : Option ℕ

pub record SnapshotMetadata : Type 0 where
  pub name : Bytes
  pub volume : Bytes
  pub path : List Bytes
  pub size_bytes : ℕ
  pub used_bytes : ℕ
  pub exclusive_bytes : ℕ
  pub quota_bytes : ℕ
  pub nocow : Bool
  pub compression : Bytes
  pub uid : ℤ
  pub gid : ℤ
  pub mode : Bytes
  pub labels : Labels
  pub created_at : ℕ
  pub updated_at : ℕ

pub record VolumeCreateRequest : Type 0 where
  pub name : Bytes
  pub size_bytes : ℕ
  pub nocow : Bool
  pub compression : Bytes
  pub quota_bytes : ℕ
  pub uid : ℤ
  pub gid : ℤ
  pub mode : Bytes
  pub labels : Labels

-- A nil pointer is `none`.
pub record VolumeUpdateRequest : Type 0 where
  pub size_bytes : Option ℕ
  pub nocow : Option Bool
  pub compression : Option Bytes
  pub uid : Option ℤ
  pub gid : Option ℤ
  pub mode : Option Bytes
  pub labels : Option Labels

pub record SnapshotCreateRequest : Type 0 where
  pub volume : Bytes
  pub name : Bytes
  pub labels : Labels

pub record CloneCreateRequest : Type 0 where
  pub snapshot : Bytes
  pub name : Bytes
  pub labels : Labels

pub record VolumeCloneRequest : Type 0 where
  pub source : Bytes
  pub name : Bytes
  pub labels : Labels

pub record ExportEntry : Type 0 where
  pub name : Bytes
  pub client : Bytes
  pub labels : Labels
  pub created_at : ℕ

-- `labels[k]`, which is the empty text for a missing key.
unfoldable pub label_at : Labels → Bytes → Bytes
label_at labels k = elim (lookup k labels) [ none ↦ [] | some v ↦ v ]

-- The values that another map has at the keys of the first: the loop of maps.Equal.
same_values : Labels → Labels → Bool
same_values [] other = true
same_values ((k, v) ∷ m) other = elim (lookup k other) [
  | none ↦ false
  | some w ↦ w =b v && same_values m other
]

-- maps.Equal
unfoldable pub maps_equal : Labels → Labels → Bool
unfolding same_values
maps_equal a b = length a == length b && same_values a b

unfoldable pub has_export : List ExportMetadata → Bytes → Labels → Bool
has_export clients ip labels = any (λ c. c.ip =b ip && maps_equal c.labels labels) clients

unfoldable pub exports_for_ip : List ExportMetadata → Bytes → ℕ
exports_for_ip [] ip = 0
exports_for_ip (c ∷ clients) ip =
    let rest = exports_for_ip clients ip in if c.ip =b ip then suc rest else rest

unfoldable pub labels_contain : Labels → Labels → Bool
labels_contain stored match_labels = all (λ (k, v). label_at stored k =b v) match_labels

-- The keys of the Go map `seen`, one for each address.
unfoldable pub seen_ips : List ExportMetadata → List Bytes → List Bytes
seen_ips [] seen = seen
seen_ips (c ∷ clients) seen =
    seen_ips clients (if any (λ ip. c.ip =b ip) seen then seen else c.ip ∷ seen)

unfoldable pub count_unique_export_ips : List ExportMetadata → ℕ
unfolding seen_ips
count_unique_export_ips clients = length (seen_ips clients [])

-- The codes of StorageError.
pub data Code : Type 0 where
  bad_request unauthorized invalid not_found already_exists busy metadata_error internal_error :
      Code

-- What a handler returns in place of a result. The `exists` errors carry the record that is
-- returned beside ALREADY_EXISTS; `wrapped` is an error of fmt.Errorf.
pub data Error : Type 0 where
  validation : Error
  storage : Code → Error
  volume_exists : VolumeMetadata → Error
  snapshot_exists : SnapshotMetadata → Error
  wrapped : Error
