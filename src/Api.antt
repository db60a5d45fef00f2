-- ===== src/Api.antt =====
-- agent/api/v1: the errors of utils.go, the authorization of middleware.go, and the handlers of
-- handler_volume.go, handler_snapshot.go and handler_export.go over the storage. Lists are in Pages.
pub mod Answers
mod Tests
use btrfs_nfs_csi.Base.{
  ℕ, ◌≡◌, refl, Bool, true, false, ◌||◌, [], ◌∷◌, Option, none, some, Bytes, codes, Dict, ◌=b◌, cut,
  lookup, if◌then◌else◌,
}
use btrfs_nfs_csi.Validate.{Labels}
use btrfs_nfs_csi.Storage.Model.{
  Error, validation, storage, volume_exists, snapshot_exists, wrapped, Code, bad_request,
  unauthorized, invalid, not_found, already_exists, busy, metadata_error, internal_error,
  VolumeMetadata, SnapshotMetadata, VolumeCreateRequest, VolumeUpdateRequest, VolumeCloneRequest,
  CloneCreateRequest, SnapshotCreateRequest,
}
use btrfs_nfs_csi.Storage.Host.{Host, Config, State}
use btrfs_nfs_csi.Storage.Exec.{Exec, Result, ok, err}
use btrfs_nfs_csi.Storage.Volumes
use btrfs_nfs_csi.Storage.Update
use btrfs_nfs_csi.Storage.Access
use btrfs_nfs_csi.Storage.Clones
use btrfs_nfs_csi.Storage.Snapshots
use btrfs_nfs_csi.Storage.Exports

-- codeStatus; a code that is not in the table stands for an internal error.
unfoldable pub code_status : Code → ℕ
code_status invalid = 400
code_status not_found = 404
code_status already_exists = 409
code_status busy = 423
code_status _ = 500

-- A reply: a status with a record, an error's status and code, or a status alone.
pub data HttpReply (R : Type 0) : Type 0 where
  json : ℕ → R → HttpReply R
  error_response : ℕ → Code → HttpReply R
  no_content : HttpReply R

-- StorageError
unfoldable pub storage_error : {R : Type 0} → Error → HttpReply R
storage_error validation = error_response 400 invalid
storage_error (storage code) = error_response (code_status code) code
storage_error (volume_exists v) = error_response 409 already_exists
storage_error (snapshot_exists s) = error_response 409 already_exists
storage_error wrapped = error_response 500 internal_error

-- What a handler makes of a result. An ALREADY_EXISTS comes with the record that is there.
unfoldable pub reply_volume : ℕ → Result VolumeMetadata → HttpReply VolumeMetadata
reply_volume status (ok v) = json status v
reply_volume status (err (volume_exists v)) = json 409 v
reply_volume status (err e) = storage_error e

unfoldable pub reply_snapshot : ℕ → Result SnapshotMetadata → HttpReply SnapshotMetadata
reply_snapshot status (ok s) = json status s
reply_snapshot status (err (snapshot_exists s)) = json 409 s
reply_snapshot status (err e) = storage_error e

unfoldable pub reply_done : Result Unit → HttpReply Unit
reply_done (ok u) = no_content
reply_done (err e) = storage_error e

abbrev on_result :
    {A R : Type 0} → (Result A → HttpReply R) → Result A × State → HttpReply R × State
on_result reply (r, s) = (reply r, s)

-- A body that cannot be read is answered at once.
abbrev bound :
    {B R : Type 0} → Option B → (B → State → HttpReply R × State) → State → HttpReply R × State
bound none go s = (error_response 400 bad_request, s)
bound (some b) go s = go b s

-- authMiddleware: the tenant of a request, or why there is none. base64.StdEncoding is a parameter.
unfoldable pub provided_token : (Bytes → Option Bytes) → Bytes → Option Bytes
provided_token decode auth = if auth =b [] then none else elim (cut b' ' auth) [
  | none ↦ none
  | some (scheme, token) ↦
      if scheme =b codes "Bearer"
      then some token
      else if scheme =b codes "Basic"
      then elim (decode token) [
        | none ↦ none
        | some decoded ↦ elim (cut b':' decoded) [ none ↦ none | some (_, pass) ↦ some pass ]
      ]
      else none
]

unfoldable pub authorized : (Bytes → Option Bytes) → Dict Bytes → Bytes → Option Bytes
authorized decode tenants auth = elim (provided_token decode auth) [
  | none ↦ none
  | some token ↦ lookup token tenants
]

module _ (host : Host) (cfg : Config) (tenant : Bytes) where
  unfoldable pub create_volume :
      Option VolumeCreateRequest → ℕ → State → HttpReply VolumeMetadata × State
  create_volume body now =
      bound body
        λ req s. on_result (reply_volume 201) (Volumes.create_volume host cfg tenant req now s)

  unfoldable pub get_volume : Bytes → State → HttpReply VolumeMetadata × State
  get_volume name s = on_result (reply_volume 200) (Access.get_volume host cfg tenant name s)

  unfoldable pub delete_volume : Bytes → State → HttpReply Unit × State
  delete_volume name s = on_result reply_done (Access.delete_volume host cfg tenant name s)

  unfoldable pub update_volume :
      Bytes → Option VolumeUpdateRequest → ℕ → State → HttpReply VolumeMetadata × State
  update_volume name body now =
      bound body
        λ req s. on_result (reply_volume 200) (Update.update_volume host cfg tenant name req now s)

  unfoldable pub clone_volume :
      Option VolumeCloneRequest → ℕ → State → HttpReply VolumeMetadata × State
  clone_volume body now =
      bound body
        λ req s. on_result (reply_volume 201) (Clones.clone_volume host cfg tenant req now s)

  unfoldable pub create_clone :
      Option CloneCreateRequest → ℕ → State → HttpReply VolumeMetadata × State
  create_clone body now =
      bound body
        λ req s. on_result (reply_volume 201) (Clones.create_clone host cfg tenant req now s)

  unfoldable pub create_snapshot :
      Option SnapshotCreateRequest → ℕ → State → HttpReply SnapshotMetadata × State
  create_snapshot body now =
      bound body λ req s.
        on_result (reply_snapshot 201) (Snapshots.create_snapshot host cfg tenant req now s)

  unfoldable pub get_snapshot : Bytes → State → HttpReply SnapshotMetadata × State
  get_snapshot name s = on_result (reply_snapshot 200) (Access.get_snapshot host cfg tenant name s)

  unfoldable pub delete_snapshot : Bytes → State → HttpReply Unit × State
  delete_snapshot name s = on_result reply_done (Access.delete_snapshot host cfg tenant name s)

  -- The address of the client and the labels of a body.
  abbrev pub ExportBody : Type 0
  ExportBody = Bytes × Option Labels

  -- A body without a client is answered as one that cannot be read.
  abbrev with_client : Option ExportBody → Option ExportBody
  with_client none = none
  with_client (some (client, labels)) = if client =b [] then none else some (client, labels)

  abbrev given : Option Labels → Labels
  given none = []
  given (some labels) = labels

  unfoldable pub create_volume_export :
      (Bytes → Bool) → Bytes → Option ExportBody → ℕ → State → HttpReply Unit × State
  create_volume_export parse_ip name body now = bound (with_client body) λ (client, labels) s.
      on_result reply_done
        (Exports.create_volume_export parse_ip host cfg tenant name client (given labels) now s)

  unfoldable pub delete_volume_export :
      (Bytes → Bool) → Bytes → Option ExportBody → ℕ → State → HttpReply Unit × State
  delete_volume_export parse_ip name body now = bound (with_client body) λ (client, labels) s.
      on_result reply_done
        (Exports.delete_volume_export parse_ip host cfg tenant name client labels now s)
