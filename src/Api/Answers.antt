-- ===== src/Api/Answers.antt =====
-- A deletion from end to end: the storage's result, the reply of agent/api/v1, the error that
-- agent/api/v1/client reads from it, and the code that integrations/kubernetes/controller returns.
use btrfs_nfs_csi.Base.{ℕ, ◌≡◌, refl, true, Bytes}
use btrfs_nfs_csi.Storage.Model.{
  Error, validation, storage, volume_exists, snapshot_exists, wrapped, bad_request, unauthorized,
  invalid, not_found, already_exists, busy, metadata_error, internal_error,
}
use btrfs_nfs_csi.Storage.Host.{Host, Config, State}
use btrfs_nfs_csi.Storage.Exec.{Result, err}
use btrfs_nfs_csi.Storage.Exec
use btrfs_nfs_csi.Storage.Access
use btrfs_nfs_csi.Client.{request_outcome, has_status}
use btrfs_nfs_csi.Csi.Tracker.{failed_precondition, internal, Reply, ok, refused}
use btrfs_nfs_csi.Csi.Controller.{deleted}
use btrfs_nfs_csi.Csi.Requests.{Agents}
use btrfs_nfs_csi.Api.{
  HttpReply, json, error_response, no_content, storage_error, code_status, reply_done,
  delete_volume,
}

-- The status of a reply; that of `no_content` is 204.
abbrev pub status_of : {R : Type 0} → HttpReply R → ℕ
status_of (json status r) = status
status_of (error_response status code) = status
status_of no_content = 204

-- What the CSI controller should say of a deletion.
abbrev pub expected : Result Unit → Reply Unit
expected (Exec.ok u) = ok tt
expected (err (storage not_found)) = ok tt
expected (err (storage busy)) = refused failed_precondition
expected (err e) = refused internal

module _ (A : Agents) (w : A.World) where
  expected-error :
      (e : Error)
      → (deleted A true (request_outcome (status_of (storage_error {R = Unit} e)), w)).0
        ≡ expected (err e)
  unfolding deleted request_outcome storage_error code_status has_status
  expected-error validation = refl
  expected-error (storage bad_request) = refl
  expected-error (storage unauthorized) = refl
  expected-error (storage invalid) = refl
  expected-error (storage not_found) = refl
  expected-error (storage already_exists) = refl
  expected-error (storage busy) = refl
  expected-error (storage metadata_error) = refl
  expected-error (storage internal_error) = refl
  expected-error (volume_exists v) = refl
  expected-error (snapshot_exists s) = refl
  expected-error wrapped = refl

  expected-result :
      (r : Result Unit)
      → (deleted A true (request_outcome (status_of (reply_done r)), w)).0 ≡ expected r
  unfolding deleted request_outcome reply_done
  expected-result (Exec.ok u) = refl
  expected-result (err e) = expected-error e

  -- Through the agent's reply and its client, the CSI controller answers a deletion with success
  -- exactly where the storage deletes the volume or does not find it, with FAILED_PRECONDITION
  -- exactly where the storage says that it is busy, and with INTERNAL otherwise.
  pub deleted-delete_volume :
      (host : Host) (cfg : Config) (tenant name : Bytes) (s : State)
      → (deleted A true (request_outcome (status_of (delete_volume host cfg tenant name s).0), w)).0
        ≡ expected (Access.delete_volume host cfg tenant name s).0
  unfolding delete_volume
  deleted-delete_volume host cfg tenant name s =
      expected-result (Access.delete_volume host cfg tenant name s).0
