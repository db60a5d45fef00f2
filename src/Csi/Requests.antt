-- ===== src/Csi/Requests.antt =====
-- integrations/kubernetes/controller/volumes.go: what the CSI controller is asked, what it asks of an
-- agent behind its client, and how the one becomes the other.
use btrfs_nfs_csi.Base.{
  ℕ, false, [], ◌∷◌, Option, none, some, Bytes, codes, ◌=b◌, insert, if◌then◌else◌,
}
use btrfs_nfs_csi.Base.Int.{ℤ, pos, above, to_ℕ}
use btrfs_nfs_csi.Validate.{Labels}
use btrfs_nfs_csi.Storage.Model.{
  VolumeCreateRequest, VolumeUpdateRequest, VolumeCloneRequest, CloneCreateRequest,
  SnapshotCreateRequest, label_at,
}
use btrfs_nfs_csi.Client.{RequestError, Response}
use btrfs_nfs_csi.Csi.Params.{VolumeParams, pvc_name_key, pvc_namespace_key}
use btrfs_nfs_csi.Csi.Tracker.{Client, param_agent_url}

-- What the controller reads of a volume that the agent answers with.
pub record VolumeDetail : Type 0 where
  pub path : Bytes
  pub size_bytes : ℕ

-- What it reads of a snapshot.
pub record SnapshotDetail : Type 0 where
  pub size_bytes : ℕ
  pub created_at : ℕ

-- The agents behind their clients: each call is made to the agent of a client, and changes the world.
-- A request without a result returns its error, if any.
pub record Agents : Type 1 where
  pub World : Type 0
  pub create_volume : Client → VolumeCreateRequest → World → Response VolumeDetail × World
  pub create_clone : Client → CloneCreateRequest → World → Response VolumeDetail × World
  pub clone_volume : Client → VolumeCloneRequest → World → Response VolumeDetail × World
  pub update_volume : Client → Bytes → VolumeUpdateRequest → World → Option RequestError × World
  pub delete_volume : Client → Bytes → World → Option RequestError × World
  pub create_snapshot : Client → SnapshotCreateRequest → World → Response SnapshotDetail × World
  pub delete_snapshot : Client → Bytes → World → Option RequestError × World
  pub create_volume_export : Client → Bytes → Bytes → Labels → World → Option RequestError × World
  pub delete_volume_export : Client → Bytes → Bytes → Labels → World → Option RequestError × World

pub data ContentSource : Type 0 where
  no_source : ContentSource
  from_volume from_snapshot : Bytes → ContentSource
  unsupported : ContentSource

-- The two numbers are int64, and zero where the range or the field is not set.
pub record CapacityRange : Type 0 where
  pub required_bytes : ℤ
  pub limit_bytes : ℤ

-- `fallback` where neither number is positive.
unfoldable pub requested_size : ℕ → CapacityRange → ℕ
requested_size fallback r =
    if above 0 r.required_bytes
    then to_ℕ r.required_bytes
    else if above 0 r.limit_bytes
    then to_ℕ r.limit_bytes
    else fallback

pub record CreateVolumeRequest : Type 0 where
  pub name : Bytes
  pub parameters : Labels
  pub secrets : Labels
  pub capacity_range : CapacityRange
  pub source : ContentSource

pub record CreatedVolume : Type 0 where
  pub volume_id : Bytes
  pub capacity_bytes : ℕ
  pub volume_context : Labels

abbrev pub param_nfs_server : Bytes
param_nfs_server = codes "nfsServer"

abbrev pub param_nfs_mount_options : Bytes
param_nfs_mount_options = codes "nfsMountOptions"

abbrev pub param_nfs_share_path : Bytes
param_nfs_share_path = codes "nfsSharePath"

unfoldable pub copy_param : Bytes → Labels → Labels → Labels
copy_param key params ctx =
    if label_at params key =b [] then ctx else insert key (label_at params key) ctx

unfoldable pub volume_context : Labels → Labels
unfolding copy_param
volume_context params = copy_param pvc_namespace_key params (
    copy_param pvc_name_key params (
      copy_param param_nfs_mount_options params (
        (param_nfs_server, label_at params param_nfs_server)
        ∷ (param_agent_url, label_at params param_agent_url)
        ∷ [])))

abbrev pub or_nil : Option Labels → Labels
or_nil none = []
or_nil (some m) = m

abbrev pub deref : {A : Type 0} → Option A → A → A
deref none a = a
deref (some b) a = b

-- The request that CreateVolume sends for an empty volume.
unfoldable pub create_request : Bytes → ℕ → VolumeParams → VolumeCreateRequest
create_request name size vp = record {
  name = name;
  size_bytes = size;
  nocow = deref vp.request.nocow false;
  compression = deref vp.request.compression [];
  quota_bytes = 0;
  uid = deref vp.request.uid (pos 0);
  gid = deref vp.request.gid (pos 0);
  mode = deref vp.request.mode [];
  labels = or_nil vp.params_labels;
}
