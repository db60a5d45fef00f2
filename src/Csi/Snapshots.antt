-- ===== src/Csi/Snapshots.antt =====
-- integrations/kubernetes/controller: CreateSnapshot of snapshots.go, with the labels that
-- resolveSnapshotLabels of pvc.go gives to a snapshot.
mod Tests
use btrfs_nfs_csi.Base.{
  ℕ, Bool, true, false, not, ◌||◌, List, [], ◌∷◌, ◌++◌, Option, none, some, Bytes, codes, ◌=b◌,
  insert, if◌then◌else◌,
}
use btrfs_nfs_csi.Validate.{Labels}
use btrfs_nfs_csi.Storage.Model.{SnapshotCreateRequest, label_at}
use btrfs_nfs_csi.Client.{Response, response, conflict, request_error}
use btrfs_nfs_csi.Csi.Ids.{make_volume_id}
use btrfs_nfs_csi.Csi.Labels.{label_pv_name, label_pv_storage_class, add_defaults}
use btrfs_nfs_csi.Csi.Params.{Claim, driver_name, with_user_labels, anno_prefix, param_labels}
use btrfs_nfs_csi.Csi.Tracker.{Client, Tracker, invalid_argument, internal, Reply, ok, refused}
use btrfs_nfs_csi.Csi.Requests.{Agents, SnapshotDetail}
use btrfs_nfs_csi.Csi.Controller.{by_id}

abbrev pub label_source_pvc_name : Bytes
label_source_pvc_name = codes "kubernetes.source.pvc.name"

abbrev pub label_source_pvc_namespace : Bytes
label_source_pvc_namespace = codes "kubernetes.source.pvc.namespace"

abbrev pub label_source_pvc_storage_class : Bytes
label_source_pvc_storage_class = codes "kubernetes.source.pvc.storageclassname"

abbrev pub label_snapshot_name : Bytes
label_snapshot_name = codes "kubernetes.snapshot.name"

abbrev pub label_snapshot_namespace : Bytes
label_snapshot_namespace = codes "kubernetes.snapshot.namespace"

abbrev pub snapshot_name_key : Bytes
snapshot_name_key = codes "csi.storage.k8s.io/volumesnapshot/name"

abbrev pub snapshot_namespace_key : Bytes
snapshot_namespace_key = codes "csi.storage.k8s.io/volumesnapshot/namespace"

-- The driver and the handle of `pv.Spec.CSI`, and the namespace and the name of `pv.Spec.ClaimRef`.
pub record PersistentVolume : Type 0 where
  pub csi : Option (Bytes × Bytes)
  pub claim_ref : Option (Bytes × Bytes)

abbrev pub is_handle : Bytes → Option (Bytes × Bytes) → Bool
is_handle volume_id none = false
is_handle volume_id (some (driver, handle)) =
    if driver =b driver_name then handle =b volume_id else false

-- A claim with its namespace and its name.
abbrev pub SourceClaim : Type 0
SourceClaim = Bytes × (Bytes × Claim)

claim_of : (Bytes → Bytes → Option Claim) → Option (Bytes × Bytes) → Option SourceClaim
claim_of get_claim none = none
claim_of get_claim (some (ns, name)) = elim (get_claim ns name) [
  | none ↦ none
  | some c ↦ some (ns, (name, c))
]

-- pvcFromVolumeHandle behind the list of volumes: the first one with the handle decides.
unfoldable pub pvc_from_volumes :
    (Bytes → Bytes → Option Claim) → Bytes → List PersistentVolume → Option SourceClaim
unfolding claim_of
pvc_from_volumes get_claim volume_id [] = none
pvc_from_volumes get_claim volume_id (pv ∷ pvs) =
    let rest = pvc_from_volumes get_claim volume_id pvs in
    if is_handle volume_id pv.csi then claim_of get_claim pv.claim_ref else rest

unfoldable pub pvc_from_volume_handle :
    Option (List PersistentVolume) → (Bytes → Bytes → Option Claim) → Bytes → Option SourceClaim
pvc_from_volume_handle none get_claim volume_id = none
pvc_from_volume_handle (some pvs) get_claim volume_id = pvc_from_volumes get_claim volume_id pvs

unfoldable pub put_filled : Bytes → Bytes → Labels → Labels
put_filled key value labels = if value =b [] then labels else insert key value labels

abbrev class_of : Option Bytes → Bytes
class_of none = []
class_of (some sc) = sc

unfoldable pub source_labels : Option SourceClaim → Labels → Labels
source_labels none labels = labels
source_labels (some (ns, (name, c))) labels =
    insert label_source_pvc_storage_class (class_of c.storage_class_name)
      (insert label_source_pvc_namespace ns (insert label_source_pvc_name name labels))

-- The labels of the user in the annotations of the VolumeSnapshot, which is only fetched where both
-- its names are given.
unfoldable pub user_labels_raw : (Bytes → Bytes → Option Labels) → Bytes → Bytes → Bytes
user_labels_raw get_annotations name ns =
    if name =b [] || ns =b [] then [] else elim (get_annotations ns name) [
      | none ↦ []
      | some annotations ↦ label_at annotations (anno_prefix ++ param_labels)
    ]

pub record CreateSnapshotRequest : Type 0 where
  pub name : Bytes
  pub source_volume_id : Bytes
  pub parameters : Labels
  pub secrets : Labels

-- The creation time is `none` where the answer has the current time.
pub record CreatedSnapshot : Type 0 where
  pub snapshot_id : Bytes
  pub source_id : Bytes
  pub snapshot_size : ℕ
  pub creation_time : Option ℕ

-- The API server is three functions: the list of persistent volumes, a claim, and the annotations of
-- a VolumeSnapshot, each `none` where it answers with an error.
module _ (volumes : Option (List PersistentVolume)) (get_claim : Bytes → Bytes → Option Claim)
    (get_annotations : Bytes → Bytes → Option Labels) (defaults : Labels) where
  unfoldable pub resolve_snapshot_labels : Labels → Bytes → Bytes → Bytes → Labels
  unfolding source_labels put_filled
  resolve_snapshot_labels params source_id sc pv_name =
      let name = label_at params snapshot_name_key in
      let ns = label_at params snapshot_namespace_key in
      let start =
        add_defaults defaults ((label_pv_name, pv_name) ∷ (label_pv_storage_class, sc) ∷ []) in
      let named =
        put_filled label_snapshot_namespace ns (put_filled label_snapshot_name name start) in
      let sourced = source_labels (pvc_from_volume_handle volumes get_claim source_id) named in
      with_user_labels sourced (user_labels_raw get_annotations name ns)

  module _ (A : Agents) where
    snapshot_answer :
        CreateSnapshotRequest
        → Bytes
        → Response SnapshotDetail × A.World
        → Reply CreatedSnapshot × A.World
    snapshot_answer req sc (response v, w) = (
      ok record {
        snapshot_id = make_volume_id sc req.name;
        source_id = req.source_volume_id;
        snapshot_size = v.size_bytes;
        creation_time = some v.created_at;
      },
      w,
    )
    snapshot_answer req sc (conflict v, w) = (
      ok record {
        snapshot_id = make_volume_id sc req.name;
        source_id = req.source_volume_id;
        snapshot_size = 0;
        creation_time = none;
      },
      w,
    )
    snapshot_answer req sc (request_error e, w) = (refused internal, w)

    unfoldable pub create_snapshot :
        CreateSnapshotRequest → Tracker × A.World → Reply CreatedSnapshot × (Tracker × A.World)
    unfolding snapshot_answer
    create_snapshot req s =
        if req.name =b []
        then (refused invalid_argument, s)
        else by_id A req.source_volume_id req.secrets
            (λ sc name c w. snapshot_answer req sc (
              A.create_snapshot c
                record {
                  volume = name;
                  name = req.name;
                  labels = resolve_snapshot_labels req.parameters req.source_volume_id sc name;
                }
                w))
            s
