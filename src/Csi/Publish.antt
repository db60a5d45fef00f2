-- ===== src/Csi/Publish.antt =====
-- integrations/kubernetes/controller/publish.go: the export of a volume to a node, and its end.
pub mod Undone
use btrfs_nfs_csi.Base.{
  ◌≡◌, refl, Bool, true, false, not, ◌||◌, List, [], ◌∷◌, ◌++◌, Option, none, some, Bytes, ◌=b◌,
  insert, if◌then◌else◌,
}
use btrfs_nfs_csi.Validate.{Labels}
use btrfs_nfs_csi.Storage.Model.{label_at}
use btrfs_nfs_csi.Client.{RequestError, is_not_found}
use btrfs_nfs_csi.Csi.Ids.{parse_node_id}
use btrfs_nfs_csi.Csi.Labels.{
  label_pvc_name, label_pvc_namespace, label_pv_name, label_pv_storage_class, label_node_name,
  label_volume_attachment_name,
}
use btrfs_nfs_csi.Csi.Params.{
  VolumeParams, driver_name, pvc_name_key, pvc_namespace_key, has_updates, update_request,
}
use btrfs_nfs_csi.Csi.Tracker.{Client, Tracker, invalid_argument, internal, Reply, ok, refused}
use btrfs_nfs_csi.Csi.Controller.{by_id}
use btrfs_nfs_csi.Csi.Requests.{Agents}

add_claim_label : Bytes → Bytes → Labels → Labels
add_claim_label key value labels = if value =b [] then labels else insert key value labels

-- The labels of the export. `attachment_name` is the name that the hash of its text gives.
unfoldable pub export_labels : (Bytes → Bytes) → Bytes → Bytes → Bytes → Bytes → Labels → Labels
unfolding add_claim_label
export_labels attachment_name volume_id sc name node ctx =
    add_claim_label label_pvc_namespace (label_at ctx pvc_namespace_key) (
      add_claim_label label_pvc_name (label_at ctx pvc_name_key) (
        (label_node_name, node)
        ∷ (label_pv_name, name)
        ∷ (label_pv_storage_class, sc)
        ∷ (label_volume_attachment_name, attachment_name (volume_id ++ (driver_name ++ node)))
        ∷ []))

unfoldable pub unexport_labels : Bytes → Bytes → Bytes → Labels
unexport_labels sc name node =
    (label_node_name, node) ∷ (label_pv_name, name) ∷ (label_pv_storage_class, sc) ∷ []

module _ (A : Agents) where
  exported : Option RequestError × A.World → Reply Unit × A.World
  exported (none, w) = (ok tt, w)
  exported (some e, w) = (refused internal, w)

  -- An update that fails is only logged.
  unfoldable pub apply_updates : Client → Bytes → VolumeParams → A.World → A.World
  apply_updates c name vp w =
      if has_updates vp then (A.update_volume c name (update_request vp) w).1 else w

  publish_resolved :
      (Bytes → Bytes)
      → Bytes
      → Bytes
      → Bytes
      → Labels
      → Bytes
      → Bytes
      → Client
      → Option VolumeParams
      → A.World
      → Reply Unit × A.World
  unfolding exported
  publish_resolved hash volume_id node ip ctx sc name c none w = (refused invalid_argument, w)
  publish_resolved hash volume_id node ip ctx sc name c (some vp) w = exported (
      A.create_volume_export c name ip (export_labels hash volume_id sc name node ctx)
        (apply_updates c name vp w))

  unfoldable pub controller_publish_volume :
      (Bytes → Bytes)
      → (Labels → Option VolumeParams)
      → Bytes
      → Bytes
      → Labels
      → Labels
      → Tracker × A.World
      → Reply Unit × (Tracker × A.World)
  unfolding publish_resolved
  controller_publish_volume hash resolve volume_id node_id ctx secrets s =
      if volume_id =b [] || node_id =b []
      then (refused invalid_argument, s)
      else elim (parse_node_id node_id) [
        | none ↦ (refused invalid_argument, s)
        | some (node, ip) ↦
            by_id A volume_id secrets
              (λ sc name c w. publish_resolved hash volume_id node ip ctx sc name c (resolve ctx) w)
              s
      ]

  -- An export that is not found counts as removed.
  unexported : Option RequestError × A.World → Reply Unit × A.World
  unexported (none, w) = (ok tt, w)
  unexported (some e, w) = if is_not_found e then (ok tt, w) else (refused internal, w)

  unfoldable pub controller_unpublish_volume :
      Bytes → Bytes → Labels → Tracker × A.World → Reply Unit × (Tracker × A.World)
  unfolding unexported
  controller_unpublish_volume volume_id node_id secrets s =
      if volume_id =b [] || node_id =b []
      then (refused invalid_argument, s)
      else elim (parse_node_id node_id) [
        | none ↦ (refused invalid_argument, s)
        | some (node, ip) ↦
            by_id A volume_id secrets
              (λ sc name c w.
                unexported (A.delete_volume_export c name ip (unexport_labels sc name node) w))
              s
      ]
