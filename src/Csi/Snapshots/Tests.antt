-- ===== src/Csi/Snapshots/Tests.antt =====
-- The labels of a snapshot whose claim is found by the handle of its volume, and the user's among
-- them.
use btrfs_nfs_csi.Base.{
  ◌≡◌, refl, List, [], ◌∷◌, Option, none, some, Bytes, codes, lookup, insert, sort, cut, ◌=b◌,
}
use btrfs_nfs_csi.Validate.{Labels, valid_label_key, valid_label_val}
use btrfs_nfs_csi.Storage.Model.{label_at}
use btrfs_nfs_csi.Csi.Labels.{
  label_pv_name, label_pv_storage_class, add_defaults, is_reserved, mergeable, parse_labels,
  merge_keys, merge_user_labels,
}
use btrfs_nfs_csi.Csi.Params.{Claim, driver_name, with_user_labels}
use btrfs_nfs_csi.Csi.Snapshots.{
  PersistentVolume, pvc_from_volumes, pvc_from_volume_handle, source_labels, put_filled,
  user_labels_raw, resolve_snapshot_labels, snapshot_name_key, snapshot_namespace_key,
  label_snapshot_name, label_snapshot_namespace, label_source_pvc_name, label_source_pvc_namespace,
  label_source_pvc_storage_class,
}

abbrev persistent : List PersistentVolume
persistent =
    record { csi = some (codes "other", codes "fast|db"); claim_ref = none }
    ∷ record {
      csi = some (driver_name, codes "fast|db");
      claim_ref = some (codes "prod", codes "data");
    }
    ∷ []

abbrev get_claim : Bytes → Bytes → Option Claim
get_claim ns name = some record { storage_class_name = some (codes "fast"); annotations = [] }

-- The user tries to overwrite the name of the volume.
abbrev get_annotations : Bytes → Bytes → Option Labels
get_annotations ns name =
    some ((codes "btrfs-nfs-csi/labels", codes "kubernetes.pv.name=mine,team=db") ∷ [])

abbrev names : Labels
names = (snapshot_name_key, codes "s1") ∷ (snapshot_namespace_key, codes "prod") ∷ []

resolve_snapshot_labels_run :
    resolve_snapshot_labels
      (some persistent)
      get_claim
      get_annotations
      []
      names
      (codes "fast|db")
      (codes "fast")
      (codes "db")
    ≡ (label_pv_name, codes "db")
      ∷ (label_pv_storage_class, codes "fast")
      ∷ (label_snapshot_name, codes "s1")
      ∷ (label_snapshot_namespace, codes "prod")
      ∷ (label_source_pvc_name, codes "data")
      ∷ (label_source_pvc_namespace, codes "prod")
      ∷ (label_source_pvc_storage_class, codes "fast")
      ∷ (codes "team", codes "db")
      ∷ []
unfolding resolve_snapshot_labels pvc_from_volumes pvc_from_volume_handle source_labels put_filled
    user_labels_raw add_defaults lookup insert ◌=b◌ label_at with_user_labels parse_labels
    merge_user_labels merge_keys mergeable is_reserved sort cut valid_label_key valid_label_val
resolve_snapshot_labels_run = refl

-- No claim is found for a volume of another driver, nor where the volumes cannot be listed.
unfound_run :
    (pvc_from_volume_handle (some persistent) get_claim (codes "fast|web") ≡ none)
    × (pvc_from_volume_handle none get_claim (codes "fast|db") ≡ none)
unfolding pvc_from_volume_handle pvc_from_volumes ◌=b◌
unfound_run = (refl, refl)
