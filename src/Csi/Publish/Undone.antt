-- ===== src/Csi/Publish/Undone.antt =====
-- The export that integrations/kubernetes/controller/publish.go asks for is the one that it takes
-- back, in the terms of agent/storage/export.go.
use btrfs_nfs_csi.Base.{
  ℕ, ◌≡◌, refl, ◌∙◌, Bool, true, false, List, [], ◌∷◌, ◌++◌, filter, some, Bytes, ◌=b◌, eq_iff,
  append-nil, eq_refl, is_none, lookup, lookup-insert, arith, Bool-cases, inl, inr,
}
use btrfs_nfs_csi.Validate.{Labels, label_created_by}
use btrfs_nfs_csi.Client.{ensure_identity}
use btrfs_nfs_csi.Storage.Model.{
  VolumeMetadata, ExportMetadata, label_at, labels_contain, has_export,
}
use btrfs_nfs_csi.Storage.Exports.{add_export, remove_export, stays}
use btrfs_nfs_csi.Csi.Labels.{
  label_pvc_name, label_pvc_namespace, label_pv_name, label_pv_storage_class, label_node_name,
  label_volume_attachment_name,
}
use btrfs_nfs_csi.Csi.Params.{driver_name, pvc_name_key, pvc_namespace_key}
use btrfs_nfs_csi.Csi.Publish.{export_labels, unexport_labels, add_claim_label}

add_claim_label-label_at :
    (key value j : Bytes) (m : Labels)
    → (key =b j) ≡ false
    → label_at (add_claim_label key value m) j ≡ label_at m j
unfolding add_claim_label label_at
add_claim_label-label_at key value j m ne = elim (Bool-cases (value =b [])) [
  | inl e ↦ rw e refl
  | inr e ↦ rw (e, label_at, lookup-insert key j value m, ne) refl
]

claims-label_at :
    (ctx base : Labels) (j : Bytes)
    → (label_pvc_namespace =b j) ≡ false
    → (label_pvc_name =b j) ≡ false
    → label_at
        (add_claim_label label_pvc_namespace
          (label_at ctx pvc_namespace_key)
          (add_claim_label label_pvc_name (label_at ctx pvc_name_key) base))
        j
      ≡ label_at base j
claims-label_at ctx base j a b =
    add_claim_label-label_at label_pvc_namespace _ j _ a
    ∙ add_claim_label-label_at label_pvc_name _ j base b

-- The three labels that both calls set.
record Marked (sc name node : Bytes) (labels : Labels) : Type 0 where
  node_label : label_at labels label_node_name ≡ node
  volume_label : label_at labels label_pv_name ≡ name
  class_label : label_at labels label_pv_storage_class ≡ sc

export_labels-Marked :
    (hash : Bytes → Bytes) (volume_id sc name node : Bytes) (ctx : Labels)
    → Marked sc name node (export_labels hash volume_id sc name node ctx)
unfolding export_labels add_claim_label label_at lookup ◌=b◌
export_labels-Marked hash volume_id sc name node ctx = record {
  node_label = claims-label_at ctx (base hash volume_id sc name node) label_node_name refl refl;
  volume_label = claims-label_at ctx (base hash volume_id sc name node) label_pv_name refl refl;
  class_label =
      claims-label_at ctx (base hash volume_id sc name node) label_pv_storage_class refl refl;
}
  where
    base : (Bytes → Bytes) → Bytes → Bytes → Bytes → Bytes → Labels
    base hash volume_id sc name node =
        (label_node_name, node)
        ∷ (label_pv_name, name)
        ∷ (label_pv_storage_class, sc)
        ∷ (label_volume_attachment_name, hash (volume_id ++ (driver_name ++ node)))
        ∷ []

ensure_identity-label_at :
    (identity j : Bytes) (m : Labels)
    → (label_created_by =b j) ≡ false
    → label_at (ensure_identity identity m) j ≡ label_at m j
unfolding ensure_identity label_at
ensure_identity-label_at identity j m ne = elim (Bool-cases (is_none (lookup label_created_by m))) [
  | inl e ↦ rw (e, label_at, lookup-insert label_created_by j identity m, ne) refl
  | inr e ↦ rw e refl
]

-- The labels that reach the storage: those of the controller, with the client's identity.
abbrev pub sent_labels : Bytes → (Bytes → Bytes) → Bytes → Bytes → Bytes → Bytes → Labels → Labels
sent_labels identity hash volume_id sc name node ctx =
    ensure_identity identity (export_labels hash volume_id sc name node ctx)

sent_labels-Marked :
    (identity : Bytes) (hash : Bytes → Bytes) (volume_id sc name node : Bytes) (ctx : Labels)
    → Marked sc name node (sent_labels identity hash volume_id sc name node ctx)
unfolding ◌=b◌
sent_labels-Marked identity hash volume_id sc name node ctx =
    let m = export_labels-Marked hash volume_id sc name node ctx in
    let given = export_labels hash volume_id sc name node ctx in
    record {
      node_label = ensure_identity-label_at identity label_node_name given refl ∙ m.node_label;
      volume_label = ensure_identity-label_at identity label_pv_name given refl ∙ m.volume_label;
      class_label =
          ensure_identity-label_at identity label_pv_storage_class given refl ∙ m.class_label;
    }

-- The labels of the end of an export are among those of its start.
labels_contain-sent_labels :
    (identity : Bytes) (hash : Bytes → Bytes) (volume_id sc name node : Bytes) (ctx : Labels)
    → labels_contain
        (sent_labels identity hash volume_id sc name node ctx)
        (unexport_labels sc name node)
      ≡ true
unfolding labels_contain unexport_labels
labels_contain-sent_labels identity hash volume_id sc name node ctx =
    let m = sent_labels-Marked identity hash volume_id sc name node ctx in
    rw (m.node_label, m.volume_label, m.class_label, eq_refl node, eq_refl name, eq_refl sc) refl

filter-append :
    {A : Type 0} (p : A → Bool) (xs ys : List A) → filter p (xs ++ ys) ≡ filter p xs ++ filter p ys
filter-append p [] ys = refl
filter-append p (x ∷ xs) ys = ground (arith, filter-append p xs ys)

-- An entry with the address and with labels that contain those asked for is taken away.
gone_again :
    (client : Bytes) (asked : Labels) (c : ExportMetadata)
    → c.ip ≡ client
    → labels_contain c.labels asked ≡ true
    → stays client (some asked) c ≡ false
unfolding stays
gone_again client asked c same inside = ground (arith, (eq_iff c.ip client).1 same, inside)

-- Unpublishing takes back what publishing did to the exports of a volume: they are then the same as
-- if the volume had not been published to the node, whatever labels of the claim and whatever
-- identity of the client are put on the export, and whether it was there before or not.
pub unpublish_undoes_publish :
    (identity : Bytes) (hash : Bytes → Bytes) (volume_id sc name node ip : Bytes) (ctx : Labels)
    (start end : ℕ) (v : VolumeMetadata)
    → (remove_export ip
        (some (unexport_labels sc name node))
        end
        (add_export ip (sent_labels identity hash volume_id sc name node ctx) start v)).exports
      ≡ (remove_export ip (some (unexport_labels sc name node)) end v).exports
unfolding add_export remove_export
unpublish_undoes_publish identity hash volume_id sc name node ip ctx start end v =
    let labels = sent_labels identity hash volume_id sc name node ctx in
    let asked = unexport_labels sc name node in
    elim (Bool-cases (has_export v.exports ip labels)) [
      | inl e ↦ rw e refl
      | inr e ↦
          let entry : ExportMetadata = record { ip = ip; labels = labels; created_at = start } in
          let leaves =
            gone_again ip asked entry refl
              (labels_contain-sent_labels identity hash volume_id sc name node ctx) in
          rw e (
            filter-append (stays ip (some asked)) v.exports (entry ∷ []) ∙ rw leaves (append-nil _))
    ]
