-- ===== src/Csi/Labels.antt =====
-- The labels of integrations/kubernetes/controller: config.go, and initDefaultLabels,
-- mergeUserLabels and parseLabels of pvc.go.
pub mod Merged
use btrfs_nfs_csi.Base.{
  ℕ, suc, ◌≡◌, refl, Bool, true, false, not, ◌&&◌, ◌||◌, List, [], ◌∷◌, any, Option, none, some,
  Bytes, codes, Dict, ◌=b◌, cut, split, trim_space, lookup, insert, sort, leb, is_none,
  if◌then◌else◌,
}
use btrfs_nfs_csi.Validate.{
  Labels, valid_label_key, valid_label_val, label_created_by, label_clone_source_type,
  label_clone_source_name,
}
use btrfs_nfs_csi.Storage.Model.{label_at}

abbrev pub label_pvc_name : Bytes
label_pvc_name = codes "kubernetes.pvc.name"

abbrev pub label_pvc_namespace : Bytes
label_pvc_namespace = codes "kubernetes.pvc.namespace"

abbrev pub label_pvc_storage_class : Bytes
label_pvc_storage_class = codes "kubernetes.pvc.storageclassname"

abbrev pub label_pv_name : Bytes
label_pv_name = codes "kubernetes.pv.name"

abbrev pub label_pv_storage_class : Bytes
label_pv_storage_class = codes "kubernetes.pv.storageclassname"

abbrev pub label_node_name : Bytes
label_node_name = codes "kubernetes.node.name"

abbrev pub label_volume_attachment_name : Bytes
label_volume_attachment_name = codes "kubernetes.volumeattachment.name"

-- The keys of the map reservedLabelKeys, with those that `init` adds.
abbrev pub reserved_label_keys : List Bytes
reserved_label_keys =
    label_pvc_name
    ∷ label_pvc_namespace
    ∷ label_pvc_storage_class
    ∷ label_created_by
    ∷ label_pv_name
    ∷ label_pv_storage_class
    ∷ label_node_name
    ∷ label_volume_attachment_name
    ∷ codes "kubernetes.source.pvc.name"
    ∷ codes "kubernetes.source.pvc.namespace"
    ∷ codes "kubernetes.source.pvc.storageclassname"
    ∷ codes "kubernetes.snapshot.name"
    ∷ codes "kubernetes.snapshot.namespace"
    ∷ label_clone_source_type
    ∷ label_clone_source_name
    ∷ []

-- `reservedLabelKeys[k]`
unfoldable pub is_reserved : Bytes → Bool
is_reserved k = any (λ r. r =b k) reserved_label_keys

abbrev pub max_user_labels : ℕ
max_user_labels = 8

parse_pair : Bytes → Labels → Labels
parse_pair pair labels = elim (cut b'=' pair) [
  | none ↦ insert pair [] labels
  | some (k, v) ↦ insert k v labels
]

parse_pairs : List Bytes → Labels → Labels
unfolding parse_pair
parse_pairs [] labels = labels
parse_pairs (pair ∷ pairs) labels =
    let text = trim_space pair in
    parse_pairs pairs (if text =b [] then labels else parse_pair text labels)

unfoldable pub parse_labels : Bytes → Labels
unfolding parse_pairs
parse_labels raw = parse_pairs (split b',' raw) []

-- The two tests on a key of the user's, and on its value.
unfoldable pub mergeable : Bytes → Bytes → Bool
mergeable k v = not (is_reserved k) && (valid_label_key k && valid_label_val v)

-- The labels of the environment that initDefaultLabels keeps.
keep_defaults : Labels → Labels → Labels
keep_defaults [] kept = kept
keep_defaults ((k, v) ∷ parsed) kept =
    keep_defaults parsed (if mergeable k v then insert k v kept else kept)

unfoldable pub default_labels : Bytes → Labels
unfolding keep_defaults
default_labels raw = if raw =b [] then [] else keep_defaults (parse_labels raw) []

-- The loop that adds the default labels under keys that are not there.
unfoldable pub add_defaults : Labels → Labels → Labels
add_defaults [] labels = labels
add_defaults ((k, v) ∷ defaults) labels =
    add_defaults defaults (if is_none (lookup k labels) then insert k v labels else labels)

keys_of : Labels → List Bytes
keys_of [] = []
keys_of ((k, v) ∷ m) = k ∷ keys_of m

-- The loop over the sorted keys: the labels, and the keys that were skipped.
unfoldable pub merge_keys : Labels → ℕ → List Bytes → ℕ → Labels → Labels × List Bytes
merge_keys user max_user [] merged dst = (dst, [])
merge_keys user max_user (k ∷ keys) merged dst =
    let takes = mergeable k (label_at user k) && not (leb max_user merged) in
    let rest =
      merge_keys user max_user keys (if takes then suc merged else merged)
        (if takes then insert k (label_at user k) dst else dst) in
    (rest.0, if takes then rest.1 else k ∷ rest.1)

unfoldable pub merge_user_labels : Labels → Labels → ℕ → Labels × List Bytes
unfolding keys_of
merge_user_labels dst user max_user = merge_keys user max_user (sort (keys_of user)) 0 dst

parse_labels_runs :
    parse_labels (codes "team=db, x,,x=1")
    ≡ (codes "team", codes "db") ∷ (codes "x", codes "1") ∷ []
unfolding parse_labels insert cut ◌=b◌
parse_labels_runs = refl
