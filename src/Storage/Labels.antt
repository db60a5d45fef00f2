-- ===== src/Storage/Labels.antt =====
-- agent/storage/utils.go: immutable labels.
pub mod Protected
use btrfs_nfs_csi.Base.{
  Bool, true, false, not, ◌&&◌, List, [], ◌∷◌, ◌++◌, Option, none, some, Bytes, codes, ◌=b◌, lookup,
  insert, all, any, filter, split, trim_space, if◌then◌else◌,
}
use btrfs_nfs_csi.Validate.{Labels, label_created_by, soft_reserved_label_keys}
use btrfs_nfs_csi.Storage.Model.{label_at}

-- `true` where requireImmutableLabels returns nil.
unfoldable pub require_immutable_labels : List Bytes → Labels → Bool
require_immutable_labels keys labels = all (λ k. not (label_at labels k =b [])) keys

-- `v, ok := updated[k]; ok && v != cur[k]`
abbrev pub changes : Bytes → Labels → Labels → Bool
changes k cur updated = elim (lookup k updated) [
  | none ↦ false
  | some v ↦ not (v =b label_at cur k)
]

-- One round of the loop: `none` is the error, else the map after the round.
unfoldable pub protect_key : Bytes → Labels → Labels → Option Labels
protect_key k cur updated =
    if changes k cur updated
    then (if (k =b label_created_by) && (label_at cur k =b []) then some updated else none)
    else if label_at cur k =b []
    then some updated
    else some (insert k (label_at cur k) updated)

-- The loop over the keys, in whatever order the Go map yields them.
unfoldable pub protect_keys : List Bytes → Labels → Labels → Option Labels
protect_keys [] cur labels = some labels
protect_keys (k ∷ keys) cur labels = elim (protect_key k cur labels) [
  | none ↦ none
  | some labels' ↦ protect_keys keys cur labels'
]

unfoldable pub protect_immutable_labels : List Bytes → Labels → Labels → Option Labels
protect_immutable_labels keys = protect_keys (keys ++ soft_reserved_label_keys)

-- ImmutableLabelKeys
add_key : List Bytes → Bytes → List Bytes
add_key keys k = if (k =b []) then keys else if any (λ j. j =b k) keys then keys else keys ++ k ∷ []

add_keys : List Bytes → List Bytes → List Bytes
unfolding add_key
add_keys keys [] = keys
add_keys keys (k ∷ extra) = add_keys (add_key keys (trim_space k)) extra

unfoldable pub immutable_label_keys : Bytes → List Bytes
unfolding add_keys
immutable_label_keys extra = add_keys (label_created_by ∷ []) (split b',' extra)
