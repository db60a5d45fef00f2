-- ===== src/Storage/Labels/Protected.antt =====
-- An update that is let through leaves every protected label at its value.
use btrfs_nfs_csi.Base.{
  ◌≡◌, ◌≢◌, false, List, [], ◌∷◌, ◌++◌, some, Bytes, ◌=b◌, eq_iff, eq_refl, lookup, insert,
  lookup-insert, In, ◌⊎◌, Option-cases, inl, inr, arith, if◌then◌else◌,
}
use btrfs_nfs_csi.Validate.{Labels, label_created_by, soft_reserved_label_keys}
use btrfs_nfs_csi.Storage.Model.{label_at}
use btrfs_nfs_csi.Storage.Labels.{changes, protect_key, protect_keys, protect_immutable_labels}

label_at-insert :
    (k j v : Bytes) (m : Labels) → label_at (insert k v m) j ≡ (if k =b j then v else label_at m j)
unfolding label_at
label_at-insert k j v m = ground (arith, lookup-insert k j v m)

-- A round keeps a label that already stands at its old value.
protect_key-keeps :
    (j k : Bytes) (cur labels after : Labels)
    → protect_key k cur labels ≡ some after
    → label_at labels j ≡ label_at cur j
    → label_at after j ≡ label_at cur j
unfolding protect_key
protect_key-keeps j k cur labels after h e =
    ground (arith, label_at-insert k j (label_at cur k) labels, eq_iff k j)

unchanged :
    (k : Bytes) (cur labels : Labels)
    → changes k cur labels ≡ false
    → label_at cur k ≡ []
    → label_at labels k ≡ label_at cur k
unfolding label_at
unchanged k cur labels h e = elim (Option-cases (lookup k labels)) [
  | inl absent ↦ ground (arith, absent)
  | inr (v, present) ↦ ground (arith, present, eq_iff v (label_at cur k))
]

-- A round sets the label of its own key, but for a first created-by.
protect_key-sets :
    (k : Bytes) (cur labels after : Labels)
    → protect_key k cur labels ≡ some after
    → (k ≢ label_created_by) ⊎ (label_at cur k ≢ [])
    → label_at after k ≡ label_at cur k
unfolding protect_key
protect_key-sets k cur labels after h set = ground (
  arith,
  label_at-insert k k (label_at cur k) labels,
  unchanged k cur labels,
  eq_refl k,
  eq_iff k label_created_by,
  eq_iff (label_at cur k) [],
)

first_round :
    (k : Bytes) (keys : List Bytes) (cur labels after : Labels)
    → protect_keys (k ∷ keys) cur labels ≡ some after
    → (mid : Labels) × (protect_key k cur labels ≡ some mid)
      × (protect_keys keys cur mid ≡ some after)
unfolding protect_keys
first_round k keys cur labels after h = elim (Option-cases (protect_key k cur labels)) [
  | inl bad ↦ absurd (cc (bad, h))
  | inr (mid, good) ↦ (mid, good, ground arith)
]

protect_keys-keeps :
    (j : Bytes) (keys : List Bytes) (cur labels after : Labels)
    → protect_keys keys cur labels ≡ some after
    → label_at labels j ≡ label_at cur j
    → label_at after j ≡ label_at cur j
unfolding protect_keys
protect_keys-keeps j [] cur labels after h e = cc
protect_keys-keeps j (k ∷ keys) cur labels after h e =
    let (mid, round, rest) = first_round k keys cur labels after h in
    protect_keys-keeps j keys cur mid after rest (protect_key-keeps j k cur labels mid round e)

protect_keys-sets :
    (j : Bytes) (keys : List Bytes) (cur labels after : Labels)
    → protect_keys keys cur labels ≡ some after
    → In j keys
    → (j ≢ label_created_by) ⊎ (label_at cur j ≢ [])
    → label_at after j ≡ label_at cur j
protect_keys-sets j [] cur labels after h here set = elim here [ ]
protect_keys-sets j (k ∷ keys) cur labels after h here set =
    let (mid, round, rest) = first_round k keys cur labels after h in
    elim here [
      | inl e ↦
          let at_k : protect_key j cur labels ≡ some mid = rw e round in
          protect_keys-keeps j keys cur mid after rest (protect_key-sets j cur labels mid at_k set)
      | inr there ↦ protect_keys-sets j keys cur mid after rest there set
    ]

In-append_left : (a : Bytes) (xs ys : List Bytes) → In a xs → In a (xs ++ ys)
In-append_left a [] ys h = elim h [ ]
In-append_left a (x ∷ xs) ys (inl e) = inl e
In-append_left a (x ∷ xs) ys (inr h) = inr (In-append_left a xs ys h)

In-append_right : (a : Bytes) (xs ys : List Bytes) → In a ys → In a (xs ++ ys)
In-append_right a [] ys h = h
In-append_right a (x ∷ xs) ys h = inr (In-append_right a xs ys h)

-- Where an update of the labels is accepted, each configured or reserved key reads as it did before,
-- where a key that is missing reads as the empty text, so that such a key may at most be added with
-- an empty value; only created-by may be set where it was not set.
pub protect_immutable_labels-keeps :
    (keys : List Bytes) (cur labels after : Labels) (k : Bytes)
    → protect_immutable_labels keys cur labels ≡ some after
    → In k keys ⊎ In k soft_reserved_label_keys
    → (k ≢ label_created_by) ⊎ (label_at cur k ≢ [])
    → label_at after k ≡ label_at cur k
unfolding protect_immutable_labels
protect_immutable_labels-keeps keys cur labels after k h (inl own) set =
    protect_keys-sets k _ cur labels after h (In-append_left k keys _ own) set
protect_immutable_labels-keeps keys cur labels after k h (inr reserved) set =
    protect_keys-sets k _ cur labels after h (In-append_right k keys _ reserved) set
