-- ===== src/Csi/Labels/Merged.antt =====
-- What mergeUserLabels of integrations/kubernetes/controller/pvc.go makes of the labels.
use btrfs_nfs_csi.Base.{
  ℕ, suc, ◌+◌, ◌-◌, ◌≤◌, ◌≡◌, refl, ap, ◌∙◌, true, not, ◌&&◌, List, [], ◌∷◌, length, some, Bytes,
  Dict, ◌=b◌, eq_iff, subst, lookup, insert, lookup-insert, leb, if◌then◌else◌, arith, Bool-cases,
  inl, inr,
}
use btrfs_nfs_csi.Validate.{
  Labels, valid_label_key, valid_label_val, all_labels_valid, validate_labels, max_labels,
}
use btrfs_nfs_csi.Storage.Model.{label_at}
use btrfs_nfs_csi.Csi.Labels.{is_reserved, mergeable, merge_keys, merge_user_labels}

pub length-insert-le :
    {V : Type 0} (k : Bytes) (v : V) (m : Dict V) → length (insert k v m) ≤ suc (length m)
unfolding insert
length-insert-le k v [] = omega arith
length-insert-le k v ((j, w) ∷ m) = ground (arith, length-insert-le k v m)

pub insert-all_labels_valid :
    (k v : Bytes) (m : Labels)
    → valid_label_key k ≡ true
    → valid_label_val v ≡ true
    → all_labels_valid m ≡ true
    → all_labels_valid (insert k v m) ≡ true
unfolding insert all_labels_valid
insert-all_labels_valid k v [] hk hv h = ground (arith, hk, hv)
insert-all_labels_valid k v ((j, w) ∷ m) hk hv h =
    ground (arith, hk, hv, h, insert-all_labels_valid k v m)

-- What a merge leaves as it is, adds at most, and keeps valid.
pub record Merged (dst : Labels) (room : ℕ) (result : Labels) : Type 0 where
  pub reserved_kept : (k : Bytes) → is_reserved k ≡ true → lookup k result ≡ lookup k dst
  pub few_added : length result ≤ length dst + room
  pub still_valid : all_labels_valid dst ≡ true → all_labels_valid result ≡ true

-- A label that may be merged, in front of the others.
Merged-insert :
    (k v : Bytes) (max_user merged : ℕ) (dst result : Labels)
    → mergeable k v && not (leb max_user merged) ≡ true
    → Merged (insert k v dst) (max_user - suc merged) result
    → Merged dst (max_user - merged) result
unfolding mergeable
Merged-insert k v max_user merged dst result e m = record {
  reserved_kept = λ j r. m.reserved_kept j r ∙ lookup-insert k j v dst ∙ other j r;
  few_added = ground (arith, m.few_added, length-insert-le k v dst, e);
  still_valid = λ h.
      m.still_valid (insert-all_labels_valid k v dst (ground (arith, e)) (ground (arith, e)) h);
}
  where
    other :
        (j : Bytes)
        → is_reserved j ≡ true
        → (if k =b j then some v else lookup j dst) ≡ lookup j dst
    other j r = elim (Bool-cases (k =b j)) [
      | inr f ↦ rw f refl
      | inl t ↦ absurd (ground (arith, e, r, ap is_reserved ((eq_iff k j).0 t)))
    ]

merge_keys-Merged :
    (user : Labels) (max_user : ℕ) (keys : List Bytes) (merged : ℕ) (dst : Labels)
    → Merged dst (max_user - merged) (merge_keys user max_user keys merged dst).0
unfolding merge_keys
merge_keys-Merged user max_user [] merged dst = record {
  reserved_kept = λ k r. refl;
  few_added = omega arith;
  still_valid = λ h. h;
}
merge_keys-Merged user max_user (k ∷ keys) merged dst =
    let v = label_at user k in
    elim (Bool-cases (mergeable k v && not (leb max_user merged))) [
      | inr e ↦ rw e (merge_keys-Merged user max_user keys merged dst)
      | inl e ↦
          let later = merge_keys-Merged user max_user keys (suc merged) (insert k v dst) in
          rw e (Merged-insert k v max_user merged dst _ e later)
    ]

-- Merging labels of the user changes no reserved key, adds at most so many labels, and leaves valid
-- labels valid, whatever the user gives.
pub merge_user_labels-Merged :
    (dst user : Labels) (max_user : ℕ) → Merged dst max_user (merge_user_labels dst user max_user).0
unfolding merge_user_labels
merge_user_labels-Merged dst user max_user =
    let all : max_user - 0 ≡ max_user = omega arith in
    subst (λ n. Merged dst n (merge_user_labels dst user max_user).0) all
      (merge_keys-Merged user max_user _ 0 dst)

-- The agent's ValidateLabels accepts what it makes of valid labels that leave room.
pub merge_user_labels-accepted :
    (dst user : Labels) (max_user : ℕ)
    → all_labels_valid dst ≡ true
    → length dst + max_user ≤ max_labels
    → validate_labels (merge_user_labels dst user max_user).0 ≡ true
unfolding validate_labels
merge_user_labels-accepted dst user max_user valid room =
    let m = merge_user_labels-Merged dst user max_user in
    ground (arith, m.few_added, m.still_valid valid, room)
