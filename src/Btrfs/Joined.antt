-- ===== src/Btrfs/Joined.antt =====
-- What the bulk query of agent/storage/btrfs/btrfs.go finds for a path.
use btrfs_nfs_csi.Base.{
  or_else, or_else-none, ◌≡◌, refl, ap, sym, ◌∙◌, Bool, true, false, List, [], ◌∷◌, Option, none,
  some, Bytes, Dict, ◌=b◌, lookup, insert, lookup-insert, Option-cases, inl, inr, if◌then◌else◌,
}
use btrfs_nfs_csi.Storage.Usage.{QgroupInfo}
use btrfs_nfs_csi.Btrfs.{SubvolEntry, qgroup_id, join_usage}

-- The quota group of the last subvolume at a path that has one.
unfoldable pub last_at : Dict QgroupInfo → List SubvolEntry → Bytes → Option QgroupInfo
last_at qgroups [] p = none
last_at qgroups (sv ∷ subvols) p =
    let later = last_at qgroups subvols p in
    or_else later (if sv.path =b p then lookup (qgroup_id sv.id) qgroups else none)

-- One subvolume in front of the others.
or_else-if :
    (later : Option QgroupInfo) (info : QgroupInfo) (same : Bool) (before : Option QgroupInfo)
    → or_else later (if same then some info else before)
      ≡ or_else (or_else later (if same then some info else none)) before
or_else-if none info true before = refl
or_else-if none info false before = refl
or_else-if (some a) info same before = refl

or_else-if_none :
    (later : Option QgroupInfo) (same : Bool) → or_else later (if same then none else none) ≡ later
or_else-if_none later true = or_else-none later
or_else-if_none later false = or_else-none later

-- The joined map has for each path the quota group of the last subvolume listed there that has one.
pub lookup-join_usage :
    (qgroups : Dict QgroupInfo) (subvols : List SubvolEntry) (result : Dict QgroupInfo) (p : Bytes)
    → lookup p (join_usage qgroups subvols result)
      ≡ or_else (last_at qgroups subvols p) (lookup p result)
unfolding join_usage last_at
lookup-join_usage qgroups [] result p = refl
lookup-join_usage qgroups (sv ∷ subvols) result p =
    let later = last_at qgroups subvols p in
    elim (Option-cases (lookup (qgroup_id sv.id) qgroups)) [
      | inl e ↦ rw e (
          lookup-join_usage qgroups subvols result p
          ∙ ap (λ o. or_else o (lookup p result)) (sym (or_else-if_none later (sv.path =b p))))
      | inr (info, e) ↦ rw e (
          lookup-join_usage qgroups subvols (insert sv.path info result) p
          ∙ ap (or_else later) (lookup-insert sv.path p info result)
          ∙ or_else-if later info (sv.path =b p) (lookup p result))
    ]
