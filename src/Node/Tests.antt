-- ===== src/Node/Tests.antt =====
-- A node with one target, on which the theorems on mounts run.
use btrfs_nfs_csi.Base.{
  ◌≡◌, refl, true, false, [], ◌∷◌, ◌++◌, Option, none, some, codes, ◌=b◌, has_prefix,
}
use btrfs_nfs_csi.Csi.Tracker.{ok}
use btrfs_nfs_csi.Node.{Mounter, mounted, not_mounted, data_dir, node_publish_volume}
use btrfs_nfs_csi.Node.ReadOnly.{
  Mount, IsMounter, made_read_only, Published, node_publish_volume-Published,
}

-- What is mounted at the target. A call with no source is the remount. A bind mount of what lies
-- below /ro is read-only from the start.
abbrev one_target : Mounter
one_target = record {
  World = Option Mount;
  is_mount_point = λ p w. elim w [ none ↦ not_mounted | some m ↦ mounted ];
  mkdir_all = λ p w. (true, w);
  mount = λ source p type options w. (
    true,
    elim options [
      | [] ↦ none
      | o ∷ more ↦ elim more [
        | [] ↦ some (record { source = source; read_only = has_prefix source (codes "/ro") })
        | a ∷ b ↦ made_read_only w
      ]
    ],
  );
  cleanup = λ p w. (true, none);
}

one_target-IsMounter : IsMounter one_target
one_target-IsMounter = record {
  mount_at = λ w p. w;
  mount_at-bind = λ w source p h.
      (record { source = source; read_only = has_prefix source (codes "/ro") }, refl, refl);
  mount_at-remount = λ w p h. refl;
}

node_publish_volume-Published_example :
    Published one_target one_target-IsMounter
      (codes "/stage" ++ b'/' ∷ data_dir)
      (codes "/pod")
      true
      none
      not_mounted
      (node_publish_volume one_target (codes "sc|v") (codes "/stage") (codes "/pod") true none)
node_publish_volume-Published_example =
    node_publish_volume-Published one_target one_target-IsMounter (codes "sc|v") (codes "/stage")
      (codes "/pod") true none (λ e. absurd (cc)) (λ e. absurd (cc)) (λ e. absurd (cc))

abbrev writable : Option Mount
writable = some (record { source = codes "/other"; read_only = false })

-- A target that is mounted writable is left so by a read-only publish, which succeeds.
stays_writable :
    node_publish_volume one_target (codes "sc|v") (codes "/stage") (codes "/pod") true writable
    ≡ (ok tt, writable)
unfolding node_publish_volume ◌=b◌
stays_writable = refl
