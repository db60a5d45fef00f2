-- ===== src/Node/ReadOnly.antt =====
-- What a node's mounts are behind NodePublishVolume of integrations/kubernetes/driver/node.go.
use btrfs_nfs_csi.Base.{
  ◌≡◌, ◌≢◌, refl, ap, ◌∙◌, Bool, true, false, List, [], ◌∷◌, ◌++◌, Option, none, some, Bytes, codes,
  eq_ne, if◌then◌else◌, Bool-cases, inl, inr,
}
use btrfs_nfs_csi.Csi.Tracker.{internal, Reply, ok, refused}
use btrfs_nfs_csi.Node.{
  Mounter, MountCheck, mounted, not_mounted, no_such_path, corrupted, check_failed, data_dir,
  ensure_mounted, then_do, done, remount_ro, bind_mount, node_publish_volume,
}

-- A mount: what it shows, and whether it can only be read.
pub record Mount : Type 0 where
  pub source : Bytes
  pub read_only : Bool

abbrev pub bind_options : List Bytes
bind_options = codes "bind" ∷ []

abbrev pub remount_options : List Bytes
remount_options = codes "bind" ∷ codes "remount" ∷ codes "ro" ∷ []

abbrev pub made_read_only : Option Mount → Option Mount
made_read_only none = none
made_read_only (some m) = some (record m { read_only = true })

-- What a mount must be: it shows the source, and is read-only where that is asked for.
pub record IsShown (source : Bytes) (read_only : Bool) (m : Mount) : Type 0 where
  pub shows_source : m.source ≡ source
  pub stays_unwritten : read_only ≡ true → m.read_only ≡ true

-- The mounts of a node as mount(8) documents them: a bind mount shows its source, with the options of
-- the mount that the source lies on, whatever these are, and a bind remount with `ro` keeps the
-- source and makes the mount read-only.
pub record IsMounter (M : Mounter) : Type 0 where
  pub mount_at : M.World → Bytes → Option Mount
  pub mount_at-bind :
      (w : M.World) (source p : Bytes)
      → (M.mount source p [] bind_options w).0 ≡ true
      → (m : Mount) × (mount_at (M.mount source p [] bind_options w).1 p ≡ some m)
        × (m.source ≡ source)
  pub mount_at-remount :
      (w : M.World) (p : Bytes)
      → (M.mount [] p [] remount_options w).0 ≡ true
      → mount_at (M.mount [] p [] remount_options w).1 p ≡ made_read_only (mount_at w p)

module _ (M : Mounter) (view : IsMounter M) where
  abbrev Shows : Bytes → Bytes → Bool → Reply Unit × M.World → Type 0
  Shows source target read_only (ok u, w) =
      (m : Mount) × (view.mount_at w target ≡ some m) × IsShown source read_only m
  Shows source target read_only (refused code, w) = Unit

  -- What stands behind a call, by what the check of the target said.
  abbrev pub Published : Bytes → Bytes → Bool → M.World → MountCheck → Reply Unit × M.World → Type 0
  Published source target read_only w mounted r = r ≡ (ok tt, w)
  Published source target read_only w check r = Shows source target read_only r

  remount_ro-Shows :
      (source target : Bytes) (w : M.World)
      → (m : Mount) × (view.mount_at w target ≡ some m) × (m.source ≡ source)
      → Shows source target true (remount_ro M target w)
  unfolding remount_ro
  remount_ro-Shows source target w (m, bound, shown) =
      elim (Bool-cases (M.mount [] target [] remount_options w).0) [
        | inl e ↦ rw e (
          record m { read_only = true },
          view.mount_at-remount w target e ∙ ap made_read_only bound,
          record { shows_source = shown; stays_unwritten = λ asked. refl },
        )
        | inr e ↦ rw e tt
      ]

  then_do-Shows :
      (source target : Bytes) (read_only : Bool) (r : Bool × M.World)
      (go : M.World → Reply Unit × M.World)
      → (r.0 ≡ true → Shows source target read_only (go r.1))
      → Shows source target read_only (then_do M r go)
  then_do-Shows source target read_only (true, w) go h = h refl
  then_do-Shows source target read_only (false, w) go h = tt

  finished-Shows :
      (source target : Bytes) (read_only : Bool) (w : M.World)
      → (m : Mount) × (view.mount_at w target ≡ some m) × (m.source ≡ source)
      → Shows source target read_only ((if read_only then remount_ro M target else done M) w)
  finished-Shows source target true w bound = remount_ro-Shows source target w bound
  finished-Shows source target false w (m, bound, shown) =
      (m, bound, record { shows_source = shown; stays_unwritten = λ asked. absurd (cc (asked)) })

  bind_mount-Shows :
      (staging_path target : Bytes) (read_only : Bool) (w : M.World)
      → Shows
          (staging_path ++ b'/' ∷ data_dir)
          target
          read_only
          (bind_mount M staging_path target read_only w)
  unfolding bind_mount remount_ro
  bind_mount-Shows staging_path target read_only w =
      let source = staging_path ++ b'/' ∷ data_dir in
      then_do-Shows source target read_only (M.mkdir_all target w) _ λ e.
        then_do-Shows source target read_only
          (M.mount source target [] bind_options (M.mkdir_all target w).1) _
          λ f.
            finished-Shows source target read_only _
              (view.mount_at-bind (M.mkdir_all target w).1 source target f)

  ensure_mounted-Published :
      (source target : Bytes) (read_only : Bool) (go : M.World → Reply Unit × M.World) (w : M.World)
      → ((v : M.World) → Shows source target read_only (go v))
      → Published source target read_only w
          (M.is_mount_point target w)
          (ensure_mounted M target go w)
  unfolding ensure_mounted
  ensure_mounted-Published source target read_only go w shows = checked (M.is_mount_point target w)
    where
      cleaned-Shows :
          (r : Bool × M.World)
          → Shows source target read_only (if r.0 then go r.1 else (refused internal, r.1))
      cleaned-Shows (true, v) = shows v
      cleaned-Shows (false, v) = tt

      checked :
          (c : MountCheck)
          → Published source target read_only w c (elim c [
            | mounted ↦ (ok tt, w)
            | not_mounted ↦ go w
            | no_such_path ↦ go w
            | corrupted ↦
                let r = M.cleanup target w in if r.0 then go r.1 else (refused internal, r.1)
            | check_failed ↦ (refused internal, w)
          ])
      checked mounted = refl
      checked not_mounted = shows w
      checked no_such_path = shows w
      checked corrupted = cleaned-Shows (M.cleanup target w)
      checked check_failed = tt

  -- NodePublishVolume on a target that is no mount point yet succeeds only with the volume's data
  -- directory mounted there, read-only where that is asked for. On a target that is a mount point it
  -- succeeds and does nothing, whatever is mounted there and whether or not it can be written. The
  -- three paths are not empty, and the mounter behaves as documented.
  pub node_publish_volume-Published :
      (volume_id staging_path target : Bytes) (read_only : Bool) (w : M.World)
      → volume_id ≢ []
      → staging_path ≢ []
      → target ≢ []
      → Published
          (staging_path ++ b'/' ∷ data_dir)
          target
          read_only
          w
          (M.is_mount_point target w)
          (node_publish_volume M volume_id staging_path target read_only w)
  unfolding node_publish_volume ensure_mounted bind_mount
  node_publish_volume-Published volume_id staging_path target read_only w a b c =
      rw (eq_ne volume_id [] a, eq_ne staging_path [] b, eq_ne target [] c)
        (ensure_mounted-Published (staging_path ++ b'/' ∷ data_dir) target read_only
          (bind_mount M staging_path target read_only) w
          (bind_mount-Shows staging_path target read_only))
