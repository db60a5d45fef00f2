-- ===== src/Storage/Orphans.antt =====
-- A creation that fails leaves no subvolume behind: the rules that all four creating handlers of
-- agent/storage share.
pub mod Created
pub mod Snapped
pub mod Cloned
use btrfs_nfs_csi.Base.{
  Bytes, ◌≡◌, refl, sym, ◌∙◌, Bool, true, false, not, ◌&&◌, List, [], ◌∷◌, arith, if◌then◌else◌, ℕ,
}
use btrfs_nfs_csi.Storage.Model.{Error, storage, not_found}
use btrfs_nfs_csi.Storage.Host.{
  is_meta_call, Config, Host, State, Event, FilePath, Call, Outcome, done, not_exist, target_exists,
  failed, subvolume_delete, remove_all, mkdir_all, subvolume_create, subvolume_snapshot, lock,
  unlock, Read, got, missing, broken,
}
use btrfs_nfs_csi.Storage.Exec.{
  Exec, Result, ok, err, ◌>>=◌, ◌>>◌, pure, fail, guard, locked, after_call, call, try_call, must,
}
use btrfs_nfs_csi.Storage.Exec.Triple.{
  Post, Triple, Triple-pure, Triple-fail, Triple-bind, Triple-try, Triple-must, Triple-guard,
  Triple-call, Triple-locked, Triple-weaken, Answered,
}
use btrfs_nfs_csi.Storage.Tenant.{tenant_path}
use btrfs_nfs_csi.Storage.Clones.{found_snapshot}
use btrfs_nfs_csi.Storage.Disk.{has_subvolume, subvolume_step, subvolume_step-meta, path_refl, ◌=p◌}

-- After a success the subvolume exists; after an error it exists only if it did before.
abbrev pub Settled : {A : Type 0} → Result A → Bool → Bool → Type 0
Settled (ok a) before after = after ≡ true
Settled (err e) before after = (after && not before) ≡ false

module _ (p : FilePath) where
  abbrev pub made : State → Bool
  made s = has_subvolume p s.trace

  abbrev pub Made : Bool → State → Type 0
  Made b s = made s ≡ b

  abbrev pub Gone : Bool → Error → State → Type 0
  Gone b e s = (made s && not b) ≡ false

  pub Made-Gone : (b : Bool) (e : Error) (s : State) → Made b s → Gone b e s
  Made-Gone b e s h = ground arith

  -- A call that makes or deletes no subvolume leaves the answer alone.
  abbrev pub is_neutral : Call → Bool
  is_neutral (subvolume_create q) = false
  is_neutral (subvolume_delete q) = false
  is_neutral (subvolume_snapshot src q readonly) = false
  is_neutral _ = true

  pub neutral :
      (b : Bool) (s : State) (c : Call) (o : Outcome)
      → is_neutral c ≡ true
      → Made b s
      → Made b (after_call s c o)
  neutral b s (subvolume_create q) o own h = absurd (cc)
  neutral b s (subvolume_delete q) o own h = absurd (cc)
  neutral b s (subvolume_snapshot src q readonly) o own h = absurd (cc)
  neutral b s _ o own h = h

  pub meta_keeps :
      (b : Bool) (s : State) (c : Call) (o : Outcome)
      → is_meta_call c ≡ true
      → Made b s
      → Made b (after_call s c o)
  meta_keeps b s c o own h = subvolume_step-meta p c o _ own ∙ h

  neutral-Answered :
      (b : Bool) (s : State) (c : Call) (o : Outcome)
      → is_neutral c ≡ true
      → Made b s
      → Answered (Made b) (Made b) o (after_call s c o)
  neutral-Answered b s c done own h = neutral b s c done own h
  neutral-Answered b s c not_exist own h = neutral b s c not_exist own h
  neutral-Answered b s c target_exists own h = neutral b s c target_exists own h
  neutral-Answered b s c failed own h = neutral b s c failed own h

  -- A step before the subvolume is made.
  pub before_rule :
      (host : Host) (b : Bool) (c : Call) (e : Error)
      → is_neutral c ≡ true
      → Triple (Made b) (must host c (pure tt) e) (λ _. Made b) (Gone b)
  before_rule host b c e own =
      Triple-must host c (Made b) (pure tt) e (λ s o h. neutral-Answered b s c o own h)
        (Triple-bind {R = λ _. Made b} _ _ (Triple-pure tt λ s h. h)
          λ _. Triple-fail e λ s h. Made-Gone b e s h)

  -- The answers of the two calls that make the subvolume.
  pub create-Answered :
      (b : Bool) (o : Outcome) (s : State)
      → Made b s
      → Answered (Made true) (Made b) o (after_call s (subvolume_create p) o)
  create-Answered b done s h = rw (path_refl p) refl
  create-Answered b not_exist s h = h
  create-Answered b target_exists s h = h
  create-Answered b failed s h = h

  pub snapshot-Answered :
      (b : Bool) (src : FilePath) (readonly : Bool) (o : Outcome) (s : State)
      → Made b s
      → Answered (Made true) (Made b) o (after_call s (subvolume_snapshot src p readonly) o)
  snapshot-Answered b src readonly done s h = rw (path_refl p) refl
  snapshot-Answered b src readonly not_exist s h = h
  snapshot-Answered b src readonly target_exists s h = h
  snapshot-Answered b src readonly failed s h = h

  module _ (host : Host)
      (deletes : (t : List Event) (q : FilePath) → host.respond t (subvolume_delete q) ≡ done) where
    -- The cleanup of a creation, from any state.
    pub cleanup_rule :
        (b b' : Bool) (dir : FilePath) (e : Error) {A : Type 0} {Q : A → State → Type 0}
        → Triple
            (Made b')
            ((try_call host (subvolume_delete p) >> try_call host (remove_all dir))
              >> fail {A = A} e)
            Q
            (Gone b)
    unfolding fail try_call ◌>>=◌
    cleanup_rule b b' dir e = record { run = λ s h. ground (arith, deletes s.trace p, path_refl p) }

    -- A step on the fresh subvolume.
    pub fresh_rule :
        (b : Bool) (c : Call) (dir : FilePath) (e : Error)
        → is_neutral c ≡ true
        → Triple
            (Made true)
            (must host c (try_call host (subvolume_delete p) >> try_call host (remove_all dir)) e)
            (λ _. Made true)
            (Gone b)
    fresh_rule b c dir e own =
        Triple-must host c (Made true) _ e (λ s o h. neutral-Answered true s c o own h)
          (cleanup_rule b true dir e)

  pub guard_rule : (b g : Bool) (e : Error) → Triple (Made b) (guard g e) (λ _. Made b) (Gone b)
  guard_rule b true e = Triple-weaken (Triple-guard true e λ s h. Made-Gone b e s h) λ a s h. h.1
  guard_rule b false e = Triple-weaken (Triple-guard false e λ s h. Made-Gone b e s h) λ a s h. h.1

  pub tenant_rule :
      (b : Bool) (host : Host) (cfg : Config) (tenant : Bytes)
      → Triple (Made b) (tenant_path host cfg tenant) (λ _. Made b) (Gone b)
  unfolding tenant_path
  tenant_rule b host cfg tenant =
      Triple-bind _ _ (guard_rule b _ _)
        λ _. Triple-bind _ _ (Triple-call host _ λ s h. h) λ o. guard_rule b _ _

  pub locked_rule :
      (b : Bool) (host : Host) (q : FilePath) (e : Error) {A : Type 0} (m : Exec A)
      → Triple (Made b) m (λ _. Made true) (Gone b)
      → Triple (Made b) (locked host q e m) (λ _. Made true) (Gone b)
  locked_rule b host q e m h =
      Triple-locked host q e m (λ s o k. neutral b s (lock q) o refl k)
        (λ a s o k. neutral true s (unlock q) o refl k) (λ e' s o k. k) (λ s k. Made-Gone b e s k) h

  -- What a triple over these assertions says of a run.
  pub settled :
      {A : Type 0} (m : Exec A)
      → ((b : Bool) → Triple (Made b) m (λ _. Made true) (Gone b))
      → (s : State) → Settled (m s).0 (made s) (made (m s).1)
  settled m h s = read (m s).0 (m s).1 ((h (made s)).run s refl)
    where
      read :
          {A : Type 0} (r : Result A) (s' : State)
          → Post (λ _. Made true) (Gone (made s)) r s'
          → Settled r (made s) (made s')
      read (ok a) s' g = g
      read (err e) s' g = g

pub found_rule :
    {T : Type 0} (p : FilePath) (b : Bool) (r : Read T)
    → Triple (Made p b) (found_snapshot r) (λ _. Made p b) (Gone p b)
unfolding found_snapshot
found_rule p b (got v) = Triple-pure v λ s h. h
found_rule p b missing = Triple-fail _ λ s h. Made-Gone p b (storage not_found) s h
found_rule p b broken = Triple-fail _ λ s h. Made-Gone p b (storage not_found) s h
