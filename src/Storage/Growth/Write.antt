-- ===== src/Storage/Growth/Write.antt =====
-- UpdateVolume up to the write: the cached record stays, and the write is that of its change.
use btrfs_nfs_csi.Base.{
  ℕ, ◌≡◌, refl, Bool, true, false, Option, none, some, Bytes, lookup, arith, if◌then◌else◌, inl,
  inr, ◌⊎◌,
}
use btrfs_nfs_csi.Validate.{is_valid_compression}
use btrfs_nfs_csi.Storage.Model.{VolumeMetadata, VolumeUpdateRequest, Error}
use btrfs_nfs_csi.Storage.Host.{
  Host, Config, State, FilePath, Read, got, missing, broken, Call, Outcome, done, not_exist,
  target_exists, failed,
}
use btrfs_nfs_csi.Storage.Exec.{Exec, Result, pure, guard, lift, must}
use btrfs_nfs_csi.Storage.Exec.Triple.{
  Triple, Triple-pure, Triple-fail, Triple-if, Triple-bind, Triple-guard, Triple-lift, Triple-when,
  Triple-call, Triple-must, Triple-weaken, Triple-modify, Triple-try, Triple-fact, Answered,
}
use btrfs_nfs_csi.Storage.Tenant.{tenant_path}
use btrfs_nfs_csi.Storage.Meta.{
  volumes, key, get, update, Updated, updated, no_entry, unwritable, unwritten, update_found,
}
use btrfs_nfs_csi.Storage.Update.{run_compression, apply_to_disk, when_set}

module _ (host : Host) (cfg : Config) (tenant name : Bytes) (cur : VolumeMetadata) where
  abbrev pub Held : State → Type 0
  Held s = lookup (key tenant name) s.volumes ≡ some cur

  abbrev pub Any : Error → State → Type 0
  Any e s = Unit {0}

  pub held_guard : (g : Bool) (e : Error) → Triple Held (guard g e) (λ _ s. (g ≡ true) × Held s) Any
  held_guard g e = Triple-guard g e λ s h. tt

  pub held_lift : {A : Type 0} (r : Result A) → Triple Held (lift r) (λ _. Held) Any
  held_lift r = Triple-lift r (λ a k s h. h) λ e k s h. tt

  held-Answered : (o : Outcome) (s : State) → Held s → Answered Held Held o s
  held-Answered done s h = h
  held-Answered not_exist s h = h
  held-Answered target_exists s h = h
  held-Answered failed s h = h

  held_must : (c : Call) (e : Error) → Triple Held (must host c (pure tt) e) (λ _. Held) Any
  held_must c e =
      Triple-must host c Held (pure tt) e (λ s o h. held-Answered o _ h)
        (Triple-bind {R = λ _. Held} _ _ (Triple-pure tt λ s h. h) λ _. Triple-fail e λ s h. tt)

  pub held_tenant : Triple Held (tenant_path host cfg tenant) (λ _. Held) Any
  unfolding tenant_path
  held_tenant = Triple-bind _ _ (held_guard _ _) λ _.
      Triple-bind _ _ (Triple-call host _ λ s h. h.1)
        λ o. Triple-weaken (held_guard _ _) λ a s h. h.1

  pub held_get :
      Triple Held (get host cfg.base_path volumes tenant name) (λ r s. (r ≡ got cur) × Held s) Any
  unfolding get
  held_get = record { run = λ s h. rw (h, get) (refl, h) }

  held_set :
      {A : Type 0} (o : Option A) (f : A → Exec Unit)
      → ((a : A) → Triple Held (f a) (λ _. Held) Any)
      → Triple Held (when_set host cfg tenant name o f) (λ _. Held) Any
  held_set none f h = Triple-pure tt λ s k. k
  held_set (some a) f h = h a

  pub held_disk :
      (req : VolumeUpdateRequest) (mode : Option ℕ)
      → Triple Held (apply_to_disk host cfg tenant name cur req mode) (λ _. Held) Any
  unfolding apply_to_disk run_compression
  held_disk req mode =
      Triple-bind _ _ (held_set req.size_bytes _ λ size. Triple-when _ _ (held_must _ _)) λ _.
        Triple-bind _ _ (held_set req.nocow _ λ nocow. Triple-when _ _ (held_must _ _)) λ _.
          Triple-bind _ _
            (held_set req.compression _ λ algo. Triple-when _ _ (
              Triple-if (is_valid_compression algo) _ _ (λ _. held_must _ _)
                (λ _. Triple-fail _ λ s h. tt)))
            λ _.
              Triple-bind _ _ (Triple-when _ _ (held_must _ _))
                λ _. held_set mode _ λ m. held_must _ _

  abbrev pub Wrote : (VolumeMetadata → VolumeMetadata) → Updated VolumeMetadata → Type 0
  Wrote change u = (u ≡ updated cur (change cur)) ⊎ ((u ≡ unwritable) ⊎ (u ≡ no_entry))

  found-Wrote :
      (change : VolumeMetadata → VolumeMetadata) (k : Bytes) (p : FilePath)
      (r : Read VolumeMetadata)
      → Triple
          (λ s. (r ≡ got cur) × Held s)
          (update_found host cfg.base_path volumes k p change (λ v. v) r)
          (λ u s. Wrote change u)
          Any
  unfolding update_found
  found-Wrote change k p missing = record { run = λ s h. absurd (cc (h.0)) }
  found-Wrote change k p broken = record { run = λ s h. absurd (cc (h.0)) }
  found-Wrote change k p (got v) =
      Triple-bind {R = λ a s. v ≡ cur} _ _ (Triple-modify _ λ s h. same h.0) λ _.
        Triple-bind _ _ (Triple-fact (v ≡ cur) _)
          λ w. Triple-bind _ _ (Triple-fact (v ≡ cur) _) λ w'. last w' w
    where
      same : got v ≡ got cur → v ≡ cur
      same e = ground arith

      last :
          (w' : Bool) (w : Outcome)
          → Triple
              (λ s. v ≡ cur)
              (pure (if w' then updated v (change v) else unwritten w))
              (λ u s. Wrote change u)
              Any
      last true w = Triple-pure _ λ s e. inl (rw e refl)
      last false not_exist = Triple-pure _ λ s e. inr (inr refl)
      last false done = Triple-pure _ λ s e. inr (inl refl)
      last false target_exists = Triple-pure _ λ s e. inr (inl refl)
      last false failed = Triple-pure _ λ s e. inr (inl refl)

  pub update-Wrote :
      (change : VolumeMetadata → VolumeMetadata)
      → Triple Held
          (update host cfg.base_path volumes tenant name change (λ v. v))
          (λ u s. Wrote change u)
          Any
  unfolding update
  update-Wrote change = Triple-bind {R = λ _. Held} _ _ (Triple-try host _ λ s h. h) λ _.
      Triple-bind _ _ held_get λ r.
        Triple-bind _ _ (found-Wrote change _ _ r)
          λ u. Triple-bind _ _ (Triple-fact (Wrote change u) _) λ _. Triple-pure u λ s h. h
