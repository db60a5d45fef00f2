-- ===== src/Storage/Meta/Frame.antt =====
-- The store's operations keep whatever their own calls and their cache writes keep.
use btrfs_nfs_csi.Base.{◌≡◌, refl, true, Bytes, lookup, Option-cases, inl, inr}
use btrfs_nfs_csi.Storage.Model.{Error}
use btrfs_nfs_csi.Storage.Host.{
  is_meta_call, Host, State, FilePath, Call, Outcome, done, not_exist, target_exists, failed, Read,
  got, missing, broken,
}
use btrfs_nfs_csi.Storage.Exec.{◌>>=◌, after_call, is_done, call, try_call}
use btrfs_nfs_csi.Storage.Exec.Triple.{
  Triple, Triple-pure, Triple-if, Triple-bind, Triple-try, Triple-call, Triple-modify,
}
use btrfs_nfs_csi.Storage.Meta.{
  Store, key, meta_path, put_cached, get, store, write_json_atomic, read_json, cache_read,
  cache_written, update, update_found,
}

module _ {T : Type 0} (host : Host) (base : FilePath) (st : Store T) {P : State → Type 0}
    {E : Error → State → Type 0}
    (stable : (s : State) (c : Call) (o : Outcome)
      → is_meta_call c ≡ true
      → P s
      → P (after_call s c o)) where
  step : (c : Call) → is_meta_call c ≡ true → Triple P (try_call host c) (λ _. P) E
  step c own = Triple-try host c λ s h. stable s c _ own h

  ask : (c : Call) → is_meta_call c ≡ true → Triple P (call host c) (λ _. P) E
  ask c own = Triple-call host c λ s h. stable s c _ own h

  pub write_rule : (p : FilePath) (v : T) → Triple P (write_json_atomic host base st p v) (λ _. P) E
  unfolding write_json_atomic
  write_rule p v = Triple-bind _ _ (ask _ refl) λ written.
      Triple-if (is_done written) _ _
        (λ _. Triple-bind _ _ (step _ refl) λ _. Triple-bind _ _ (ask _ refl) λ renamed.
          Triple-if (is_done renamed) _ _
            (λ _. Triple-bind _ _ (step _ refl) λ _. Triple-pure _ λ s h. h)
            (λ _. Triple-bind _ _ (step _ refl) λ _. Triple-pure _ λ s h. h))
        (λ _. Triple-pure _ λ s h. h)

  module _ (tenant name : Bytes)
      (put : (s : State) (v : T) → P s → P (put_cached st (key tenant name) v s)) where
    cache_written_rule :
        (v : T) (w : Outcome)
        → Triple P (cache_written host base st (key tenant name) v w) (λ _. P) E
    cache_written_rule v done = record { run = λ s h. put s v h }
    cache_written_rule v not_exist = record { run = λ s h. h }
    cache_written_rule v target_exists = record { run = λ s h. h }
    cache_written_rule v failed = record { run = λ s h. h }

    cache_read_rule :
        (r : Read T) → Triple P (cache_read host base st (key tenant name) r) (λ _. P) E
    cache_read_rule (got v) = record { run = λ s h. put s v h }
    cache_read_rule missing = record { run = λ s h. h }
    cache_read_rule broken = record { run = λ s h. h }

    pub get_rule : Triple P (get host base st tenant name) (λ _. P) E
    unfolding get
    get_rule = record {
      run = λ s h. elim (Option-cases (lookup (key tenant name) (st.cache s))) [
        | inl absent ↦ rw (absent, get) (fetch.run s h)
        | inr (v, present) ↦ rw (present, get) h
      ];
    }
      where
        fetch :
            Triple P
              (read_json host base st (meta_path base st tenant name)
                >>= cache_read host base st (key tenant name))
              (λ _. P)
              E
        fetch = Triple-bind _ _ (record { run = λ s h. stable s _ _ refl h }) cache_read_rule

    pub store_rule : (v : T) → Triple P (store host base st tenant name v) (λ _. P) E
    unfolding store
    store_rule v = Triple-bind _ _ (write_rule _ v) (cache_written_rule v)

    update_found_rule :
        (fn alias : T → T) (r : Read T)
        → Triple P
            (update_found host base st (key tenant name) (meta_path base st tenant name) fn alias r)
            (λ _. P)
            E
    unfolding update_found
    update_found_rule fn alias missing = Triple-pure _ λ s h. h
    update_found_rule fn alias broken = Triple-pure _ λ s h. h
    update_found_rule fn alias (got v) =
        Triple-bind _ _ (Triple-modify _ λ s h. put s (alias v) h) λ _.
          Triple-bind _ _ (write_rule _ (fn v))
            λ w. Triple-bind _ _ (cache_written_rule (fn v) w) λ w'. Triple-pure _ λ s h. h

    pub update_rule :
        (fn alias : T → T) → Triple P (update host base st tenant name fn alias) (λ _. P) E
    unfolding update
    update_rule fn alias = Triple-bind _ _ (step _ refl) λ _. Triple-bind _ _ get_rule λ r.
        Triple-bind _ _ (update_found_rule fn alias r)
          λ u. Triple-bind _ _ (step _ refl) λ _. Triple-pure u λ s h. h
