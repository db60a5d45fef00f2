-- ===== src/Storage/Usage/Scanned.antt =====
-- What a scan of agent/storage/usage.go leaves in the record of a volume.
use btrfs_nfs_csi.Base.{
  ℕ, ◌≡◌, ◌≢◌, refl, ap, sym, subst, ◌∙◌, true, false, Option, none, some, Bytes, lookup, arith,
  inl, inr, ◌⊎◌, ◌==◌, eq_iff, ==_iff, Bool-cases, List, if◌then◌else◌,
}
use btrfs_nfs_csi.Base.Int.{same}
use btrfs_nfs_csi.Storage.Model.{VolumeMetadata}
use btrfs_nfs_csi.Storage.Host.{
  Host, Config, State, FilePath, Event, Read, got, stat, lock, unlock, Outcome, done, not_exist,
  target_exists, failed,
}
use btrfs_nfs_csi.Storage.Exec.{
  Exec, Result, ok, err, ◌>>=◌, ◌>>◌, pure, continue, after_call, try_call,
}
use btrfs_nfs_csi.Storage.Exec.Triple.{Post}
use btrfs_nfs_csi.Storage.Meta.{
  volumes, key, data_path, meta_path, put_cached, get, update, update_found, Updated, updated,
  unwritten, write_json_atomic, cache_written,
}
use btrfs_nfs_csi.Storage.Meta.Frame.{write_rule}
use btrfs_nfs_csi.Storage.Usage.{
  FileInfo, QgroupInfo, UsageMap, Scan, unchanged, scan_failed, rewritten, fs_mode, used_of,
  is_measured, drifted, observe, scanned, rewrite_volume, seen_volume, scan_volume,
}

-- The record has the owner and the mode of the directory, the old record's other properties, and the
-- usage that was read, or 0 where none was.
pub record Recorded (usage : UsageMap) (p : FilePath) (i : FileInfo) (cur after : VolumeMetadata)
    : Type 0 where
  pub same_owner : (after.uid ≡ i.owner) × (after.gid ≡ i.group)
  pub same_mode : after.mode ≡ fs_mode i
  pub measured :
      (at_path : FilePath → Option QgroupInfo) (q : QgroupInfo)
      → usage ≡ some at_path
      → at_path p ≡ some q
      → cur.quota_bytes ≢ 0
      → after.used_bytes ≡ q.referenced
  pub unmeasured : usage ≡ none → after.used_bytes ≡ 0
  pub same_exports : (after.exports ≡ cur.exports) × (after.labels ≡ cur.labels)
  pub same_size : (after.size_bytes ≡ cur.size_bytes) × (after.quota_bytes ≡ cur.quota_bytes)

-- The record agrees with the directory, and with the usage where that was read.
pub record Agrees (usage : UsageMap) (p : FilePath) (i : FileInfo) (cur : VolumeMetadata)
    : Type 0 where
  pub owner_agrees : (same i.owner cur.uid ≡ true) × (same i.group cur.gid ≡ true)
  pub mode_agrees : fs_mode i ≡ cur.mode
  pub usage_agrees : is_measured usage cur ≡ true → used_of usage p cur ≡ some cur.used_bytes

-- What a scan answers: never an error, and without a result only where the directory or its usage
-- could not be read, or the metadata could not be written.
abbrev pub Reports :
    UsageMap
    → FilePath
    → VolumeMetadata
    → Type 0
    → Option FileInfo
    → Result (Scan VolumeMetadata)
    → Type 0
Reports usage p cur unwritten i (err e) = ⊥
Reports usage p cur unwritten none (ok scan_failed) = Unit
Reports usage p cur unwritten none (ok _) = ⊥
Reports usage p cur unwritten (some i) (ok scan_failed) = (used_of usage p cur ≡ none) ⊎ unwritten
Reports usage p cur unwritten (some i) (ok unchanged) = Agrees usage p i cur
Reports usage p cur unwritten (some i) (ok (rewritten after)) = Recorded usage p i cur after

-- Where the write of the changed record begins, on the path of a scan that holds the record in the
-- cache: the directory has been looked at and the lock is taken.
abbrev pub at_write : Host → Config → Bytes → Bytes → VolumeMetadata → State → State
at_write host cfg tenant name cur s =
    let p = data_path cfg.base_path volumes tenant name in
    let looked = after_call s (stat p) (host.respond s.trace (stat p)) in
    let place = lock (meta_path cfg.base_path volumes tenant name) in
    put_cached volumes (key tenant name) cur
      (after_call looked place (host.respond looked.trace place))

-- The write of the metadata with what the scan has seen does not end well.
abbrev pub Unwritten :
    Host → Config → Bytes → Bytes → VolumeMetadata → UsageMap → Option FileInfo → ℕ → State → Type 0
Unwritten host cfg tenant name cur usage none now s = ⊥
Unwritten host cfg tenant name cur usage (some i) now s =
    (used : ℕ) × (used_of usage (data_path cfg.base_path volumes tenant name) cur ≡ some used)
    × ((write_json_atomic host cfg.base_path volumes (meta_path cfg.base_path volumes tenant name)
          (observe i used now cur) (at_write host cfg tenant name cur s)).0
        ≢ ok done)

observe-Recorded :
    (usage : UsageMap) (p : FilePath) (i : FileInfo) (used now : ℕ) (cur : VolumeMetadata)
    → used_of usage p cur ≡ some used
    → Recorded usage p i cur (observe i used now cur)
unfolding observe used_of
observe-Recorded usage p i used now cur e = record {
  same_owner = (refl, refl);
  same_mode = refl;
  measured = λ at_path q known found quota.
      let zero_quota = ==_iff cur.quota_bytes 0 in
      ground (arith, rw (known, used_of, found) at e, zero_quota, quota);
  unmeasured = λ no_map. ground (arith, rw (no_map, used_of) at e);
  same_exports = (refl, refl);
  same_size = (refl, refl);
}

not_drifted-Agrees :
    (usage : UsageMap) (p : FilePath) (i : FileInfo) (used : ℕ) (cur : VolumeMetadata)
    → used_of usage p cur ≡ some used
    → drifted usage i used cur ≡ false
    → Agrees usage p i cur
unfolding drifted
not_drifted-Agrees usage p i used cur e still = record {
  owner_agrees = (ground (arith, still), ground (arith, still));
  mode_agrees = (eq_iff (fs_mode i) cur.mode).0 (ground (arith, still));
  usage_agrees = λ known.
      let equal : (used == cur.used_bytes) ≡ true = ground (arith, still, known) in
      e ∙ ap some ((==_iff used cur.used_bytes).0 equal);
}

module _ (host : Host) (file_info : List Event → FilePath → Option FileInfo) (cfg : Config)
    (tenant name : Bytes) (usage : UsageMap) (now : ℕ) (cur : VolumeMetadata) where
  abbrev place : FilePath
  place = data_path cfg.base_path volumes tenant name

  abbrev record_path : FilePath
  record_path = meta_path cfg.base_path volumes tenant name

  -- What follows the write, whatever that is.
  abbrev behind : VolumeMetadata → Exec Outcome → Exec (Scan VolumeMetadata)
  behind new write = do
    u ← (do
      u ← (do
        w ← write
        w' ← cache_written host cfg.base_path volumes (key tenant name) new w
        pure (if w' then updated cur new else unwritten w))
      try_call host (unlock record_path)
      pure u)
    pure (scanned u)

  behind-Reports :
      (i : FileInfo) (new : VolumeMetadata) (Lost : Type 0) (r : Result Outcome) (s s' : State)
      → Recorded usage place i cur new
      → (r ≢ ok done → Lost)
      → Post (λ o s. Unit {0}) (λ e s. ⊥) r s'
      → Reports usage place cur Lost (some i) (behind new (λ _. (r, s')) s).0
  unfolding scanned ◌>>=◌
  behind-Reports i new Lost (ok done) s s' seen h total = seen
  behind-Reports i new Lost (ok not_exist) s s' seen h total = inr (h λ e. absurd (cc (e)))
  behind-Reports i new Lost (ok target_exists) s s' seen h total = inr (h λ e. absurd (cc (e)))
  behind-Reports i new Lost (ok failed) s s' seen h total = inr (h λ e. absurd (cc (e)))
  behind-Reports i new Lost (err e) s s' seen h total = total

  write_ends :
      (new : VolumeMetadata) (s : State)
      → Post
          (λ o s. Unit {0})
          (λ e s. ⊥)
          (write_json_atomic host cfg.base_path volumes record_path new s).0
          (write_json_atomic host cfg.base_path volumes record_path new s).1
  write_ends new s =
      (write_rule host cfg.base_path volumes {P = λ s. Unit {0}} {E = λ e s. ⊥} (λ s c o own h. tt)
          record_path new).run
        s tt

  -- What follows the look into the cache.
  abbrev from_cache :
      (VolumeMetadata → VolumeMetadata)
      → Result (Read VolumeMetadata) × State
      → Result (Updated VolumeMetadata) × State
  from_cache change g =
      continue g.0
        (λ r. do
          u ←
              update_found host cfg.base_path volumes (key tenant name) record_path change (λ v. v)
                r
          try_call host (unlock record_path)
          pure u)
        g.1

  get-held :
      (s : State)
      → lookup (key tenant name) s.volumes ≡ some cur
      → get host cfg.base_path volumes tenant name s ≡ (ok (got cur), s)
  unfolding get
  get-held s known = rw (known, get) refl

  abbrev Lost : Option FileInfo → State → Type 0
  Lost i s = Unwritten host cfg tenant name cur usage i now s

  rewrite_volume-Reports :
      (i : FileInfo) (used : Option ℕ) (s : State)
      → used_of usage place cur ≡ used
      → lookup (key tenant name) s.volumes ≡ some cur
      → Reports usage place cur
          (Lost (some i) s)
          (some i)
          (rewrite_volume host file_info cfg tenant usage now name cur i used
            (after_call s (stat place) (host.respond s.trace (stat place)))).0
  unfolding rewrite_volume update ◌>>=◌
  rewrite_volume-Reports i none s e known = inl e
  rewrite_volume-Reports i (some used) s e known = elim (Bool-cases (drifted usage i used cur)) [
    | inr still ↦ rw still (not_drifted-Agrees usage place i used cur e still)
    | inl moved ↦
        let new = observe i used now cur in
        let start = at_write host cfg tenant name cur s in
        let result = write_json_atomic host cfg.base_path volumes record_path new start in
        let change = observe i used now in
        let looked = after_call s (stat place) (host.respond s.trace (stat place)) in
        let locked = (try_call host (lock record_path) looked).1 in
        rw moved (
          subst
            (λ g.
              Reports usage place cur (Lost (some i) s) (some i)
                (continue (from_cache change g).0 (λ u. pure (scanned u))
                  (from_cache change g).1).0)
            (sym (get-held locked known))
            (behind-Reports i new (Lost (some i) s) result.0 start result.1
              (observe-Recorded usage place i used now cur e) (λ h. (used, e, h))
              (write_ends new start)))
  ]

  seen_volume-Reports :
      (i : Option FileInfo) (s : State)
      → lookup (key tenant name) s.volumes ≡ some cur
      → Reports usage place cur
          (Lost i s)
          i
          (seen_volume host file_info cfg tenant usage now name cur i
            (after_call s (stat place) (host.respond s.trace (stat place)))).0
  unfolding seen_volume pure
  seen_volume-Reports none s known = tt
  seen_volume-Reports (some i) s known = rewrite_volume-Reports i _ s refl known

-- The scan of a cached volume never ends in an error. Where it rewrites the record, that has the
-- owner and the mode of the directory, the usage that was read where there was one to read, and no
-- usage at all where the bulk query gave none, whatever was recorded before; where it leaves the
-- record unchanged, that agrees with all that was read; and it fails only where the directory could
-- not be looked at, the map of the usage lacks the volume, or the metadata could not be written.
pub scan_volume-Reports :
    (host : Host) (file_info : List Event → FilePath → Option FileInfo) (cfg : Config)
    (tenant name : Bytes) (usage : UsageMap) (now : ℕ) (cur : VolumeMetadata) (s : State)
    → lookup (key tenant name) s.volumes ≡ some cur
    → (let p = data_path cfg.base_path volumes tenant name in
        Reports usage p cur
          (Unwritten host cfg tenant name cur usage (file_info s.trace p) now s)
          (file_info s.trace p)
          (scan_volume host file_info cfg tenant usage now name cur s).0)
unfolding scan_volume ◌>>=◌
scan_volume-Reports host file_info cfg tenant name usage now cur s known =
    seen_volume-Reports host file_info cfg tenant name usage now cur _ _ known
