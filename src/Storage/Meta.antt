-- ===== src/Storage/Meta.antt =====
-- agent/storage/meta/store.go: the metadata cache, backed by one file per entry.
pub mod Frame
use btrfs_nfs_csi.Base.{
  ℕ, Bool, true, false, List, [], ◌∷◌, ◌++◌, Option, none, some, Bytes, codes, Dict, lookup, insert,
  delete, cut, ◌=b◌, is_none, not, if◌then◌else◌,
}
use btrfs_nfs_csi.Storage.Model.{VolumeMetadata, SnapshotMetadata, Error}
use btrfs_nfs_csi.Storage.Host.{
  FilePath, Document, volume_document, snapshot_document, Call, done, not_exist, target_exists,
  failed, read_file, write_file, rename, remove, set_immutable, lock, unlock, Outcome, Event, Read,
  got, missing, broken, Host, State, metadata_file, data_dir, snapshots_dir,
}
use btrfs_nfs_csi.Storage.Exec.{
  Exec, Result, ok, err, ◌>>=◌, ◌>>◌, pure, fail, call, try_call, modify, after_call, is_done,
}

-- A metadata store of either kind: its cache in the state, its path segments and its file format.
pub record Store (T : Type 0) : Type 0 where
  pub cache : State → Dict T
  pub with_cache : State → Dict T → State
  pub path_segments : List Bytes
  pub read : Host → List Event → FilePath → Read T
  pub document : T → Document

abbrev pub volumes : Store VolumeMetadata
volumes = record {
  cache = λ s. s.volumes;
  with_cache = λ s m. record s { volumes = m };
  path_segments = [];
  read = λ h. h.volume_at;
  document = volume_document;
}

abbrev pub snapshots : Store SnapshotMetadata
snapshots = record {
  cache = λ s. s.snapshots;
  with_cache = λ s m. record s { snapshots = m };
  path_segments = snapshots_dir ∷ [];
  read = λ h. h.snapshot_at;
  document = snapshot_document;
}

unfoldable pub key : Bytes → Bytes → Bytes
key tenant name = tenant ++ b'/' ∷ name

module _ {T : Type 0} (base : FilePath) (st : Store T) where
  unfoldable pub dir : Bytes → Bytes → FilePath
  dir tenant name = base ++ (tenant ∷ (st.path_segments ++ name ∷ []))

  unfoldable pub meta_path : Bytes → Bytes → FilePath
  meta_path tenant name = dir tenant name ++ metadata_file ∷ []

  unfoldable pub data_path : Bytes → Bytes → FilePath
  data_path tenant name = dir tenant name ++ data_dir ∷ []

-- What Update returns: the record before and after, or why there is none. The record before stands
-- for what the caller's closure has seen. `no_entry` is an error that os.IsNotExist holds of, of the
-- read or of the write.
pub data Updated (T : Type 0) : Type 0 where
  updated : (before after : T) → Updated T
  no_entry unreadable unwritable : Updated T

-- The error of a write that did not end well.
abbrev pub unwritten : {T : Type 0} → Outcome → Updated T
unwritten not_exist = no_entry
unwritten _ = unwritable

-- `path + ".tmp"`
unfoldable pub tmp_of : FilePath → FilePath
tmp_of [] = codes ".tmp" ∷ []
tmp_of (x ∷ []) = (x ++ codes ".tmp") ∷ []
tmp_of (x ∷ y ∷ p) = x ∷ tmp_of (y ∷ p)

abbrev pub put_cached : {T : Type 0} → Store T → Bytes → T → State → State
put_cached st k v s = st.with_cache s (insert k v (st.cache s))

module _ {T : Type 0} (host : Host) (base : FilePath) (st : Store T) where
  -- readJSON: the read is logged with the answer of the file system.
  abbrev pub read_json : FilePath → Exec (Read T)
  read_json p s =
      (ok (st.read host s.trace p), after_call s (read_file p) (host.respond s.trace (read_file p)))

  -- The part of Get and LoadFromDisk that follows a read.
  abbrev pub cache_read : Bytes → Read T → Exec (Read T)
  cache_read k (got v) s = (ok (got v), put_cached st k v s)
  cache_read k r s = (ok r, s)

  unfoldable pub get : Bytes → Bytes → Exec (Read T)
  get tenant name s = elim (lookup (key tenant name) (st.cache s)) [
    | some v ↦ (ok (got v), s)
    | none ↦ (read_json (meta_path base st tenant name) >>= cache_read (key tenant name)) s
  ]

  -- writeJSONAtomic: `done` where it returns nil, else how the call that it gives up at ended.
  unfoldable pub write_json_atomic : FilePath → T → Exec Outcome
  write_json_atomic p v = do
    written ← call host (write_file (tmp_of p) (st.document v))
    if is_done written
        then (do
          try_call host (set_immutable p false)
          renamed ← call host (rename (tmp_of p) p)
          if is_done renamed
              then (do try_call host (set_immutable p true); pure done)
              else (do try_call host (remove (tmp_of p)); pure renamed))
        else pure written

  abbrev pub cache_written : Bytes → T → Outcome → Exec Bool
  cache_written k v done s = (ok true, put_cached st k v s)
  cache_written k v _ s = (ok false, s)

  -- Store.Store
  unfoldable pub store : Bytes → Bytes → T → Exec Bool
  store tenant name v = do
    w ← write_json_atomic (meta_path base st tenant name) v
    cache_written (key tenant name) v w

  unfoldable pub update_found : Bytes → FilePath → (T → T) → (T → T) → Read T → Exec (Updated T)
  update_found k p fn alias missing = pure no_entry
  update_found k p fn alias broken = pure unreadable
  update_found k p fn alias (got v) = do
    modify (put_cached st k (alias v))
    w ← write_json_atomic p (fn v)
    w' ← cache_written k (fn v) w
    pure (if w' then updated v (fn v) else unwritten w)

  -- Store.Update. `fn v` is the copy that `fn` has changed; `alias v` is what the cached record is
  -- after `fn`, since the copy shares the arrays and maps of the cached record.
  unfoldable pub update : Bytes → Bytes → (T → T) → (T → T) → Exec (Updated T)
  unfolding update_found
  update tenant name fn alias = do
    try_call host (lock (meta_path base st tenant name))
    r ← get tenant name
    u ← update_found (key tenant name) (meta_path base st tenant name) fn alias r
    try_call host (unlock (meta_path base st tenant name))
    pure u

  -- Store.Delete
  unfoldable pub delete_entry : Bytes → Bytes → Exec Unit
  delete_entry tenant name = do
    try_call host (set_immutable (meta_path base st tenant name) false)
    modify (λ s. st.with_cache s (delete (key tenant name) (st.cache s)))

  abbrev pub mark_loaded : FilePath → Bytes → Read T → Exec (Read T)
  mark_loaded p k (got v) = do try_call host (set_immutable p true); cache_read k (got v)
  mark_loaded p k r = pure r

  -- Store.LoadFromDisk
  unfoldable pub load_from_disk : Bytes → Bytes → Exec (Read T)
  load_from_disk tenant name = do
    r ← read_json (meta_path base st tenant name)
    mark_loaded (meta_path base st tenant name) (key tenant name) r

-- Store.Exists
unfoldable pub exists_entry : {T : Type 0} → Store T → Bytes → Bytes → State → Bool
exists_entry st tenant name s = not (is_none (lookup (key tenant name) (st.cache s)))

-- The entries of Range that belong to one tenant, with their names.
unfoldable pub entries_of : {T : Type 0} → Bytes → Dict T → List (Bytes × T)
entries_of tenant [] = []
entries_of tenant ((k, v) ∷ m) =
    let rest = entries_of tenant m in
    elim (cut b'/' k) [
      | none ↦ rest
      | some (t, name) ↦ if t =b tenant then (name, v) ∷ rest else rest
    ]
