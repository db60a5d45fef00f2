-- ===== src/Locks.antt =====
-- agent/storage/meta/store.go: the pool of path locks. One path and its callers: the entry of
-- locksMap, the mutexes made for the path so far, and where each caller is.
pub mod Exclusion
pub mod Tests
use btrfs_nfs_csi.Base.{
  ℕ, zero, suc, ◌+◌, ◌-◌, ◌≡◌, Bool, true, false, List, [], ◌∷◌, Option, none, some, ◌==◌,
  if◌then◌else◌,
}

-- refMutex: a token in the channel, and the count of references.
pub record RefMutex : Type 0 where
  pub token : Bool
  pub refs : ℕ

pub record Pool : Type 0 where
  pub entry : Option ℕ
  pub mutexes : ℕ → RefMutex
  pub made : ℕ

-- A caller outside, before the receive from a mutex's channel, with the lock, and before releaseRef.
pub data Place : Type 0 where
  outside : Place
  waiting inside leaving : ℕ → Place

abbrev pub put : ℕ → RefMutex → Pool → Pool
put m x pool = record pool { mutexes = λ j. if m == j then x else pool.mutexes j }

-- pathLockShared
unfoldable pub path_lock_shared : Pool → Pool × ℕ
path_lock_shared pool = elim pool.entry [
  | none ↦ (
    record (put pool.made (record { token = true; refs = 1 }) pool) {
      entry = some pool.made;
      made = suc pool.made;
    },
    pool.made,
  )
  | some m ↦ (put m (record (pool.mutexes m) { refs = suc (pool.mutexes m).refs }) pool, m)
]

-- releaseRef
unfoldable pub release_ref : ℕ → Pool → Pool
release_ref m pool =
    let left = (pool.mutexes m).refs - 1 in
    let dropped = put m (record (pool.mutexes m) { refs = left }) pool in
    if left == 0 then record dropped { entry = none } else dropped

-- The steps of a caller. `give_up` is the end of its context.
pub data Move : Type 0 where
  enter take give_up give_back release : Move

unfoldable pub move : Move → Pool → Place → Option (Pool × Place)
unfolding path_lock_shared release_ref
move enter pool outside = let shared = path_lock_shared pool in some (shared.0, waiting shared.1)
move take pool (waiting m) =
    if (pool.mutexes m).token
    then some (put m (record (pool.mutexes m) { token = false }) pool, inside m)
    else none
move give_up pool (waiting m) = some (pool, leaving m)
move give_back pool (inside m) =
    if (pool.mutexes m).token
    then none
    else some (put m (record (pool.mutexes m) { token = true }) pool, leaving m)
move release pool (leaving m) = some (release_ref m pool, outside)
move _ pool _ = none

abbrev pub keep_head : Place → Option (Pool × List Place) → Option (Pool × List Place)
keep_head w none = none
keep_head w (some (pool, rest)) = some (pool, w ∷ rest)

abbrev pub put_head : List Place → Option (Pool × Place) → Option (Pool × List Place)
put_head rest none = none
put_head rest (some (pool, w)) = some (pool, w ∷ rest)

-- A step of the caller at a position.
unfoldable pub move_at : ℕ → Move → Pool → List Place → Option (Pool × List Place)
move_at i a pool [] = none
move_at zero a pool (w ∷ rest) = put_head rest (move a pool w)
move_at (suc i) a pool (w ∷ rest) = keep_head w (move_at i a pool rest)

pub data Runs (pool : Pool) (callers : List Place) : Pool → List Place → Type 0 where
  start : Runs pool callers pool callers
  next :
      {before after : Pool} {ws ws' : List Place} (i : ℕ) (a : Move)
      → Runs pool callers before ws
      → move_at i a before ws ≡ some (after, ws')
      → Runs pool callers after ws'
