-- ===== src/Locks/Tests.antt =====
-- Two callers of one path: the first has the lock, the second waits.
use btrfs_nfs_csi.Base.{ℕ, ◌≤◌, ◌≡◌, refl, true, false, List, [], ◌∷◌, none, some}
use btrfs_nfs_csi.Locks.{
  RefMutex, Pool, Place, outside, waiting, inside, enter, take, put, path_lock_shared, move,
  move_at, Runs, start, next,
}
use btrfs_nfs_csi.Locks.Exclusion.{pool_of, total, has_lock, counted, Runs-exclusive}

abbrev blank : ℕ → RefMutex
blank j = record { token = true; refs = 0 }

abbrev callers : List Place
callers = outside ∷ outside ∷ []

abbrev one_in : List Place
one_in = inside 0 ∷ waiting 0 ∷ []

abbrev first_made : Pool
first_made = record (put 0 (record { token = true; refs = 1 }) (pool_of none blank 0)) {
  entry = some 0;
  made = 1;
}

abbrev second_waits : Pool
second_waits = put 0 (record { token = true; refs = 2 }) first_made

abbrev locked_once : Pool
locked_once = put 0 (record { token = false; refs = 2 }) second_waits

two_callers : Runs (pool_of none blank 0) callers locked_once one_in
unfolding move_at move path_lock_shared
two_callers =
    next {ws = waiting 0 ∷ waiting 0 ∷ []} 0 take
      (next {before = first_made} {after = second_waits} {ws = waiting 0 ∷ outside ∷ []} 1 enter
        (next {ws = callers} 0 enter start refl) refl)
      refl

Runs-exclusive_example :
    (total has_lock one_in ≤ 1) × (total counted one_in ≡ 0 → locked_once.entry ≡ none)
Runs-exclusive_example = Runs-exclusive blank 0 callers locked_once one_in two_callers refl
