-- ===== src/Locks/Exclusion.antt =====
-- At most one caller has the lock of a path, though mutexes of the path come and go.
use btrfs_nfs_csi.Base.{
  ℕ, zero, suc, ◌+◌, ◌≤◌, ◌<◌, ◌≡◌, refl, Bool, true, false, List, [], ◌∷◌, Option, none, some, All,
  arith, Option-cases, inl, inr, ◌⊎◌,
}
use btrfs_nfs_csi.Locks.{
  RefMutex, Pool, Place, outside, waiting, inside, leaving, path_lock_shared, release_ref, Move,
  enter, take, give_up, give_back, release, move, move_at, Runs, start, next,
}

abbrev pub counted : Place → ℕ
counted outside = 0
counted w = 1

abbrev pub has_lock : Place → ℕ
has_lock (inside m) = 1
has_lock w = 0

abbrev pub total : (Place → ℕ) → List Place → ℕ
total f [] = 0
total f (w ∷ ws) = f w + total f ws

-- A caller that is not outside holds a reference to the mutex of the entry.
abbrev RefersTo : Option ℕ → Place → Type 0
RefersTo e outside = Unit
RefersTo e (waiting m) = e ≡ some m
RefersTo e (inside m) = e ≡ some m
RefersTo e (leaving m) = e ≡ some m

abbrev token_count : Bool → ℕ
token_count true = 1
token_count false = 0

abbrev Balanced : Option ℕ → (ℕ → RefMutex) → ℕ → ℕ → Type 0
Balanced none mutexes active holders = (active ≡ 0) × (holders ≡ 0)
Balanced (some m) mutexes active holders =
    (0 < active) × ((mutexes m).refs ≡ active) × (holders + token_count (mutexes m).token ≡ 1)

abbrev IsSound : Pool → List Place → Type 0
IsSound pool ws =
    All (RefersTo pool.entry) ws
    × Balanced pool.entry pool.mutexes (total counted ws) (total has_lock ws)

-- What one step changes.
abbrev Changed : Move → Pool → List Place → Pool → List Place → Type 0
Changed a pool ws pool' ws' =
    (w : Place) × (w' : Place) × (move a pool w ≡ some (pool', w'))
    × (total counted ws' + counted w ≡ total counted ws + counted w')
    × (total has_lock ws' + has_lock w ≡ total has_lock ws + has_lock w')
    × ((e : Option ℕ) → All (RefersTo e) ws → RefersTo e w)
    × ((e : Option ℕ) → All (RefersTo e) ws → RefersTo e w' → All (RefersTo e) ws')

move_at-Changed :
    (i : ℕ) (a : Move) (pool pool' : Pool) (ws ws' : List Place)
    → move_at i a pool ws ≡ some (pool', ws')
    → Changed a pool ws pool' ws'
unfolding move_at
move_at-Changed i a pool pool' [] ws' h = absurd (cc (h))
move_at-Changed zero a pool pool' (w ∷ rest) ws' h = elim (Option-cases (move a pool w)) [
  | inl refused ↦ absurd (ground (arith, refused))
  | inr ((p, w'), moved) ↦
      let same : (p ≡ pool') × (w' ∷ rest ≡ ws') = ground (arith, moved) in
      rw (← same.1, ← same.0)
        (w, w', moved, omega arith, omega arith, (λ e k. k.0), (λ e k r. (r, k.1)))
]
move_at-Changed (suc i) a pool pool' (w ∷ rest) ws' h =
    elim (Option-cases (move_at i a pool rest)) [
      | inl refused ↦ absurd (ground (arith, refused))
      | inr ((p, rest'), moved) ↦
          let same : (p ≡ pool') × (w ∷ rest' ≡ ws') = ground (arith, moved) in
          let (x, x', step_of, c1, c2, r1, r2) = move_at-Changed i a pool p rest rest' moved in
          rw (← same.1, ← same.0)
            (
              x,
              x',
              step_of,
              omega (arith, c1),
              omega (arith, c2),
              (λ e k. r1 e k.1),
              (λ e k r. (k.0, r2 e k.1 r)),
            )
    ]

abbrev pub pool_of : Option ℕ → (ℕ → RefMutex) → ℕ → Pool
pool_of e mutexes made = record { entry = e; mutexes = mutexes; made = made }

-- What a step of one caller keeps, in terms of the two counts.
abbrev Kept : Pool → Place → ℕ → ℕ → Option ℕ → ℕ → Type 0
Kept pool' w' active' holders' e active =
    Balanced pool'.entry pool'.mutexes active' holders'
    × RefersTo pool'.entry w'
    × ((pool'.entry ≡ e) ⊎ ((active ≡ 0) ⊎ (active' ≡ 0)))

move-Kept :
    (a : Move) (e : Option ℕ) (mutexes : ℕ → RefMutex) (made : ℕ) (w w' : Place) (pool' : Pool)
    (active active' holders holders' : ℕ)
    → move a (pool_of e mutexes made) w ≡ some (pool', w')
    → RefersTo e w
    → Balanced e mutexes active holders
    → active' + counted w ≡ active + counted w'
    → holders' + has_lock w ≡ holders + has_lock w'
    → holders' ≤ active'
    → Kept pool' w' active' holders' e active
unfolding move path_lock_shared release_ref
move-Kept enter none mutexes made outside w' pool' active active' holders holders' h refers ok c1 c2
      le =
    ground arith
move-Kept enter (some m) mutexes made outside w' pool' active active' holders holders' h refers ok
      c1 c2 le =
    ground arith
move-Kept take (some m) mutexes made (waiting k) w' pool' active active' holders holders' h refers
      ok c1 c2 le =
    ground arith
move-Kept give_up (some m) mutexes made (waiting k) w' pool' active active' holders holders' h
      refers ok c1 c2 le =
    ground arith
move-Kept give_back (some m) mutexes made (inside k) w' pool' active active' holders holders' h
      refers ok c1 c2 le =
    ground arith
move-Kept release (some m) mutexes made (leaving k) w' pool' active active' holders holders' h
      refers ok c1 c2 le =
    ground arith
move-Kept a e mutexes made w w' pool' active active' holders holders' h refers ok c1 c2 le =
    ground arith

has_lock-counted : (ws : List Place) → total has_lock ws ≤ total counted ws
has_lock-counted [] = omega arith
has_lock-counted (outside ∷ ws) = omega (arith, has_lock-counted ws)
has_lock-counted (waiting m ∷ ws) = omega (arith, has_lock-counted ws)
has_lock-counted (inside m ∷ ws) = omega (arith, has_lock-counted ws)
has_lock-counted (leaving m ∷ ws) = omega (arith, has_lock-counted ws)

-- Callers that are all outside refer to whatever the entry is.
RefersTo-none : (e : Option ℕ) (ws : List Place) → total counted ws ≡ 0 → All (RefersTo e) ws
RefersTo-none e [] h = tt
RefersTo-none e (outside ∷ ws) h = (tt, RefersTo-none e ws (omega arith))
RefersTo-none e (waiting m ∷ ws) h = absurd (omega arith)
RefersTo-none e (inside m ∷ ws) h = absurd (omega arith)
RefersTo-none e (leaving m ∷ ws) h = absurd (omega arith)

step-IsSound :
    (i : ℕ) (a : Move) (pool pool' : Pool) (ws ws' : List Place)
    → move_at i a pool ws ≡ some (pool', ws')
    → IsSound pool ws
    → IsSound pool' ws'
step-IsSound i a pool pool' ws ws' h ok =
    let (w, w', moved, c1, c2, r1, r2) = move_at-Changed i a pool pool' ws ws' h in
    let (balanced, refers, cases) =
      move-Kept a pool.entry pool.mutexes pool.made w w' pool' (total counted ws)
        (total counted ws') (total has_lock ws) (total has_lock ws') moved (r1 pool.entry ok.0) ok.1
        c1 c2 (has_lock-counted ws') in
    (
      elim cases [
        | inl same ↦
            let old : All (RefersTo pool'.entry) ws = rw same (ok.0) in r2 pool'.entry old refers
        | inr (inl nobody) ↦ r2 pool'.entry (RefersTo-none pool'.entry ws nobody) refers
        | inr (inr nobody) ↦ RefersTo-none pool'.entry ws' nobody
      ],
      balanced,
    )

Runs-IsSound :
    {pool : Pool} {ws : List Place} {pool' : Pool} {ws' : List Place}
    → Runs pool ws pool' ws'
    → IsSound pool ws
    → IsSound pool' ws'
Runs-IsSound start ok = ok
Runs-IsSound (next {before} {after} {ws = us} {ws' = us'} i a run h) ok =
    step-IsSound i a before after us us' h (Runs-IsSound run ok)

-- From an empty pool with all callers outside, after any steps of the callers in any order, at most
-- one caller has the lock, whichever mutex it got it from; and when all callers are outside again,
-- the pool has no entry for the path.
pub Runs-exclusive :
    (mutexes : ℕ → RefMutex) (made : ℕ) (callers : List Place) (pool' : Pool) (ws' : List Place)
    → Runs (pool_of none mutexes made) callers pool' ws'
    → total counted callers ≡ 0
    → (total has_lock ws' ≤ 1) × (total counted ws' ≡ 0 → pool'.entry ≡ none)
Runs-exclusive mutexes made callers pool' ws' run idle =
    let free = has_lock-counted callers in
    let sound = Runs-IsSound run (RefersTo-none none callers idle, (idle, omega arith)) in
    at_most pool'.entry pool'.mutexes (total counted ws') (total has_lock ws') (sound.1)
  where
    at_most :
        (e : Option ℕ) (m : ℕ → RefMutex) (active holders : ℕ)
        → Balanced e m active holders
        → (holders ≤ 1) × (active ≡ 0 → e ≡ none)
    at_most none m active holders h = (omega (arith, h.1), λ k. refl)
    at_most (some k) m active holders h =
        (omega (arith, h.2), λ none_left. absurd (omega (arith, h.0)))
