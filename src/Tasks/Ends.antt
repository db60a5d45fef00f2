-- ===== src/Tasks/Ends.antt =====
-- What is over stays over, in every order of the events.
use btrfs_nfs_csi.Base.{
  ℕ, ◌≡◌, refl, ◌∙◌, Bool, true, false, List, [], ◌∷◌, map, any, Option, none, some, Bytes, ◌=b◌,
  eq_iff, All, arith, if◌then◌else◌, Option-cases, Bool-cases, inl, inr, subst, subst,
}
use btrfs_nfs_csi.Tasks.{is_terminal, TaskOpts, Task, RunningTask, Action, new_task, advance}
use btrfs_nfs_csi.Tasks.Manager.{
  Manager, limited, sem_after, at_task, unlist, Event, create, act, cleanup_before, step, Reached,
  begun, then_step,
}
use btrfs_nfs_csi.Tasks.Every.{All-at_task, All-unlist}
use btrfs_nfs_csi.Tasks.Lifecycle.{
  IsConsistent, SameEnd, advance-IsConsistent, advance-SameEnd, advance-id,
}

-- The stored task of an id, listed or not.
abbrev pub stored : Bytes → List RunningTask → Option Task
stored id [] = none
stored id (r ∷ rest) = let later = stored id rest in if r.task.id =b id then some r.task else later

-- A task that is over is found again with the same end.
abbrev pub Kept : Bytes → Task → List RunningTask → Type 0
Kept id t after = (t' : Task) × (stored id after ≡ some t') × SameEnd t t'

SameEnd-refl : (t : Task) → SameEnd t t
SameEnd-refl t = (refl, refl, refl, refl, refl)

SameEnd-trans : (t u v : Task) → SameEnd t u → SameEnd u v → SameEnd t v
SameEnd-trans t u v h k = (k.0 ∙ h.0, k.1 ∙ h.1, k.2 ∙ h.2, k.3 ∙ h.3, k.4 ∙ h.4)

Kept-head :
    (id : Bytes) (r r' : RunningTask) (rest : List RunningTask) (t : Task)
    → r'.task.id ≡ r.task.id
    → (is_terminal r.task.status ≡ true → SameEnd r.task r'.task)
    → stored id (r ∷ rest) ≡ some t
    → is_terminal t.status ≡ true
    → Kept id t (r' ∷ rest)
Kept-head id r r' rest t same_id same_end found over = elim (Bool-cases (r.task.id =b id)) [
  | inl here ↦
      let it : r.task ≡ t = ground (arith, here) in
      let now : (r'.task.id =b id) ≡ true = rw same_id here in
      (r'.task, rw now refl, subst (λ x. SameEnd x r'.task) it (same_end (rw it over)))
  | inr other ↦
      let now : (r'.task.id =b id) ≡ false = rw same_id other in
      (t, rw now (ground (arith, other)), SameEnd-refl t)
]

Kept-tail :
    (id : Bytes) (r : RunningTask) (rest rest' : List RunningTask) (t : Task)
    → (stored id rest ≡ some t → Kept id t rest')
    → stored id (r ∷ rest) ≡ some t
    → Kept id t (r ∷ rest')
Kept-tail id r rest rest' t later found = elim (Bool-cases (r.task.id =b id)) [
  | inl here ↦ (t, rw here (ground (arith, here)), SameEnd-refl t)
  | inr other ↦ let (t', there, same) = later (ground (arith, other)) in (t', rw other there, same)
]

Kept-at_task :
    (lim : Bool) (key id : Bytes) (a : Action) (tasks after : List RunningTask) (t : Task)
    → at_task key (advance lim a) tasks ≡ some after
    → All IsConsistent tasks
    → stored id tasks ≡ some t
    → is_terminal t.status ≡ true
    → Kept id t after
unfolding at_task
Kept-at_task lim key id a [] after t h ok found over = absurd (cc)
Kept-at_task lim key id a (r ∷ rest) after t h ok found over =
    elim (Bool-cases (r.task.id =b key)) [
      | inl here ↦ elim (Option-cases (advance lim a r)) [
        | inl refused ↦ absurd (ground (arith, here, refused))
        | inr (r', done) ↦
            let known : after ≡ r' ∷ rest = ground (arith, here, done) in
            rw known (
              Kept-head id r r' rest t (advance-id lim a r r' done)
                (advance-SameEnd lim a r r' done ok.0) found over)
      ]
      | inr other ↦ elim (Option-cases (at_task key (advance lim a) rest)) [
        | inl refused ↦ absurd (ground (arith, other, refused))
        | inr (rest', done) ↦
            let known : after ≡ r ∷ rest' = ground (arith, other, done) in
            rw known (
              Kept-tail id r rest rest' t
                (λ there. Kept-at_task lim key id a rest rest' t done ok.1 there over) found)
      ]
    ]

unlist-IsConsistent :
    (cutoff : ℕ) (r : RunningTask) → IsConsistent r → IsConsistent (unlist cutoff r)
unfolding unlist
unlist-IsConsistent cutoff r ok = ground arith

stored-unlist :
    (id : Bytes) (cutoff : ℕ) (tasks : List RunningTask)
    → stored id (map (unlist cutoff) tasks) ≡ stored id tasks
unfolding unlist
stored-unlist id cutoff [] = refl
stored-unlist id cutoff (r ∷ rest) = ground (arith, stored-unlist id cutoff rest)

-- The id of a stored task is in use.
stored-any :
    (id : Bytes) (tasks : List RunningTask) (t : Task)
    → stored id tasks ≡ some t
    → any (λ r. r.task.id =b id) tasks ≡ true
stored-any id [] t h = absurd (cc)
stored-any id (r ∷ rest) t h = ground (arith, stored-any id rest t)

stored-new_task :
    (key id task_type : Bytes) (opts : TaskOpts) (now : ℕ) (tasks : List RunningTask) (t : Task)
    → any (λ r. r.task.id =b key) tasks ≡ false
    → stored id tasks ≡ some t
    → stored id (new_task key task_type opts now ∷ tasks) ≡ some t
unfolding new_task
stored-new_task key id task_type opts now tasks t fresh found = elim (Bool-cases (key =b id)) [
  | inl same ↦
      let used : any (λ r. r.task.id =b key) tasks ≡ true =
        stored-any key tasks t (rw ((eq_iff key id).0 same) found) in
      absurd (ground (arith, used, fresh))
  | inr other ↦ rw other found
]

-- What one step does for a task that is over.
abbrev Lasts : Bytes → Task → Manager → Type 0
Lasts id t tm = All IsConsistent tm.tasks × Kept id t tm.tasks

step-Lasts :
    (e : Event) (tm tm' : Manager) (id : Bytes) (t : Task)
    → step e tm ≡ some tm'
    → All IsConsistent tm.tasks
    → stored id tm.tasks ≡ some t
    → is_terminal t.status ≡ true
    → Lasts id t tm'
unfolding step new_task
step-Lasts (create key task_type opts now) tm tm' id t h ok found over =
    let next : tm' ≡ record tm { tasks = new_task key task_type opts now ∷ tm.tasks } =
      ground arith in
    let fresh : any (λ r. r.task.id =b key) tm.tasks ≡ false = ground arith in
    rw next (
      ((refl, refl), ok),
      (t, stored-new_task key id task_type opts now tm.tasks t fresh found, SameEnd-refl t),
    )
step-Lasts (act key a) tm tm' id t h ok found over =
    elim (Option-cases (at_task key (advance (limited tm) a) tm.tasks)) [
      | inl refused ↦ absurd (ground (arith, refused))
      | inr (after, done) ↦
          let next : tm' ≡ record tm { tasks = after; sem = sem_after tm a } =
            ground (arith, done) in
          rw next (
            All-at_task _ (advance-IsConsistent (limited tm) a) key tm.tasks after done ok,
            Kept-at_task (limited tm) key id a tm.tasks after t done ok found over,
          )
    ]
step-Lasts (cleanup_before cutoff) tm tm' id t h ok found over =
    let next : tm' ≡ record tm { tasks = map (unlist cutoff) tm.tasks } = ground arith in
    rw next (
      All-unlist cutoff (unlist-IsConsistent cutoff) tm.tasks ok,
      (t, rw (stored-unlist id cutoff tm.tasks) found, SameEnd-refl t),
    )

Reached-Lasts :
    {start tm : Manager} (id : Bytes) (t : Task)
    → Reached start tm
    → All IsConsistent start.tasks
    → stored id start.tasks ≡ some t
    → is_terminal t.status ≡ true
    → Lasts id t tm
Reached-Lasts id t begun ok found over = (ok, (t, found, SameEnd-refl t))
Reached-Lasts id t (then_step {before} {after} e run h) ok found over =
    let (consistent, (u, here, same)) = Reached-Lasts id t run ok found over in
    let (still, (v, there, again)) =
      step-Lasts e before after id u h consistent here (rw same.1 over) in
    (still, (v, there, SameEnd-trans t u v same again))

-- In a manager whose tasks agree with their goroutines, a task that is completed, failed or
-- cancelled keeps its status, its end time, its error and its result through any events in any
-- order: none of them reverts or overwrites the end of a task.
pub Reached-Kept :
    (start tm : Manager) (id : Bytes) (t : Task)
    → Reached start tm
    → All IsConsistent start.tasks
    → stored id start.tasks ≡ some t
    → is_terminal t.status ≡ true
    → Kept id t tm.tasks
Reached-Kept start tm id t run ok found over = (Reached-Lasts id t run ok found over).1
