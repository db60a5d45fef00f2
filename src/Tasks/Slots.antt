-- ===== src/Tasks/Slots.antt =====
-- The semaphore: never more goroutines in it than it has places.
use btrfs_nfs_csi.Base.{
  ℕ, ◌+◌, ◌≤◌, ◌<◌, ◌≡◌, refl, ◌∙◌, Bool, true, List, [], ◌∷◌, map, Option, some, Bytes, ◌=b◌,
  arith, if◌then◌else◌, All, false, sym, Option-cases, Bool-cases, inl, inr, subst,
}
use btrfs_nfs_csi.Tasks.{
  TaskOpts, Task, RunningTask, holds_slot, Action, acquire, abandon, begin, set_progress,
  set_result, finish, leave, cancel, expire, new_task, advance,
}
use btrfs_nfs_csi.Tasks.Every.{All-load_tasks_from_disk}
use btrfs_nfs_csi.Tasks.Manager.{
  Manager, limited, sem_after, at_task, may_act, unlist, Event, create, act, cleanup_before, step,
  loaded_task, load_tasks_from_disk, new_manager, Reached, begun, then_step,
}

-- The number of tasks whose goroutine is between the send and the receive.
unfoldable pub slots : List RunningTask → ℕ
slots [] = 0
slots (r ∷ rest) = let n = slots rest in if holds_slot r.phase then ℕ.suc n else n

-- A slot more or less for one task.
taken : RunningTask → ℕ
taken r = if holds_slot r.phase then 1 else 0

slots-cons : (r : RunningTask) (rest : List RunningTask) → slots (r ∷ rest) ≡ taken r + slots rest
unfolding slots taken
slots-cons r rest = ground arith

sends : Action → ℕ
sends acquire = 1
sends a = 0

receives : Action → ℕ
receives leave = 1
receives a = 0

taken-advance :
    (lim : Bool) (a : Action) (r r' : RunningTask)
    → advance lim a r ≡ some r'
    → taken r' + receives a ≡ taken r + sends a
unfolding advance taken sends receives
taken-advance lim acquire r r' h = ground arith
taken-advance lim (abandon now) r r' h = ground arith
taken-advance lim (begin now) r r' h = ground arith
taken-advance lim (set_progress pct) r r' h = ground arith
taken-advance lim (set_result raw) r r' h = ground arith
taken-advance lim (finish e now) r r' h = ground arith
taken-advance lim leave r r' h = ground arith
taken-advance lim cancel r r' h = ground arith
taken-advance lim expire r r' h = ground arith

slots-at_task :
    (id : Bytes) (f : RunningTask → Option RunningTask) (j k : ℕ)
    → ((r r' : RunningTask) → f r ≡ some r' → taken r' + j ≡ taken r + k)
    → (tasks after : List RunningTask) → at_task id f tasks ≡ some after
    → slots after + j ≡ slots tasks + k
unfolding at_task
slots-at_task id f j k hf [] after h = absurd (cc)
slots-at_task id f j k hf (r ∷ rest) after h = elim (Bool-cases (r.task.id =b id)) [
  | inl here ↦ elim (Option-cases (f r)) [
    | inl refused ↦ absurd (ground (arith, here, refused))
    | inr (r', done) ↦
        let known : after ≡ r' ∷ rest = ground (arith, here, done) in
        let less = hf r r' done in
        rw known (omega (arith, slots-cons r rest, slots-cons r' rest, less))
  ]
  | inr other ↦ elim (Option-cases (at_task id f rest)) [
    | inl refused ↦ absurd (ground (arith, other, refused))
    | inr (rest', done) ↦
        let known : after ≡ r ∷ rest' = ground (arith, other, done) in
        let less = slots-at_task id f j k hf rest rest' done in
        rw known (omega (arith, slots-cons r rest, slots-cons r rest', less))
  ]
]

slots-unlist :
    (cutoff : ℕ) (tasks : List RunningTask) → slots (map (unlist cutoff) tasks) ≡ slots tasks
unfolding unlist slots
slots-unlist cutoff [] = refl
slots-unlist cutoff (r ∷ rest) = ground (arith, slots-unlist cutoff rest)

slots-empty :
    (tasks : List RunningTask) → All (λ r. holds_slot r.phase ≡ false) tasks → slots tasks ≡ 0
unfolding slots
slots-empty [] h = refl
slots-empty (r ∷ rest) h = rw (h.0) (slots-empty rest h.1)

loaded_task-out : (now : ℕ) (t : Task) → holds_slot (loaded_task now t).phase ≡ false
unfolding loaded_task
loaded_task-out now t = refl

slots-new_task :
    (id task_type : Bytes) (opts : TaskOpts) (now : ℕ) (tasks : List RunningTask)
    → slots (new_task id task_type opts now ∷ tasks) ≡ slots tasks
unfolding new_task slots
slots-new_task id task_type opts now tasks = refl

-- The semaphore holds one value for each goroutine that is past it, and not more than its capacity.
abbrev pub IsBalanced : Manager → Type 0
IsBalanced tm = 0 < tm.max_concurrent → (tm.sem ≡ slots tm.tasks) × (tm.sem ≤ tm.max_concurrent)

abbrev pub Stays : Manager → Manager → Type 0
Stays tm tm' = IsBalanced tm' × (tm'.max_concurrent ≡ tm.max_concurrent)

act-IsBalanced :
    (id : Bytes) (a : Action) (tm : Manager) (after : List RunningTask)
    → may_act tm a ≡ true
    → at_task id (advance (limited tm) a) tm.tasks ≡ some after
    → IsBalanced tm
    → IsBalanced (record tm { tasks = after; sem = sem_after tm a })
unfolding sends receives
act-IsBalanced id acquire tm after free done ok some_slots =
    let moved = slots-at_task id _ _ _ (taken-advance (limited tm) acquire) tm.tasks after done in
    let (each, bound) = ok some_slots in (ground arith, ground arith)
act-IsBalanced id leave tm after free done ok some_slots =
    let moved = slots-at_task id _ _ _ (taken-advance (limited tm) leave) tm.tasks after done in
    let (each, bound) = ok some_slots in (ground arith, ground arith)
act-IsBalanced id a tm after free done ok some_slots =
    let moved = slots-at_task id _ _ _ (taken-advance (limited tm) a) tm.tasks after done in
    let (each, bound) = ok some_slots in (ground arith, ground arith)

pub step-Stays :
    (e : Event) (tm tm' : Manager) → step e tm ≡ some tm' → IsBalanced tm → Stays tm tm'
unfolding step
step-Stays (create id task_type opts now) tm tm' h ok =
    let next : tm' ≡ record tm { tasks = new_task id task_type opts now ∷ tm.tasks } =
      ground arith in
    rw next
      ((λ some_slots. rw (slots-new_task id task_type opts now tm.tasks) (ok some_slots)), refl)
step-Stays (act id a) tm tm' h ok =
    elim (Option-cases (at_task id (advance (limited tm) a) tm.tasks)) [
      | inl refused ↦ absurd (ground (arith, refused))
      | inr (after, done) ↦
          let free : may_act tm a ≡ true = ground arith in
          let next : tm' ≡ record tm { tasks = after; sem = sem_after tm a } =
            ground (arith, done, free) in
          rw next (act-IsBalanced id a tm after free done ok, refl)
    ]
step-Stays (cleanup_before cutoff) tm tm' h ok =
    let next : tm' ≡ record tm { tasks = map (unlist cutoff) tm.tasks } = ground arith in
    rw next ((λ some_slots. rw (slots-unlist cutoff tm.tasks) (ok some_slots)), refl)

Reached-Stays : {start tm : Manager} → Reached start tm → IsBalanced start → Stays start tm
Reached-Stays begun ok = (ok, refl)
Reached-Stays (then_step {before} {after} e run h) ok =
    let (balanced, same_size) = Reached-Stays run ok in
    let (still, kept) = step-Stays e before after h balanced in (still, kept ∙ same_size)

-- From the tasks on disk and after any events in any order, the semaphore of a manager with a limit
-- holds one value for each task whose goroutine is past it, and those are at most as many as the
-- limit.
pub new_manager-slots-le :
    (max_concurrent now : ℕ) (on_disk : List Task) (tm : Manager)
    → Reached (new_manager max_concurrent now on_disk) tm
    → 0 < max_concurrent
    → (tm.sem ≡ slots tm.tasks) × (slots tm.tasks ≤ max_concurrent)
unfolding new_manager
new_manager-slots-le max_concurrent now on_disk tm run some_slots =
    let out =
      All-load_tasks_from_disk (λ r. holds_slot r.phase ≡ false) now (loaded_task-out now) on_disk
        [] tt in
    let none_taken = slots-empty (load_tasks_from_disk now on_disk []) out in
    let (balanced, same_size) = Reached-Stays run λ limit. (sym none_taken, omega arith) in
    let (each, bound) = balanced (rw same_size some_slots) in
    (each, rw (sym each) (subst (λ n. tm.sem ≤ n) same_size bound))
