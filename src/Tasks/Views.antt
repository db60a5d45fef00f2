-- ===== src/Tasks/Views.antt =====
-- What Get shows of a task that is not over.
use btrfs_nfs_csi.Base.{
  ℕ, ◌≡◌, refl, Bool, true, false, List, [], ◌∷◌, map, Option, none, some, Bytes, ◌=b◌, arith,
  if◌then◌else◌, subst, All, Option-cases, Bool-cases, inl, inr,
}
use btrfs_nfs_csi.Base.Int.{ℤ}
use btrfs_nfs_csi.Tasks.{
  TaskStatus, pending, running, is_terminal, Task, Phase, queued, started, working, leaving, gone,
  RunningTask, Action, acquire, abandon, begin, set_progress, set_result, finish, leave, cancel,
  expire, final_task, with_progress, new_task, advance, Context, live, stopped, expired,
}
use btrfs_nfs_csi.Tasks.Every.{All-at_task, All-unlist, All-load_tasks_from_disk}
use btrfs_nfs_csi.Tasks.Manager.{
  Manager, limited, sem_after, at_task, is_old, unlist, Event, create, act, cleanup_before, step,
  loaded_task, new_manager, get_task, Reached, begun, then_step,
}

-- The status that is stored at each place of the goroutine.
abbrev pub Placed : Phase → TaskStatus → Type 0
Placed queued s = s ≡ pending
Placed started s = s ≡ pending
Placed working s = s ≡ running
Placed leaving s = is_terminal s ≡ true
Placed gone s = is_terminal s ≡ true

-- A task that is not over is in the manager's map.
abbrev IsTended : RunningTask → Type 0
IsTended r = Placed r.phase r.task.status × (is_terminal r.task.status ≡ false → r.listed ≡ true)

status-with_progress : (pct : ℤ) (t : Task) → (with_progress pct t).status ≡ t.status
status-with_progress pct t = ground arith

terminal-final_task :
    (c : Context) (e : Option Bytes) (now : ℕ) (t : Task)
    → is_terminal (final_task c e now t).status ≡ true
unfolding final_task
terminal-final_task expired e now t = refl
terminal-final_task stopped e now t = refl
terminal-final_task live (some e) now t = refl
terminal-final_task live none now t = refl

advance-IsTended :
    (lim : Bool) (a : Action) (r r' : RunningTask)
    → advance lim a r ≡ some r'
    → IsTended r
    → IsTended r'
unfolding advance
advance-IsTended lim acquire r r' h ok = ground arith
advance-IsTended lim (abandon now) r r' h ok = ground arith
advance-IsTended lim (begin now) r r' h ok = ground arith
advance-IsTended lim (set_progress pct) r r' h ok = ground (arith, status-with_progress pct r.task)
advance-IsTended lim (set_result raw) r r' h ok = ground arith
advance-IsTended lim (finish e now) r r' h ok =
    ground (arith, terminal-final_task r.context e now r.task)
advance-IsTended lim leave r r' h ok = ground arith
advance-IsTended lim cancel r r' h ok = ground arith
advance-IsTended lim expire r r' h ok = ground arith

unlist-IsTended : (cutoff : ℕ) (r : RunningTask) → IsTended r → IsTended (unlist cutoff r)
unfolding unlist is_old
unlist-IsTended cutoff r ok = ground arith

loaded_task-IsTended : (now : ℕ) (t : Task) → IsTended (loaded_task now t)
unfolding loaded_task
loaded_task-IsTended now t = ground arith

step-IsTended :
    (e : Event) (tm tm' : Manager)
    → step e tm ≡ some tm'
    → All IsTended tm.tasks
    → All IsTended tm'.tasks
unfolding step new_task
step-IsTended (create key task_type opts now) tm tm' h ok =
    let next : tm' ≡ record tm { tasks = new_task key task_type opts now ∷ tm.tasks } =
      ground arith in
    rw next ((refl, λ undone. refl), ok)
step-IsTended (act key a) tm tm' h ok =
    elim (Option-cases (at_task key (advance (limited tm) a) tm.tasks)) [
      | inl refused ↦ absurd (ground (arith, refused))
      | inr (after, done) ↦
          let next : tm' ≡ record tm { tasks = after; sem = sem_after tm a } =
            ground (arith, done) in
          rw next (All-at_task _ (advance-IsTended (limited tm) a) key tm.tasks after done ok)
    ]
step-IsTended (cleanup_before cutoff) tm tm' h ok =
    let next : tm' ≡ record tm { tasks = map (unlist cutoff) tm.tasks } = ground arith in
    rw next (All-unlist cutoff (unlist-IsTended cutoff) tm.tasks ok)

Reached-IsTended :
    {start tm : Manager} → Reached start tm → All IsTended start.tasks → All IsTended tm.tasks
Reached-IsTended begun ok = ok
Reached-IsTended (then_step {before} {after} e run h) ok =
    step-IsTended e before after h (Reached-IsTended run ok)

-- The first task with an id, whether the map has it or not.
abbrev pub task_of : Bytes → List RunningTask → Option RunningTask
task_of id [] = none
task_of id (r ∷ rest) = let later = task_of id rest in if r.task.id =b id then some r else later

get_task-task_of :
    (id : Bytes) (tasks : List RunningTask) (r : RunningTask)
    → All IsTended tasks
    → task_of id tasks ≡ some r
    → is_terminal r.task.status ≡ false
    → (get_task id tasks ≡ some r.task) × Placed r.phase r.task.status
unfolding get_task
get_task-task_of id [] r ok h undone = absurd (cc)
get_task-task_of id (x ∷ rest) r ok h undone = elim (Bool-cases (x.task.id =b id)) [
  | inl here ↦
      let it : x ≡ r = ground (arith, here) in
      let tended : IsTended r = subst (λ y. IsTended y) it ok.0 in
      let shown : r.listed ≡ true = tended.1 undone in
      let same_id : (r.task.id =b id) ≡ true = subst (λ y. (y.task.id =b id) ≡ true) it here in
      (rw (it, shown, same_id) refl, tended.0)
  | inr other ↦
      let (found, placed) = get_task-task_of id rest r ok.1 (ground (arith, other)) undone in
      (ground (arith, other, found), placed)
]

-- From the task files of an earlier agent and after any events in any order, each task that is not
-- over is found by Get, whatever Cleanup has removed, and its goroutine is there, before the task's
-- function where the status is pending and in it where the status is running: none is left pending or
-- running without one, also of those that the earlier agent left so.
pub get_task-Placed :
    (max_concurrent now : ℕ) (on_disk : List Task) (tm : Manager) (id : Bytes) (r : RunningTask)
    → Reached (new_manager max_concurrent now on_disk) tm
    → task_of id tm.tasks ≡ some r
    → is_terminal r.task.status ≡ false
    → (get_task id tm.tasks ≡ some r.task) × Placed r.phase r.task.status
unfolding new_manager
get_task-Placed max_concurrent now on_disk tm id r run found undone =
    let start = All-load_tasks_from_disk IsTended now (loaded_task-IsTended now) on_disk [] tt in
    get_task-task_of id tm.tasks r (Reached-IsTended run start) found undone
