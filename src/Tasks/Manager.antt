-- ===== src/Tasks/Manager.antt =====
-- agent/storage/task/manager.go: the manager of all tasks, as a machine whose steps are those of its
-- goroutines and of its callers, in any order.
use btrfs_nfs_csi.Base.{
  ℕ, ◌≡◌, Bool, true, false, not, ◌&&◌, ◌||◌, List, [], ◌∷◌, map, any, ◌-◌, Option, none, some,
  Bytes, ◌=b◌, ltb, if◌then◌else◌,
}
use btrfs_nfs_csi.Tasks.{
  failed, is_terminal, agent_restarted, TaskOpts, Task, live, gone, RunningTask, Action, acquire,
  leave, new_task, advance,
}

-- `max_concurrent` is the capacity of the semaphore, where 0 stands for no semaphore, and `sem` the
-- number of values in it.
pub record Manager : Type 0 where
  pub tasks : List RunningTask
  pub sem : ℕ
  pub max_concurrent : ℕ

abbrev pub limited : Manager → Bool
limited tm = ltb 0 tm.max_concurrent

abbrev pub prepend : RunningTask → Option (List RunningTask) → Option (List RunningTask)
prepend r none = none
prepend r (some rest) = some (r ∷ rest)

abbrev pub put_first : Option RunningTask → List RunningTask → Option (List RunningTask)
put_first none rest = none
put_first (some r) rest = some (r ∷ rest)

-- A change of the task with an id, `none` where there is no such task or it refuses.
unfoldable pub at_task :
    Bytes → (RunningTask → Option RunningTask) → List RunningTask → Option (List RunningTask)
at_task id f [] = none
at_task id f (r ∷ rest) =
    let later = at_task id f rest in
    if r.task.id =b id then put_first (f r) rest else prepend r later

abbrev pub with_tasks : Manager → ℕ → Option (List RunningTask) → Option Manager
with_tasks tm n none = none
with_tasks tm n (some tasks) = some (record tm { tasks = tasks; sem = n })

-- A send into the semaphore needs a free place, and the deferred receive a value.
abbrev pub may_act : Manager → Action → Bool
may_act tm acquire = not (limited tm) || ltb tm.sem tm.max_concurrent
may_act tm leave = not (limited tm) || ltb 0 tm.sem
may_act tm action = true

-- The semaphore after an action of a goroutine.
abbrev pub sem_after : Manager → Action → ℕ
sem_after tm acquire = if limited tm then ℕ.suc tm.sem else tm.sem
sem_after tm leave = if limited tm then tm.sem - 1 else tm.sem
sem_after tm action = tm.sem

-- The test of Cleanup.
unfoldable pub is_old : ℕ → Task → Bool
is_old cutoff t =
    is_terminal t.status && elim t.completed_at [ none ↦ false | some at ↦ ltb at cutoff ]

unfoldable pub unlist : ℕ → RunningTask → RunningTask
unlist cutoff r = if is_old cutoff r.task then record r { listed = false } else r

pub data Event : Type 0 where
  create : Bytes → Bytes → TaskOpts → ℕ → Event
  act : Bytes → Action → Event
  cleanup_before : ℕ → Event

-- One step, `none` where it cannot happen. The ids that generateID makes are taken to be new.
unfoldable pub step : Event → Manager → Option Manager
unfolding unlist
step (create id task_type opts now) tm =
    if any (λ r. r.task.id =b id) tm.tasks
    then none
    else some (record tm { tasks = new_task id task_type opts now ∷ tm.tasks })
step (act id action) tm =
    if may_act tm action
    then with_tasks tm (sem_after tm action) (at_task id (advance (limited tm) action) tm.tasks)
    else none
step (cleanup_before cutoff) tm = some (record tm { tasks = map (unlist cutoff) tm.tasks })

-- loadFromDisk on one file: a task that was not over has failed.
unfoldable pub loaded_task : ℕ → Task → RunningTask
loaded_task now t = record {
  task =
      if is_terminal t.status
      then t
      else record t { status = failed; error = agent_restarted; completed_at = some now };
  phase = gone;
  context = live;
  listed = true;
}

-- `tm.tasks[t.ID] = rt`
unfoldable pub put_task : RunningTask → List RunningTask → List RunningTask
put_task r [] = r ∷ []
put_task r (x ∷ rest) =
    let later = put_task r rest in if x.task.id =b r.task.id then r ∷ rest else x ∷ later

-- The loop of loadFromDisk over the files that it can read.
unfoldable pub load_tasks_from_disk : ℕ → List Task → List RunningTask → List RunningTask
load_tasks_from_disk now [] tasks = tasks
load_tasks_from_disk now (t ∷ rest) tasks =
    load_tasks_from_disk now rest (put_task (loaded_task now t) tasks)

-- NewManager over the tasks that the directory holds.
unfoldable pub new_manager : ℕ → ℕ → List Task → Manager
unfolding load_tasks_from_disk put_task loaded_task
new_manager max_concurrent now on_disk = record {
  tasks = load_tasks_from_disk now on_disk [];
  sem = 0;
  max_concurrent = max_concurrent;
}

-- Manager.Get; `none` is ErrNotFound.
unfoldable pub get_task : Bytes → List RunningTask → Option Task
get_task id [] = none
get_task id (r ∷ rest) =
    let later = get_task id rest in if r.listed && r.task.id =b id then some r.task else later

-- The managers that events lead to.
pub data Reached (start : Manager) : Manager → Type 0 where
  begun : Reached start start
  then_step :
      {before after : Manager} (e : Event)
      → Reached start before
      → step e before ≡ some after
      → Reached start after
