-- ===== src/Tasks/Tests.antt =====
-- A manager with one slot and two tasks.
use btrfs_nfs_csi.Base.{
  ◌≤◌, ◌≡◌, refl, true, false, [], ◌∷◌, none, some, codes, ◌=b◌, All, arith, inr,
}
use btrfs_nfs_csi.Base.Int.{pos}
use btrfs_nfs_csi.Tasks.{
  running, failed, is_terminal, no_error, agent_restarted, TaskOpts, Task, RunningTask, live,
  started, working, acquire, new_task, advance,
}
use btrfs_nfs_csi.Tasks.Manager.{
  Manager, at_task, create, act, step, loaded_task, new_manager, get_task, Reached, begun,
  then_step,
}
use btrfs_nfs_csi.Tasks.Slots.{slots, new_manager-slots-le}
use btrfs_nfs_csi.Tasks.Ends.{Kept, Reached-Kept, stored}
use btrfs_nfs_csi.Tasks.Lifecycle.{IsConsistent}
use btrfs_nfs_csi.Tasks.Views.{Placed, task_of, get_task-Placed}
use btrfs_nfs_csi.Tasks.Cancel.{cancel-EndsCancelled, EndsCancelled, live_task, ending}

abbrev no_opts : TaskOpts
no_opts = record { opts = []; labels = []; timeout = 0 }

-- A task that an earlier run of the agent left running.
abbrev interrupted : Task
interrupted = record {
  id = codes "a";
  task_type = codes "scrub";
  status = running;
  progress = pos 40;
  opts = no_opts;
  result = none;
  error = no_error;
  created_at = 1;
  started_at = some 2;
  completed_at = none;
}

-- That task as the restarted agent has it.
abbrev ended : Task
ended = record interrupted { status = failed; error = agent_restarted; completed_at = some 5 }

abbrev at_start : Manager
at_start = new_manager 1 5 (interrupted ∷ [])

abbrev waiting : Task
waiting = (new_task (codes "b") (codes "scrub") no_opts 6).task

abbrev begun_task : RunningTask
begun_task = record { task = waiting; phase = started; context = live; listed = true }

abbrev busy : Manager
busy = record { tasks = begun_task ∷ at_start.tasks; sem = 1; max_concurrent = 1 }

run_of_two : Reached at_start busy
unfolding new_manager step new_task at_task advance ◌=b◌
run_of_two =
    then_step (act (codes "b") acquire)
      (then_step (create (codes "b") (codes "scrub") no_opts 6) begun refl) refl

new_manager-slots-le_example : (busy.sem ≡ slots busy.tasks) × (slots busy.tasks ≤ 1)
new_manager-slots-le_example =
    new_manager-slots-le 1 5 (interrupted ∷ []) busy run_of_two (omega arith)

start_agrees : All IsConsistent at_start.tasks
unfolding new_manager
start_agrees = ((refl, refl), tt)

found : stored (codes "a") at_start.tasks ≡ some ended
unfolding new_manager ◌=b◌
found = refl

over : is_terminal ended.status ≡ true
unfolding loaded_task
over = refl

Reached-Kept_example : Kept (codes "a") ended busy.tasks
Reached-Kept_example =
    Reached-Kept at_start busy (codes "a") ended run_of_two start_agrees found over

-- Of two files with one id the manager keeps the task that it reads last.
last_file_stays :
    get_task
      (codes "a")
      (new_manager 1 5 (interrupted ∷ record interrupted { error = agent_restarted } ∷ [])).tasks
    ≡ some (record interrupted { status = failed; error = agent_restarted; completed_at = some 5 })
unfolding new_manager get_task ◌=b◌
last_file_stays = refl

begun_is_there : task_of (codes "b") busy.tasks ≡ some begun_task
unfolding new_task ◌=b◌
begun_is_there = refl

begun_is_pending : is_terminal begun_task.task.status ≡ false
unfolding new_task
begun_is_pending = refl

get_task-Placed_example :
    (get_task (codes "b") busy.tasks ≡ some begun_task.task)
    × Placed begun_task.phase begun_task.task.status
get_task-Placed_example =
    get_task-Placed 1 5 (interrupted ∷ []) busy (codes "b") begun_task run_of_two begun_is_there
      begun_is_pending

cancel-EndsCancelled_example : EndsCancelled (live_task working interrupted) (ending working none 9)
cancel-EndsCancelled_example =
    cancel-EndsCancelled working interrupted none 9 (refl, refl) (inr refl)
