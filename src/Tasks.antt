-- ===== src/Tasks.antt =====
-- agent/storage/task/model.go, and what happens to one task in agent/storage/task/manager.go.
pub mod Manager
pub mod Lifecycle
pub mod Slots
pub mod Ends
mod Every
pub mod Views
pub mod Cancel
pub mod Tests
use btrfs_nfs_csi.Base.{
  ℕ, Bool, true, false, not, ◌&&◌, ◌||◌, List, [], ◌∷◌, Option, none, some, Bytes, ltb, ◌==◌,
  if◌then◌else◌,
}
use btrfs_nfs_csi.Base.Int.{ℤ, pos, same}
use btrfs_nfs_csi.Validate.{Labels}

pub data TaskStatus : Type 0 where
  pending running completed failed cancelled : TaskStatus

abbrev pub is_terminal : TaskStatus → Bool
is_terminal completed = true
is_terminal failed = true
is_terminal cancelled = true
is_terminal _ = false

-- The text of Task.Error by what it says. `timed_out` has the timeout of the options.
pub data TaskError : Type 0 where
  no_error agent_restarted : TaskError
  timed_out : ℕ → TaskError
  failure : Bytes → TaskError

-- A timeout that is not positive is 0.
pub record TaskOpts : Type 0 where
  pub opts : Labels
  pub labels : Labels
  pub timeout : ℕ

pub record Task : Type 0 where
  pub id : Bytes
  pub task_type : Bytes
  pub status : TaskStatus
  pub progress : ℤ
  pub opts : TaskOpts
  pub result : Option Bytes
  pub error : TaskError
  pub created_at : ℕ
  pub started_at : Option ℕ
  pub completed_at : Option ℕ

-- The context of the goroutine: `ctx.Err()` is nil, DeadlineExceeded or Canceled.
pub data Context : Type 0 where
  live expired stopped : Context

abbrev pub is_done : Context → Bool
is_done live = false
is_done _ = true

-- Cancelling a context that is done changes nothing.
abbrev pub stop : Context → Context
stop live = stopped
stop c = c

-- Where the goroutine is: before the select, behind it with a slot, in the task's function, behind
-- the last write with the slot still held, and at its end. A task read from the disk is `gone`.
pub data Phase : Type 0 where
  queued started working leaving gone : Phase

-- `listed` says that the manager's map has the task; a goroutine runs on without that.
pub record RunningTask : Type 0 where
  pub task : Task
  pub phase : Phase
  pub context : Context
  pub listed : Bool

-- Whether the goroutine is in its semaphore.
abbrev pub holds_slot : Phase → Bool
holds_slot started = true
holds_slot working = true
holds_slot leaving = true
holds_slot _ = false

-- What happens to one task: the steps of its goroutine, the two updates that its function makes,
-- and the two ends of its context. A number is the time.
pub data Action : Type 0 where
  acquire : Action
  abandon begin : ℕ → Action
  set_progress : ℤ → Action
  set_result : Bytes → Action
  finish : Option Bytes → ℕ → Action
  leave cancel expire : Action

-- The switch behind the task's function, whose error is `some`.
unfoldable pub final_task : Context → Option Bytes → ℕ → Task → Task
final_task expired e now t = record t {
  completed_at = some now;
  status = failed;
  error = timed_out t.opts.timeout;
}
final_task stopped e now t = record t { completed_at = some now; status = cancelled }
final_task live (some e) now t = record t {
  completed_at = some now;
  status = failed;
  error = failure e;
}
final_task live none now t = record t {
  completed_at = some now;
  status = completed;
  progress = pos 100;
}

-- A new task, before its goroutine has done a step.
unfoldable pub new_task : Bytes → Bytes → TaskOpts → ℕ → RunningTask
new_task id task_type opts now = record {
  task = record {
    id = id;
    task_type = task_type;
    status = pending;
    progress = pos 0;
    opts = opts;
    result = none;
    error = no_error;
    created_at = now;
    started_at = none;
    completed_at = none;
  };
  phase = queued;
  context = live;
  listed = true;
}

-- Cancel looks at the status that is stored.
abbrev pub cancel_at : TaskStatus → Context → Context
cancel_at pending c = stop c
cancel_at running c = stop c
cancel_at _ c = c

abbrev pub with_progress : ℤ → Task → Task
with_progress pct t = if same t.progress pct then t else record t { progress = pct }

-- An action on a task, `none` where it cannot happen. `limited` says that there is a semaphore. A
-- poller may set the progress once more after the function that started it has returned.
unfoldable pub advance : Bool → Action → RunningTask → Option RunningTask
unfolding final_task
advance limited acquire r = elim r.phase [ queued ↦ some (record r { phase = started }) | _ ↦ none ]
advance limited (abandon now) r = elim r.phase [
  | queued ↦
      if limited && is_done r.context
      then some (record r {
        task = record r.task { status = cancelled; completed_at = some now };
        phase = gone;
      })
      else none
  | _ ↦ none
]
advance limited (begin now) r = elim r.phase [
  | started ↦ some (record r {
    task = record r.task { status = running; started_at = some now };
    phase = working;
  })
  | _ ↦ none
]
advance limited (set_progress pct) r = elim r.phase [
  | queued ↦ none
  | started ↦ none
  | _ ↦ some (record r { task = with_progress pct r.task })
]
advance limited (set_result raw) r = elim r.phase [
  | working ↦ some (record r { task = record r.task { result = some raw } })
  | _ ↦ none
]
advance limited (finish e now) r = elim r.phase [
  | working ↦ some (record r { task = final_task r.context e now r.task; phase = leaving })
  | _ ↦ none
]
advance limited leave r = elim r.phase [
  | leaving ↦ some (record r { phase = gone; context = stop r.context })
  | _ ↦ none
]
advance limited cancel r =
    if r.listed then some (record r { context = cancel_at r.task.status r.context }) else none
advance limited expire r =
    if ltb 0 r.task.opts.timeout
    then some (record r { context = elim r.context [ live ↦ expired | c ↦ c ] })
    else none
