-- ===== src/Tasks/Cancel.antt =====
-- A task that is cancelled in time ends as cancelled.
use btrfs_nfs_csi.Base.{ℕ, ◌≡◌, refl, true, Option, some, Bytes, arith, ◌⊎◌}
use btrfs_nfs_csi.Tasks.{
  cancelled, Task, live, stopped, Phase, queued, started, working, leaving, gone, RunningTask,
  Action, abandon, finish, cancel, final_task, advance,
}
use btrfs_nfs_csi.Tasks.Lifecycle.{IsConsistent}

-- The last step of a goroutine that waits for a slot, or whose function returns with `e`.
abbrev pub ending : Phase → Option Bytes → ℕ → Action
ending queued e now = abandon now
ending p e now = finish e now

abbrev pub EndsCancelled : RunningTask → Action → Type 0
EndsCancelled r last =
    (r1 : RunningTask) × (advance true cancel r ≡ some r1)
    × ((r2 : RunningTask) × (advance true last r1 ≡ some r2) × (r2.task.status ≡ cancelled))

-- A listed task whose context is not done.
abbrev pub live_task : Phase → Task → RunningTask
live_task p t = record { task = t; phase = p; context = live; listed = true }

abbrev pub stopped_task : Phase → Task → RunningTask
stopped_task p t = record { task = t; phase = p; context = stopped; listed = true }

-- Cancel on a listed task that waits for a slot or runs, with its context not yet done, lets its
-- goroutine end the task, and where the goroutine ends it next the task is cancelled, whatever its
-- function returns.
pub cancel-EndsCancelled :
    (p : Phase) (t : Task) (e : Option Bytes) (now : ℕ)
    → IsConsistent (live_task p t)
    → (p ≡ queued) ⊎ (p ≡ working)
    → EndsCancelled (live_task p t) (ending p e now)
unfolding advance final_task
cancel-EndsCancelled queued t e now ok h = (stopped_task queued t, rw (ok.0) refl, (_, refl, refl))
cancel-EndsCancelled working t e now ok h =
    (stopped_task working t, rw (ok.0) refl, (_, refl, refl))
cancel-EndsCancelled started t e now ok h = absurd (ground arith)
cancel-EndsCancelled leaving t e now ok h = absurd (ground arith)
cancel-EndsCancelled gone t e now ok h = absurd (ground arith)
