-- ===== src/Tasks/Lifecycle.antt =====
-- The life of a task: pending, running, over. Nothing comes after the end.
use btrfs_nfs_csi.Base.{ℕ, ◌≡◌, refl, Bool, true, false, Option, none, some, Bytes, is_none, arith}
use btrfs_nfs_csi.Base.Int.{ℤ}
use btrfs_nfs_csi.Tasks.{
  pending, running, is_terminal, Task, Context, live, expired, stopped, Phase, queued, started,
  working, leaving, gone, RunningTask, Action, acquire, abandon, begin, set_progress, set_result,
  finish, leave, cancel, expire, final_task, with_progress, advance,
}

-- What the stored task says at each place of its goroutine.
abbrev pub Agrees : Phase → Task → Type 0
Agrees queued t = (t.status ≡ pending) × (t.completed_at ≡ none)
Agrees started t = (t.status ≡ pending) × (t.completed_at ≡ none)
Agrees working t = (t.status ≡ running) × (t.completed_at ≡ none)
Agrees leaving t = (is_terminal t.status ≡ true) × (is_none t.completed_at ≡ false)
Agrees gone t = (is_terminal t.status ≡ true) × (is_none t.completed_at ≡ false)

abbrev pub IsConsistent : RunningTask → Type 0
IsConsistent r = Agrees r.phase r.task

Agrees-with_progress :
    (p : Phase) (pct : ℤ) (t : Task) → Agrees p t → Agrees p (with_progress pct t)
Agrees-with_progress p pct t h = elim p [
  | queued ↦ ground arith
  | started ↦ ground arith
  | working ↦ ground arith
  | leaving ↦ ground arith
  | gone ↦ ground arith
]

Agrees-final_task :
    (c : Context) (e : Option Bytes) (now : ℕ) (t : Task) → Agrees leaving (final_task c e now t)
unfolding final_task
Agrees-final_task expired e now t = (refl, refl)
Agrees-final_task stopped e now t = (refl, refl)
Agrees-final_task live (some e) now t = (refl, refl)
Agrees-final_task live none now t = (refl, refl)

-- Each action keeps the stored task in step with its goroutine.
pub advance-IsConsistent :
    (lim : Bool) (a : Action) (r r' : RunningTask)
    → advance lim a r ≡ some r'
    → IsConsistent r
    → IsConsistent r'
unfolding advance
advance-IsConsistent lim acquire r r' h ok = ground arith
advance-IsConsistent lim (abandon now) r r' h ok = ground arith
advance-IsConsistent lim (begin now) r r' h ok = ground arith
advance-IsConsistent lim (set_progress pct) r r' h ok =
    ground (arith, Agrees-with_progress r.phase pct r.task)
advance-IsConsistent lim (set_result raw) r r' h ok = ground arith
advance-IsConsistent lim (finish e now) r r' h ok =
    ground (arith, Agrees-final_task r.context e now r.task)
advance-IsConsistent lim leave r r' h ok = ground arith
advance-IsConsistent lim cancel r r' h ok = ground arith
advance-IsConsistent lim expire r r' h ok = ground arith

-- The parts of a task that are final once it is over.
abbrev pub SameEnd : Task → Task → Type 0
SameEnd t t' =
    (t'.id ≡ t.id)
    × (t'.status ≡ t.status)
    × (t'.completed_at ≡ t.completed_at)
    × (t'.error ≡ t.error)
    × (t'.result ≡ t.result)

SameEnd-with_progress : (pct : ℤ) (t : Task) → SameEnd t (with_progress pct t)
SameEnd-with_progress pct t = ground arith

pub advance-SameEnd :
    (lim : Bool) (a : Action) (r r' : RunningTask)
    → advance lim a r ≡ some r'
    → IsConsistent r
    → is_terminal r.task.status ≡ true
    → SameEnd r.task r'.task
unfolding advance
advance-SameEnd lim acquire r r' h ok over = ground arith
advance-SameEnd lim (abandon now) r r' h ok over = ground arith
advance-SameEnd lim (begin now) r r' h ok over = ground arith
advance-SameEnd lim (set_progress pct) r r' h ok over =
    ground (arith, SameEnd-with_progress pct r.task)
advance-SameEnd lim (set_result raw) r r' h ok over = ground arith
advance-SameEnd lim (finish e now) r r' h ok over = ground arith
advance-SameEnd lim leave r r' h ok over = ground arith
advance-SameEnd lim cancel r r' h ok over = ground arith
advance-SameEnd lim expire r r' h ok over = ground arith

id-final_task :
    (c : Context) (e : Option Bytes) (now : ℕ) (t : Task) → (final_task c e now t).id ≡ t.id
unfolding final_task
id-final_task expired e now t = refl
id-final_task stopped e now t = refl
id-final_task live (some e) now t = refl
id-final_task live none now t = refl

pub advance-id :
    (lim : Bool) (a : Action) (r r' : RunningTask)
    → advance lim a r ≡ some r'
    → r'.task.id ≡ r.task.id
unfolding advance
advance-id lim acquire r r' h = ground arith
advance-id lim (abandon now) r r' h = ground arith
advance-id lim (begin now) r r' h = ground arith
advance-id lim (set_progress pct) r r' h = ground (arith, SameEnd-with_progress pct r.task)
advance-id lim (set_result raw) r r' h = ground arith
advance-id lim (finish e now) r r' h = ground (arith, id-final_task r.context e now r.task)
advance-id lim leave r r' h = ground arith
advance-id lim cancel r r' h = ground arith
advance-id lim expire r r' h = ground arith
