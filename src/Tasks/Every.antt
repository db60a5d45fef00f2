-- ===== src/Tasks/Every.antt =====
-- What holds of every task of the manager, through its steps.
use btrfs_nfs_csi.Base.{
  ℕ, ◌≡◌, List, [], ◌∷◌, map, Option, some, Bytes, ◌=b◌, All, arith, Option-cases, Bool-cases, inl,
  inr,
}
use btrfs_nfs_csi.Tasks.{Task, RunningTask}
use btrfs_nfs_csi.Tasks.Manager.{at_task, unlist, loaded_task, put_task, load_tasks_from_disk}

pub All-at_task :
    {P : RunningTask → Type 0} (f : RunningTask → Option RunningTask)
    → ((r r' : RunningTask) → f r ≡ some r' → P r → P r')
    → (id : Bytes) (tasks after : List RunningTask) → at_task id f tasks ≡ some after
    → All P tasks
    → All P after
unfolding at_task
All-at_task f keeps id [] after h ok = absurd (cc)
All-at_task f keeps id (r ∷ rest) after h ok = elim (Bool-cases (r.task.id =b id)) [
  | inl here ↦ elim (Option-cases (f r)) [
    | inl refused ↦ absurd (ground (arith, here, refused))
    | inr (r', done) ↦
        let known : after ≡ r' ∷ rest = ground (arith, here, done) in
        rw known (keeps r r' done ok.0, ok.1)
  ]
  | inr other ↦ elim (Option-cases (at_task id f rest)) [
    | inl refused ↦ absurd (ground (arith, other, refused))
    | inr (rest', done) ↦
        let known : after ≡ r ∷ rest' = ground (arith, other, done) in
        rw known (ok.0, All-at_task f keeps id rest rest' done ok.1)
  ]
]

pub All-unlist :
    {P : RunningTask → Type 0} (cutoff : ℕ)
    → ((r : RunningTask) → P r → P (unlist cutoff r))
    → (tasks : List RunningTask) → All P tasks
    → All P (map (unlist cutoff) tasks)
All-unlist cutoff keeps [] ok = tt
All-unlist cutoff keeps (r ∷ rest) ok = (keeps r ok.0, All-unlist cutoff keeps rest ok.1)

All-put_task :
    (P : RunningTask → Type 0) (r : RunningTask)
    → P r
    → (tasks : List RunningTask) → All P tasks
    → All P (put_task r tasks)
unfolding put_task
All-put_task P r h [] ok = (h, tt)
All-put_task P r h (x ∷ rest) ok = elim (Bool-cases (x.task.id =b r.task.id)) [
  | inl here ↦ rw here (h, ok.1)
  | inr other ↦ rw other (ok.0, All-put_task P r h rest ok.1)
]

-- What holds of every loaded task holds of all tasks of a new manager.
pub All-load_tasks_from_disk :
    (P : RunningTask → Type 0) (now : ℕ)
    → ((t : Task) → P (loaded_task now t))
    → (on_disk : List Task) (tasks : List RunningTask) → All P tasks
    → All P (load_tasks_from_disk now on_disk tasks)
unfolding load_tasks_from_disk
All-load_tasks_from_disk P now h [] tasks ok = ok
All-load_tasks_from_disk P now h (t ∷ rest) tasks ok =
    All-load_tasks_from_disk P now h rest (put_task (loaded_task now t) tasks)
      (All-put_task P (loaded_task now t) (h t) tasks ok)
