-- ===== src/Storage/Exec.antt =====
-- Handlers as actions: a state is passed on, and an early return is an error. What was done before
-- it stays done.
pub mod Triple
use btrfs_nfs_csi.Base.{Bool, true, false, List, ◌∷◌, if◌then◌else◌}
use btrfs_nfs_csi.Storage.Model.{Error}
use btrfs_nfs_csi.Storage.Host.{
  Call, Outcome, done, not_exist, target_exists, failed, Host, State, FilePath, lock, unlock,
}

pub data Result (A : Type 0) : Type 0 where
  ok : A → Result A
  err : Error → Result A

abbrev pub Exec : Type 0 → Type 0
Exec A = State → Result A × State

abbrev pub continue : {A B : Type 0} → Result A → (A → Exec B) → Exec B
continue (ok a) f s = f a s
continue (err e) f s = (err e, s)

unfoldable pub pure : {A : Type 0} → A → Exec A
pure a s = (ok a, s)

unfoldable pub fail : {A : Type 0} → Error → Exec A
fail e s = (err e, s)

unfoldable pub lift : {A : Type 0} → Result A → Exec A
lift r s = (r, s)

-- `if !ok { return nil, e }`
unfoldable pub guard : Bool → Error → Exec Unit
guard true e s = (ok tt, s)
guard false e s = (err e, s)

-- A change of the state alone.
unfoldable pub modify : (State → State) → Exec Unit
modify f s = (ok tt, f s)

abbrev pub is_done : Outcome → Bool
is_done done = true
is_done _ = false

abbrev pub after_call : State → Call → Outcome → State
after_call s c o = record s { trace = (c, o) ∷ s.trace }

-- One call of the world outside.
unfoldable pub call : Host → Call → Exec Outcome
call host c s = (ok (host.respond s.trace c), after_call s c (host.respond s.trace c))

-- A call whose error is at most logged.
unfoldable pub try_call : Host → Call → Exec Unit
try_call host c s = (ok tt, after_call s c (host.respond s.trace c))

infixl 5 ◌>>=◌ ◌>>◌
-- To open this is to open the actions above as well.
unfoldable pub ◌>>=◌ : {A B : Type 0} → Exec A → (A → Exec B) → Exec B
unfolding pure fail lift guard modify call try_call
◌>>=◌ m f s = continue (m s).0 f (m s).1

abbrev pub ◌>>◌ : {B : Type 0} → Exec (Unit {0}) → Exec B → Exec B
m >> k = m >>= λ _. k

unfoldable pub when : Bool → Exec Unit → Exec Unit
when true m = m
when false m = pure tt

unfoldable pub settle : Exec Unit → Error → Outcome → Exec Unit
settle cleanup e done = pure tt
settle cleanup e _ = cleanup >> fail e

-- `if err := call; err != nil { cleanup; return e }`
unfoldable pub must : Host → Call → Exec Unit → Error → Exec Unit
unfolding settle
must host c cleanup e = call host c >>= settle cleanup e

unlocked : {A : Type 0} → Host → FilePath → Exec A → Exec A
unlocked host p body s = ((body s).0, (try_call host (unlock p) (body s).1).1)

-- The body between a lock that the context may refuse and the deferred unlock.
unfoldable pub locked : {A : Type 0} → Host → FilePath → Error → Exec A → Exec A
unfolding unlocked
locked host p refused body = do
  o ← call host (lock p)
  if is_done o then unlocked host p body else fail refused
