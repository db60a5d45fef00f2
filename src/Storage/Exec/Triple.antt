-- ===== src/Storage/Exec/Triple.antt =====
-- What an action guarantees: from a state with `P` it ends with `Q`, or in an error with `E`. One
-- rule for each way to build an action.
use btrfs_nfs_csi.Base.{◌≡◌, refl, Bool, true, false, if◌then◌else◌}
use btrfs_nfs_csi.Storage.Model.{Error}
use btrfs_nfs_csi.Storage.Host.{
  Call, Outcome, done, not_exist, target_exists, failed, Host, State, FilePath, lock, unlock,
}
use btrfs_nfs_csi.Storage.Exec.{
  Result, ok, err, Exec, continue, pure, fail, lift, guard, modify, after_call, call, try_call,
  ◌>>=◌, ◌>>◌, when, settle, must, unlocked, locked, is_done,
}

abbrev pub Post :
    {A : Type 0} → (A → State → Type 0) → (Error → State → Type 0) → Result A → State → Type 0
Post Q E (ok a) s = Q a s
Post Q E (err e) s = E e s

pub record Triple {A : Type 0} (P : State → Type 0) (m : Exec A) (Q : A → State → Type 0)
    (E : Error → State → Type 0) : Type 0 where
  pub run : (s : State) → P s → Post Q E (m s).0 (m s).1

module _ {A : Type 0} {P : State → Type 0} {Q : A → State → Type 0}
    {E : Error → State → Type 0} where
  pub Triple-pure : (a : A) → ((s : State) → P s → Q a s) → Triple P (pure a) Q E
  unfolding pure
  Triple-pure a h = record { run = h }

  pub Triple-fail : (e : Error) → ((s : State) → P s → E e s) → Triple P (fail e) Q E
  unfolding fail
  Triple-fail e h = record { run = h }

  pub Triple-if :
      (b : Bool) (m n : Exec A)
      → (b ≡ true → Triple P m Q E)
      → (b ≡ false → Triple P n Q E)
      → Triple P (if b then m else n) Q E
  Triple-if true m n hm hn = hm refl
  Triple-if false m n hm hn = hn refl

  pub Triple-lift :
      (r : Result A)
      → ((a : A) → r ≡ ok a → (s : State) → P s → Q a s)
      → ((e : Error) → r ≡ err e → (s : State) → P s → E e s)
      → Triple P (lift r) Q E
  unfolding lift
  Triple-lift (ok a) good bad = record { run = good a refl }
  Triple-lift (err e) good bad = record { run = bad e refl }

-- A triple with a weaker result.
module _ {A : Type 0} {P : State → Type 0} {Q Q' : A → State → Type 0}
    {E : Error → State → Type 0} where
  pub Triple-weaken :
      {m : Exec A} → Triple P m Q E → ((a : A) (s : State) → Q a s → Q' a s) → Triple P m Q' E
  Triple-weaken {m = m} t h = record { run = λ s p. weaken (m s).0 (m s).1 (t.run s p) }
    where
      weaken : (r : Result A) (s : State) → Post Q E r s → Post Q' E r s
      weaken (ok a) s q = h a s q
      weaken (err e) s q = q

module _ {A B : Type 0} {R : A → State → Type 0} {Q : B → State → Type 0}
    {E : Error → State → Type 0} where
  continue-Post :
      (f : A → Exec B)
      → ((a : A) → Triple (R a) (f a) Q E)
      → (r : Result A) (s : State) → Post R E r s
      → Post Q E (continue r f s).0 (continue r f s).1
  continue-Post f hf (ok a) s h = (hf a).run s h
  continue-Post f hf (err e) s h = h

  pub Triple-bind :
      {P : State → Type 0} (m : Exec A) (f : A → Exec B)
      → Triple P m R E
      → ((a : A) → Triple (R a) (f a) Q E)
      → Triple P (m >>= f) Q E
  unfolding ◌>>=◌
  Triple-bind m f hm hf = record { run = λ s h. continue-Post f hf (m s).0 (m s).1 (hm.run s h) }

module _ {P : State → Type 0} {E : Error → State → Type 0} where
  pub Triple-guard :
      (b : Bool) (e : Error)
      → ((s : State) → P s → E e s)
      → Triple P (guard b e) (λ _ s. (b ≡ true) × P s) E
  unfolding guard
  Triple-guard true e h = record { run = λ s p. (refl, p) }
  Triple-guard false e h = record { run = h }

  pub Triple-modify :
      {Q : State → Type 0} (f : State → State)
      → ((s : State) → P s → Q (f s))
      → Triple P (modify f) (λ _. Q) E
  unfolding modify
  Triple-modify f h = record { run = h }

  pub Triple-when :
      (b : Bool) (m : Exec Unit) → Triple P m (λ _. P) E → Triple P (when b m) (λ _. P) E
  unfolding when
  Triple-when true m h = h
  Triple-when false m h = Triple-pure tt (λ s p. p)

  pub Triple-try :
      {Q : State → Type 0} (host : Host) (c : Call)
      → ((s : State) → P s → Q (after_call s c (host.respond s.trace c)))
      → Triple P (try_call host c) (λ _. Q) E
  unfolding try_call
  Triple-try host c h = record { run = h }

  pub Triple-call :
      {Q : Outcome → State → Type 0} (host : Host) (c : Call)
      → ((s : State) → P s → Q (host.respond s.trace c) (after_call s c (host.respond s.trace c)))
      → Triple P (call host c) Q E
  unfolding call
  Triple-call host c h = record { run = h }

-- What holds after a call: `Q` if it was done, else what the cleanup needs.
abbrev pub Answered : (State → Type 0) → (State → Type 0) → Outcome → State → Type 0
Answered Q N done s = Q s
Answered Q N _ s = N s

module _ {Q : State → Type 0} {E : Error → State → Type 0} where
  settle_rule :
      (N : State → Type 0) (cleanup : Exec Unit) (e : Error)
      → Triple N (cleanup >> fail {A = Unit {0}} e) (λ _. Q) E
      → (o : Outcome) → Triple (Answered Q N o) (settle cleanup e o) (λ _. Q) E
  unfolding settle
  settle_rule N cleanup e h done = Triple-pure tt (λ s q. q)
  settle_rule N cleanup e h not_exist = h
  settle_rule N cleanup e h target_exists = h
  settle_rule N cleanup e h failed = h

  pub Triple-must :
      {P : State → Type 0} (host : Host) (c : Call) (N : State → Type 0) (cleanup : Exec Unit)
      (e : Error)
      → ((s : State) (o : Outcome) → P s → Answered Q N o (after_call s c o))
      → Triple N (cleanup >> fail {A = Unit {0}} e) (λ _. Q) E
      → Triple P (must host c cleanup e) (λ _. Q) E
  unfolding must
  Triple-must host c N cleanup e h undo =
      Triple-bind (call host c) (settle cleanup e)
        (Triple-call host c (λ s p. h s (host.respond s.trace c) p)) (settle_rule N cleanup e undo)

module _ {A : Type 0} {P P' : State → Type 0} {Q : A → State → Type 0} {E : Error → State → Type 0}
    (host : Host) (p : FilePath) (refused : Error) (body : Exec A) where
  -- The lock and the unlock are calls, under which the assertions must be stable.
  pub Triple-locked :
      ((s : State) (o : Outcome) → P s → P' (after_call s (lock p) o))
      → ((a : A) (s : State) (o : Outcome) → Q a s → Q a (after_call s (unlock p) o))
      → ((e : Error) (s : State) (o : Outcome) → E e s → E e (after_call s (unlock p) o))
      → ((s : State) → P' s → E refused s)
      → Triple P' body Q E
      → Triple P (locked host p refused body) Q E
  unfolding locked try_call
  Triple-locked enter keep_q keep_e refuse inner =
      Triple-bind (call host (lock p)) _ (Triple-call host (lock p) (λ s h. enter s _ h)) λ o.
        Triple-if (is_done o) (unlocked host p body) (fail refused)
          (λ _. record { run = λ s h. leave (body s).0 (body s).1 (inner.run s h) })
          (λ _. Triple-fail refused refuse)
    where
      leave :
          (r : Result A) (s : State)
          → Post Q E r s
          → Post Q E r (after_call s (unlock p) (host.respond s.trace (unlock p)))
      leave (ok a) s h = keep_q a s _ h
      leave (err e) s h = keep_e e s _ h

-- A fact that does not mention the state outlasts every action.
pub Triple-fact :
    {A : Type 0} (F : Type 0) (m : Exec A) → Triple (λ s. F) m (λ a s. F) (λ e s. Unit {0})
Triple-fact F m = record { run = λ s h. go h (m s).0 (m s).1 }
  where
    go : {A : Type 0} (h : F) (r : Result A) (s : State) → Post (λ a s. F) (λ e s. Unit {0}) r s
    go h (ok a) s = h
    go h (err e) s = tt
