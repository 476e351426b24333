-- ===== src/Locker/Exclusion.antt =====
-- SYSDEPS/sd-locker.c: at most one process is inside the lock, and no assertion fails.
use coreland_lua_ada_load.Base.{
  ℕ, Bool, true, false, Option, none, some, ◌==◌, ◌≡◌, ◌≢◌, inl, inr, subst, sym, ◌∙◌, ap, arith,
  Bool-cases, Option-cases,
}
use coreland_lua_ada_load.Install.Os.{Reply-cases}
use coreland_lua_ada_load.Locker.Calls.{Calls, IsLock, let_go}
use coreland_lua_ada_load.Locker.Process.{
  LockerState, sd_locker_fatal, sd_locker_lock_file_open, sd_locker_lock_acquire, execute_fork,
  execute_wait, sd_locker_lock_release, sd_locker_lock_file_close,
}
use coreland_lua_ada_load.Locker.Processes.{
  Stage, opening, acquiring, forking, waiting, releasing, closing, returning, ended, aborted,
  LockerProcess, System, inside, turn, moved, goes_on, Reach, here, later,
}

-- The lock file is open.
abbrev pub opened : LockerState → Bool
opened st = elim st.lock_fd [ none ↦ false | some fd ↦ true ]

-- What the assertions of the calls to come ask for.
abbrev pub Fits : Stage → LockerState → Type 0
Fits opening st = st.locked ≡ false
Fits acquiring st = (st.locked ≡ false) × (opened st ≡ true)
Fits forking st = (st.locked ≡ true) × (opened st ≡ true)
Fits waiting st = (st.locked ≡ true) × (opened st ≡ true)
Fits releasing st = (st.locked ≡ true) × (opened st ≡ true)
Fits closing st = (opened st ≡ true)
Fits returning st = Unit
Fits (ended code) st = Unit
Fits aborted st = ⊥

module _ {W : Type 0} (calls : Calls W) (holder : W → Option ℕ) (laws : IsLock calls holder) where
  abbrev Owns : ℕ → LockerProcess → W → Type 0
  Owns i p w = inside p.stage ≡ true → holder w ≡ some i

  record Good (i : ℕ) (r : LockerProcess × W) : Type 0 where
    fits : Fits r.0.stage r.0.state
    owns : Owns i r.0 r.1

  turn-Good :
      (i : ℕ) (stage : Stage) (st : LockerState) (w : W)
      → Fits stage st
      → (inside stage ≡ true → holder w ≡ some i)
      → Good i (turn calls i (record { stage = stage; state = st }) w)
  unfolding sd_locker_fatal sd_locker_lock_file_open sd_locker_lock_acquire execute_fork
      execute_wait sd_locker_lock_release sd_locker_lock_file_close
  turn-Good i opening st w f o = ground arith
  turn-Good i acquiring st w f o = elim (Option-cases st.lock_fd) [
    | inl closed ↦ absurd (ground arith)
    | inr (fd, e) ↦ ground (arith, laws.lock-okay i fd w)
  ]
  turn-Good i forking st w f o = ground (arith, laws.fork-holder i w)
  turn-Good i waiting st w f o = ground (arith, laws.waitpid-holder i st.process_id w)
  turn-Good i releasing st w f o = ground arith
  turn-Good i closing st w f o = ground arith
  turn-Good i returning st w f o = ground arith
  turn-Good i (ended code) st w f o = record { fits = tt; owns = λ e. absurd (ground arith) }
  turn-Good i aborted st w f o = absurd f

  let_go-other : (i j : ℕ) → i ≢ j → let_go i (some j) ≡ some j
  let_go-other i j d = ground arith

  unlock-keeps :
      (i j fd : ℕ) (w : W) → i ≢ j → holder w ≡ some j → holder (calls.unlock i fd w).1 ≡ some j
  unlock-keeps i j fd w d h = elim (Reply-cases (calls.unlock i fd w).0) [
    | inl (a, e) ↦ laws.unlock-okay i fd w e ∙ ap (let_go i) h ∙ let_go-other i j d
    | inr (x, e) ↦ laws.unlock-fails i fd x w e ∙ h
  ]

  lock-keeps :
      (i j fd : ℕ) (w : W) → i ≢ j → holder w ≡ some j → holder (calls.lock i fd w).1 ≡ some j
  lock-keeps i j fd w d h = elim (Reply-cases (calls.lock i fd w).0) [
    | inl (a, e) ↦ absurd (ground (arith, laws.lock-free i fd w e))
    | inr (x, e) ↦ laws.lock-fails i fd x w e ∙ h
  ]

  close-keeps :
      (i j fd : ℕ) (w : W) → i ≢ j → holder w ≡ some j → holder (calls.close i fd w).1 ≡ some j
  close-keeps i j fd w d h = laws.close-holder i fd w ∙ ap (let_go i) h ∙ let_go-other i j d

  exit-keeps : (i j : ℕ) (w : W) → i ≢ j → holder w ≡ some j → holder (calls.exit i w) ≡ some j
  exit-keeps i j w d h = laws.exit-holder i w ∙ ap (let_go i) h ∙ let_go-other i j d

  -- Another process's lock stays.
  turn-keeps :
      (i j : ℕ) (stage : Stage) (st : LockerState) (w : W)
      → i ≢ j
      → holder w ≡ some j
      → holder (turn calls i (record { stage = stage; state = st }) w).1 ≡ some j
  unfolding sd_locker_fatal sd_locker_lock_file_open sd_locker_lock_acquire execute_fork
      execute_wait sd_locker_lock_release sd_locker_lock_file_close
  turn-keeps i j opening st w d h =
      let k = laws.open_file-holder i st.lock_file w ∙ h in
      ground (arith, exit-keeps i j (calls.open_file i st.lock_file w).1 d k)
  turn-keeps i j acquiring st w d h = elim (Option-cases st.lock_fd) [
    | inl closed ↦ ground arith
    | inr (fd, e) ↦
        let k = lock-keeps i j fd w d h in ground (arith, exit-keeps i j (calls.lock i fd w).1 d k)
  ]
  turn-keeps i j forking st w d h =
      let k = laws.fork-holder i w ∙ h in ground (arith, exit-keeps i j (calls.fork i w).1 d k)
  turn-keeps i j waiting st w d h =
      let k = laws.waitpid-holder i st.process_id w ∙ h in
      ground (arith, exit-keeps i j (calls.waitpid i st.process_id w).1 d k)
  turn-keeps i j releasing st w d h = elim (Option-cases st.lock_fd) [
    | inl closed ↦ ground arith
    | inr (fd, e) ↦
        let k = unlock-keeps i j fd w d h in
        ground (arith, exit-keeps i j (calls.unlock i fd w).1 d k)
  ]
  turn-keeps i j closing st w d h = elim (Option-cases st.lock_fd) [
    | inl closed ↦ ground arith
    | inr (fd, e) ↦
        let k = close-keeps i j fd w d h in
        ground (arith, exit-keeps i j (calls.close i fd w).1 d k)
  ]
  turn-keeps i j returning st w d h = exit-keeps i j w d h
  turn-keeps i j (ended code) st w d h = h
  turn-keeps i j aborted st w d h = h

  -- Every process fits its stage, and one that is inside holds the lock.
  pub record IsSafe (s : System W) : Type 0 where
    pub fits : (i : ℕ) → Fits (s.process i).stage (s.process i).state
    pub owns : (i : ℕ) → inside (s.process i).stage ≡ true → holder s.world ≡ some i

  moved-IsSafe : (s : System W) (i : ℕ) → IsSafe s → IsSafe (moved calls s i)
  moved-IsSafe s i safe =
      let p = s.process i in
      let good = turn-Good i p.stage p.state s.world (safe.fits i) (safe.owns i) in
      record {
        fits = λ j. elim (Bool-cases (i == j)) [
          | inl same ↦ rw same good.fits
          | inr other ↦ rw other (safe.fits j)
        ];
        owns = λ j. elim (Bool-cases (i == j)) [
          | inl same ↦ rw same (λ e. good.owns e ∙ ap some (ground arith))
          | inr other ↦
              rw other (λ e. turn-keeps i j p.stage p.state s.world (ground arith) (safe.owns j e))
        ];
      }

  pub Reach-IsSafe : {s t : System W} → IsSafe s → Reach calls s t → IsSafe t
  Reach-IsSafe safe here = safe
  Reach-IsSafe safe (later {t} r (goes_on i g e)) =
      subst IsSafe (sym e) (moved-IsSafe t i (Reach-IsSafe safe r))

  -- All processes are at the start.
  abbrev pub Begun : System W → Type 0
  Begun s = (i : ℕ) → ((s.process i).stage ≡ opening) × ((s.process i).state.locked ≡ false)

  Begun-IsSafe : (s : System W) → Begun s → IsSafe s
  Begun-IsSafe s begun = record {
    fits = λ i. subst (λ stage. Fits stage (s.process i).state) (sym (begun i).0) (begun i).1;
    owns = λ i e. absurd (ground (arith, begun i));
  }

  module _ {s t : System W} (begun : Begun s) (r : Reach calls s t) where
    -- Where the calls keep the laws of one lock, in every state that is reached from a start of
    -- all processes, two processes are never both inside the lock.
    pub exclusion :
        (i j : ℕ) → inside (t.process i).stage ≡ true → inside (t.process j).stage ≡ true → i ≡ j
    exclusion i j in_i in_j =
        let safe = Reach-IsSafe (Begun-IsSafe s begun) r in
        ground (arith, safe.owns i in_i, safe.owns j in_j)

    -- Where the calls keep the laws of one lock, in every state that is reached from a start of
    -- all processes, no assertion has failed.
    no_assertion_fails : (i : ℕ) → (t.process i).stage ≢ aborted
    no_assertion_fails i e =
        let safe = Reach-IsSafe (Begun-IsSafe s begun) r in
        subst (λ stage. Fits stage (t.process i).state) e (safe.fits i)
