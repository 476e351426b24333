-- ===== src/Locker/Processes.antt =====
-- SYSDEPS/sd-locker.c: several processes of the program, whose calls interleave. Between two
-- calls of a process any others may run.
use coreland_lua_ada_load.Base.{ℕ, Bool, true, false, ◌==◌, if◌then◌else◌, ◌≡◌}
use coreland_lua_ada_load.Locker.Calls.{Calls}
use coreland_lua_ada_load.Locker.Process.{
  LockerState, Going, goes, exits, aborts, becomes, P, sd_locker_lock_file_open,
  sd_locker_lock_acquire, execute_fork, execute_wait, sd_locker_lock_release,
  sd_locker_lock_file_close, return_code,
}

-- The call that a process makes next; the last two have none.
pub data Stage : Type 0 where
  opening acquiring forking waiting releasing closing returning : Stage
  ended : ℕ → Stage
  aborted : Stage

pub record LockerProcess : Type 0 where
  pub stage : Stage
  pub state : LockerState

pub record System (W : Type 0) : Type 0 where
  pub world : W
  pub process : ℕ → LockerProcess

abbrev pub after : Stage → Stage
after opening = acquiring
after acquiring = forking
after forking = waiting
after waiting = releasing
after releasing = closing
after closing = returning
after stage = stage

-- From the return of the call that takes the lock to the call that lets it go: fork, and the run
-- of the command while the process waits.
abbrev pub inside : Stage → Bool
inside forking = true
inside waiting = true
inside releasing = true
inside _ = false

abbrev pub update : (ℕ → LockerProcess) → ℕ → LockerProcess → ℕ → LockerProcess
update f i p j = if i == j then p else f j

-- Whether the process has a call to make.
abbrev pub runs : Stage → Bool
runs (ended code) = false
runs aborted = false
runs _ = true

module _ {W : Type 0} (calls : Calls W) where
  abbrev pub stage_call : ℕ → Stage → P W
  stage_call i opening = sd_locker_lock_file_open calls i
  stage_call i acquiring = sd_locker_lock_acquire calls i
  stage_call i forking = execute_fork calls i
  stage_call i waiting = execute_wait calls i
  stage_call i releasing = sd_locker_lock_release calls i
  stage_call i closing = sd_locker_lock_file_close calls i
  stage_call i returning = return_code calls i
  stage_call i (ended code) = goes
  stage_call i aborted = goes

  -- The process and the world after a call.
  abbrev pub settled : LockerProcess → W → Going W → LockerProcess × W
  settled p w (goes s w') = (record { stage = after p.stage; state = s }, w')
  settled p w (exits code text w') = (record p { stage = ended code }, w')
  settled p w aborts = (record p { stage = aborted }, w)
  settled p w (becomes argv w') = (record p { stage = aborted }, w')

  abbrev pub turn : ℕ → LockerProcess → W → LockerProcess × W
  turn i p w = settled p w (stage_call i p.stage p.state w)

  abbrev pub moved : System W → ℕ → System W
  moved s i =
      let (p, w) = turn i (s.process i) s.world in
      record { world = w; process = update s.process i p }

  -- A process's call returns. While a call waits, only the others' calls return.
  pub data Step (s t : System W) : Type 0 where
    goes_on : (i : ℕ) → runs (s.process i).stage ≡ true → t ≡ moved s i → Step s t

  pub data Reach (s : System W) : System W → Type 0 where
    here : Reach s s
    later : {t u : System W} → Reach s t → Step t u → Reach s u
