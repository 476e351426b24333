-- ===== src/Locker/Process.antt =====
-- SYSDEPS/sd-locker.c and SYSDEPS/sd-locker_posix.c: one process. A function goes on with a
-- state, exits, or aborts by an assertion.
use coreland_lua_ada_load.Base.{
  ℕ, Bytes, Bool, true, false, Option, none, some, List, [], ◌∷◌, ◌++◌, not, codes, fmt_int,
}
use coreland_lua_ada_load.Install.Os.{Reply, okay, fails}
use coreland_lua_ada_load.Locker.Calls.{Calls}

-- struct sd_locker_state_t, with lock_fd of posix_state and process_id of sd_locker_posix_execute;
-- an id is a 32-bit word.
pub record LockerState : Type 0 where
  pub lock_file : Bytes
  pub id : ℕ
  pub exit_code : ℕ
  pub locked : Bool
  pub lock_fd : Option ℕ
  pub process_id : ℕ

pub data Going (W : Type 0) : Type 0 where
  goes : LockerState → W → Going W
  -- the exit status, and what was printed on stderr
  exits : ℕ → Bytes → W → Going W
  aborts : Going W
  -- the process has become the command
  becomes : List Bytes → W → Going W

abbrev pub P : Type 0 → Type 0
P W = LockerState → W → Going W

infixl 5 ◌>>◌
abbrev pub ◌>>◌ : {W : Type 0} → P W → P W → P W
◌>>◌ m k s w = elim (m s w) [
  | goes s' w' ↦ k s' w'
  | exits code text w' ↦ exits code text w'
  | aborts ↦ aborts
  | becomes argv w' ↦ becomes argv w'
]

abbrev pub claims : {W : Type 0} → Bool → P W → P W
claims true k s w = k s w
claims false k s w = aborts

-- `state->locked`, set behind the call for the system's lock.
abbrev pub mark_locked : {W : Type 0} → Bool → P W
mark_locked b s w = goes (record s { locked = b }) w

abbrev pub usage_text : Bytes
usage_text = codes "sd-locker: usage: id file command [arguments]\n"

module _ {W : Type 0} (calls : Calls W) (me : ℕ) where
  -- "sd-locker: %d: %s - %s\n", and exit (EXIT_FAILURE)
  abbrev pub fatal_text : ℕ → Bytes → ℕ → Bytes
  fatal_text id message e =
      codes "sd-locker: "
      ++ (fmt_int id
          ++ (codes ": " ++ (message ++ (codes " - " ++ (calls.strerror e ++ codes "\n")))))

  unfoldable pub sd_locker_fatal : Bytes → ℕ → P W
  unfolding fmt_int
  sd_locker_fatal message e s w = exits 1 (fatal_text s.id message e) (calls.exit me w)

  -- What follows a call: its failure is fatal.
  abbrev pub or_fatal :
      {A : Type 0} → Bytes → Reply A × W → (A → W → Going W) → LockerState → Going W
  or_fatal message (okay a, w) k s = k a w
  or_fatal message (fails e, w) k s = sd_locker_fatal message e s w

  unfoldable pub sd_locker_lock_file_open : P W
  unfolding sd_locker_fatal
  sd_locker_lock_file_open s w =
      or_fatal (codes "open") (calls.open_file me s.lock_file w)
        (λ fd w'. goes (record s { lock_fd = some fd }) w') s

  -- A call on lock_fd, which is -1 only where open failed.
  abbrev pub on_fd : (ℕ → P W) → P W
  on_fd k s w = elim s.lock_fd [ none ↦ aborts | some fd ↦ k fd s w ]

  abbrev pub posix_lock_acquire : P W
  posix_lock_acquire s w =
      claims (not s.locked)
        (on_fd λ fd s w. or_fatal (codes "fcntl") (calls.lock me fd w) (λ _ w'. goes s w') s) s w

  unfoldable pub sd_locker_lock_acquire : P W
  unfolding sd_locker_fatal
  sd_locker_lock_acquire = posix_lock_acquire >> mark_locked true

  abbrev pub posix_lock_release : P W
  posix_lock_release s w =
      claims s.locked
        (on_fd λ fd s w. or_fatal (codes "fcntl") (calls.unlock me fd w) (λ _ w'. goes s w') s) s w

  unfoldable pub sd_locker_lock_release : P W
  unfolding sd_locker_fatal
  sd_locker_lock_release = posix_lock_release >> mark_locked false

  unfoldable pub sd_locker_lock_file_close : P W
  unfolding sd_locker_fatal
  sd_locker_lock_file_close s w =
      on_fd (λ fd s w. or_fatal (codes "close") (calls.close me fd w) (λ _ w'. goes s w') s) s w

  -- sd_locker_execute in the parent: fork, and then the wait for the child.
  unfoldable pub execute_fork : P W
  unfolding sd_locker_fatal
  execute_fork s w =
      claims s.locked
        (λ s w.
          or_fatal (codes "fork") (calls.fork me w)
            (λ pid w'. goes (record s { process_id = pid }) w') s)
        s w

  unfoldable pub execute_wait : P W
  unfolding sd_locker_fatal
  execute_wait s w =
      or_fatal (codes "waitpid") (calls.waitpid me s.process_id w)
        (λ status w'. goes (record s { exit_code = status }) w') s

  -- sd_locker_execute in the child, with the command and its arguments.
  unfoldable pub execute_child : List Bytes → P W
  unfolding sd_locker_fatal
  execute_child argv s w =
      on_fd
        (λ fd s w.
          or_fatal (codes "close") (calls.close me fd w)
            (λ _ w'. elim (calls.execvp me argv w') [
              | none ↦ becomes argv w'
              | some e ↦ sd_locker_fatal (codes "execvp") e s w'
            ])
            s)
        s w

  -- main, on the arguments behind the program's name.
  abbrev pub initial : Bytes → Bytes → LockerState
  initial id file = record {
    lock_file = file;
    id = calls.atoi id;
    exit_code = 0;
    locked = false;
    lock_fd = none;
    process_id = 0;
  }

  abbrev pub return_code : P W
  return_code s w = exits s.exit_code [] (calls.exit me w)

  unfoldable pub sd_locker_main : List Bytes → W → Going W
  unfolding sd_locker_lock_file_open sd_locker_lock_acquire execute_fork execute_wait
      sd_locker_lock_release sd_locker_lock_file_close
  sd_locker_main (id ∷ file ∷ command ∷ arguments) w =
      (sd_locker_lock_file_open >> sd_locker_lock_acquire >> execute_fork >> execute_wait
          >> sd_locker_lock_release >> sd_locker_lock_file_close >> return_code)
        (initial id file) w
  sd_locker_main _ w = exits 1 usage_text (calls.exit me w)
