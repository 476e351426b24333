-- ===== src/Locker/Windows.antt =====
-- SYSDEPS/sd-locker.c and SYSDEPS/sd-locker_win32.c: the program on Windows.
use coreland_lua_ada_load.Base.{
  ℕ, Bytes, Bool, true, false, Option, none, some, List, [], ◌∷◌, ◌++◌, not, codes, fmt_int,
}
use coreland_lua_ada_load.Locker.Process.{
  LockerState, Going, goes, exits, aborts, P, ◌>>◌, claims, mark_locked, usage_text,
}
use coreland_lua_ada_load.Locker.Command.{no_storage, overruns, converts, convert_command}

-- The calls of the system: a handle or a code is none, and a truth value false, where the call fails.
pub record WindowsCalls (W : Type 0) : Type 0 where
  pub create_file : Bytes → W → Option ℕ × W
  pub lock_file_ex : ℕ → W → Bool × W
  pub unlock_file_ex : ℕ → W → Bool × W
  pub close_handle : ℕ → W → Bool × W
  -- CreateProcess, with the handles of the process and of its thread
  pub create_process : Bytes → W → Option (ℕ × ℕ) × W
  pub wait_for_single_object : ℕ → W → W
  pub get_exit_code_process : ℕ → W → Option ℕ × W
  -- FormatMessage on GetLastError; it leaves NULL where it fails.
  pub format_message : W → Option Bytes
  pub malloc : ℕ → Bool
  pub atoi : Bytes → ℕ

module _ {W : Type 0} (calls : WindowsCalls W) where
  -- sd_locker_fatal, with sd_locker_win32_error_message
  unfoldable pub win32_fatal : Bytes → P W
  unfolding fmt_int
  win32_fatal message s w = elim (calls.format_message w) [
    | none ↦ aborts
    | some reason ↦
        exits 1
          (codes "sd-locker: "
            ++ (fmt_int s.id
                ++ (codes ": " ++ (message ++ (codes " - " ++ (reason ++ codes "\n"))))))
          w
  ]

  abbrev pub or_win32_fatal :
      {A : Type 0} → Bytes → Option A × W → (A → W → Going W) → LockerState → Going W
  or_win32_fatal message (some a, w) k s = k a w
  or_win32_fatal message (none, w) k s = win32_fatal message s w

  abbrev pub unless : Bytes → Bool × W → (W → Going W) → LockerState → Going W
  unless message (true, w) k s = k w
  unless message (false, w) k s = win32_fatal message s w

  -- The handle is kept where the other system has lock_fd.
  abbrev pub on_handle : (ℕ → P W) → P W
  on_handle k s w = elim s.lock_fd [ none ↦ aborts | some handle ↦ k handle s w ]

  unfoldable pub win32_lock_file_open : P W
  unfolding win32_fatal
  win32_lock_file_open s w =
      or_win32_fatal (codes "create_file") (calls.create_file s.lock_file w)
        (λ handle w'. goes (record s { lock_fd = some handle }) w') s

  abbrev pub win32_lock_acquire : P W
  win32_lock_acquire s w =
      claims (not s.locked)
        (on_handle λ handle s w.
          unless (codes "lock_file_ex") (calls.lock_file_ex handle w) (λ w'. goes s w') s)
        s w

  unfoldable pub win32_acquire : P W
  unfolding win32_fatal
  win32_acquire = win32_lock_acquire >> mark_locked true

  abbrev pub win32_lock_release : P W
  win32_lock_release s w =
      claims s.locked
        (on_handle λ handle s w.
          unless (codes "unlock_file_ex") (calls.unlock_file_ex handle w) (λ w'. goes s w') s)
        s w

  unfoldable pub win32_release : P W
  unfolding win32_fatal
  win32_release = win32_lock_release >> mark_locked false

  unfoldable pub win32_lock_file_close : P W
  unfolding win32_fatal
  win32_lock_file_close =
      on_handle λ handle s w.
        unless (codes "close_handle") (calls.close_handle handle w) (λ w'. goes s w') s

  -- The command's process, from its start to its end.
  unfoldable pub win32_run : Bytes → P W
  unfolding win32_fatal
  win32_run command s w =
      or_win32_fatal (codes "create_process") (calls.create_process command w)
        (λ (process, thread) w1.
          or_win32_fatal (codes "exit_code")
            (calls.get_exit_code_process process (calls.wait_for_single_object process w1))
            (λ code w2.
              let s' = record s { exit_code = code } in
              unless (codes "close_process") (calls.close_handle process w2)
                (λ w3.
                  unless (codes "close_thread") (calls.close_handle thread w3) (λ w4. goes s' w4)
                    s')
                s')
            s)
        s

  unfoldable pub win32_execute : List Bytes → P W
  unfolding win32_fatal win32_run convert_command
  win32_execute argv s w =
      claims s.locked
        (λ s w. elim (convert_command calls.malloc argv) [
          | no_storage ↦ win32_fatal (codes "malloc") s w
          | overruns ↦ aborts
          | converts command ↦ win32_run command s w
        ])
        s w

  abbrev pub win32_initial : Bytes → Bytes → LockerState
  win32_initial id file = record {
    lock_file = file;
    id = calls.atoi id;
    exit_code = 0;
    locked = false;
    lock_fd = none;
    process_id = 0;
  }

  abbrev pub win32_return_code : P W
  win32_return_code s w = exits s.exit_code [] w

  unfoldable pub win32_main : List Bytes → W → Going W
  unfolding win32_lock_file_open win32_acquire win32_execute win32_release win32_lock_file_close
  win32_main (id ∷ file ∷ command ∷ arguments) w =
      (win32_lock_file_open
          >> win32_acquire
          >> win32_execute (command ∷ arguments)
          >> win32_release
          >> win32_lock_file_close
          >> win32_return_code)
        (win32_initial id file) w
  win32_main _ w = exits 1 usage_text w
