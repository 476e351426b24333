-- ===== src/Locker/WindowsRun.antt =====
-- SYSDEPS/sd-locker.c and SYSDEPS/sd-locker_win32.c: a run of main on Windows ends by an exit.
use coreland_lua_ada_load.Base.{
  Bytes, none, List, [], ◌∷◌, codes, ◌≢◌, inl, inr, refl, arith, Option-cases,
}
use coreland_lua_ada_load.Locker.Process.{LockerState, Going, ◌>>◌}
use coreland_lua_ada_load.Locker.Processes.{
  opening, acquiring, forking, releasing, closing, returning,
}
use coreland_lua_ada_load.Locker.Exclusion.{Fits}
use coreland_lua_ada_load.Locker.Ends.{Ends, >>-Ends}
use coreland_lua_ada_load.Locker.Quoting.{command_line, convert_command-converts}
use coreland_lua_ada_load.Locker.Windows.{
  WindowsCalls, win32_fatal, win32_lock_file_open, win32_acquire, win32_release,
  win32_lock_file_close, win32_run, win32_execute, win32_initial, win32_return_code, win32_main,
}

module _ {W : Type 0} (calls : WindowsCalls W)
    (told : (w : W) → calls.format_message w ≢ none) where
  abbrev Exits : (LockerState → Type 0) → Going W → Type 0
  Exits = Ends (λ w. Unit)

  fatal-Exits :
      (Q : LockerState → Type 0) (m : Bytes) (s : LockerState) (w : W)
      → Exits Q (win32_fatal calls m s w)
  unfolding win32_fatal
  fatal-Exits Q m s w = elim (Option-cases (calls.format_message w)) [
    | inl e ↦ absurd (told w e)
    | inr (reason, e) ↦ rw (win32_fatal, e) tt
  ]

  open-Exits :
      (s : LockerState) (w : W)
      → Fits opening s
      → Exits (Fits acquiring) (win32_lock_file_open calls s w)
  unfolding win32_lock_file_open
  open-Exits s w f = grind (arith, fatal-Exits)

  acquire-Exits :
      (s : LockerState) (w : W) → Fits acquiring s → Exits (Fits forking) (win32_acquire calls s w)
  unfolding win32_acquire
  acquire-Exits s w f = grind (arith, fatal-Exits)

  release-Exits :
      (s : LockerState) (w : W) → Fits releasing s → Exits (Fits closing) (win32_release calls s w)
  unfolding win32_release
  release-Exits s w f = grind (arith, fatal-Exits)

  close-Exits :
      (s : LockerState) (w : W)
      → Fits closing s
      → Exits (Fits returning) (win32_lock_file_close calls s w)
  unfolding win32_lock_file_close
  close-Exits s w f = grind (arith, fatal-Exits)

  run-Exits :
      (command : Bytes) (s : LockerState) (w : W)
      → Fits forking s
      → Exits (Fits releasing) (win32_run calls command s w)
  unfolding win32_run
  run-Exits command s w f = grind (arith, fatal-Exits)

  execute-Exits :
      (argv : List Bytes) (s : LockerState) (w : W)
      → argv ≢ []
      → Fits forking s
      → Exits (Fits releasing) (win32_execute calls argv s w)
  unfolding win32_execute
  execute-Exits argv s w ne f =
      let none_stored = fatal-Exits (Fits releasing) (codes "malloc") s w in
      let runs = run-Exits (command_line argv) s w f in
      rw (f.0, convert_command-converts calls.malloc argv ne) (ground (arith, runs, none_stored))

  -- Where the system has a message for each error, a run of main ends by an exit, whatever the
  -- other calls answer: no assertion fails, and no write leaves the command line's buffer.
  pub win32_main-Exits : (args : List Bytes) (w : W) → Exits (λ s. ⊥) (win32_main calls args w)
  unfolding win32_main
  win32_main-Exits [] w = tt
  win32_main-Exits (id ∷ []) w = tt
  win32_main-Exits (id ∷ file ∷ []) w = tt
  win32_main-Exits (id ∷ file ∷ command ∷ arguments) w =
      let E = λ (w : W). Unit {0} in
      let s0 = win32_initial calls id file in
      let o = win32_lock_file_open calls in
      let a = win32_acquire calls in
      let x = win32_execute calls (command ∷ arguments) in
      let r = win32_release calls in
      let c = win32_lock_file_close calls in
      >>-Ends E (Fits returning) (λ s. ⊥) (o >> a >> x >> r >> c) (win32_return_code calls) s0 w
        (>>-Ends E (Fits closing) (Fits returning) (o >> a >> x >> r) c s0 w
          (>>-Ends E (Fits releasing) (Fits closing) (o >> a >> x) r s0 w
            (>>-Ends E (Fits forking) (Fits releasing) (o >> a) x s0 w
              (>>-Ends E (Fits acquiring) (Fits forking) o a s0 w (open-Exits s0 w refl)
                acquire-Exits)
              (λ s w'. execute-Exits (command ∷ arguments) s w' (ground arith)))
            release-Exits)
          close-Exits)
        (λ s w' q. tt)
