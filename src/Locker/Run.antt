-- ===== src/Locker/Run.antt =====
-- SYSDEPS/sd-locker.c: one run of main, and the child that becomes the command.
use coreland_lua_ada_load.Base.{
  ℕ, Bytes, Option, some, List, [], ◌∷◌, ◌≢◌, inl, inr, refl, arith, Option-cases,
}
use coreland_lua_ada_load.Locker.Calls.{Calls, IsLock}
use coreland_lua_ada_load.Locker.Process.{
  LockerState, ◌>>◌, initial, sd_locker_fatal, sd_locker_lock_file_open, sd_locker_lock_acquire,
  execute_fork, execute_wait, sd_locker_lock_release, sd_locker_lock_file_close, return_code,
  sd_locker_main,
}
use coreland_lua_ada_load.Locker.Processes.{
  opening, acquiring, forking, waiting, releasing, closing, returning,
}
use coreland_lua_ada_load.Locker.Exclusion.{Fits}
use coreland_lua_ada_load.Locker.Ends.{Ends, >>-Ends}

module _ {W : Type 0} (calls : Calls W) (holder : W → Option ℕ) (laws : IsLock calls holder)
    (me : ℕ) where
  -- An exit without the lock.
  abbrev pub Free : W → Type 0
  Free w = holder w ≢ some me

  freed : (w : W) → holder (calls.exit me w) ≢ some me
  freed w e = absurd (ground (arith, laws.exit-holder me w))

  open-Ends :
      (s : LockerState) (w : W)
      → Fits opening s
      → Ends Free (Fits acquiring) (sd_locker_lock_file_open calls me s w)
  unfolding sd_locker_lock_file_open sd_locker_fatal
  open-Ends s w f = grind (arith, freed)

  acquire-Ends :
      (s : LockerState) (w : W)
      → Fits acquiring s
      → Ends Free (Fits forking) (sd_locker_lock_acquire calls me s w)
  unfolding sd_locker_lock_acquire sd_locker_fatal
  acquire-Ends s w f = grind (arith, freed)

  fork-Ends :
      (s : LockerState) (w : W)
      → Fits forking s
      → Ends Free (Fits waiting) (execute_fork calls me s w)
  unfolding execute_fork sd_locker_fatal
  fork-Ends s w f = grind (arith, freed)

  wait-Ends :
      (s : LockerState) (w : W)
      → Fits waiting s
      → Ends Free (Fits releasing) (execute_wait calls me s w)
  unfolding execute_wait sd_locker_fatal
  wait-Ends s w f = grind (arith, freed)

  release-Ends :
      (s : LockerState) (w : W)
      → Fits releasing s
      → Ends Free (Fits closing) (sd_locker_lock_release calls me s w)
  unfolding sd_locker_lock_release sd_locker_fatal
  release-Ends s w f = elim (Option-cases s.lock_fd) [
    | inl closed ↦ absurd (ground arith)
    | inr (fd, e) ↦ ground (arith, freed (calls.unlock me fd w).1)
  ]

  close-Ends :
      (s : LockerState) (w : W)
      → Fits closing s
      → Ends Free (Fits returning) (sd_locker_lock_file_close calls me s w)
  unfolding sd_locker_lock_file_close sd_locker_fatal
  close-Ends s w f = elim (Option-cases s.lock_fd) [
    | inl closed ↦ absurd (ground arith)
    | inr (fd, e) ↦ ground (arith, freed (calls.close me fd w).1)
  ]

  -- Where the calls keep the laws of one lock, and whatever they answer, a run of main ends by an
  -- exit, and not by an assertion, and the process then does not hold the lock.
  pub sd_locker_main-Ends :
      (args : List Bytes) (w : W) → Ends Free (λ s. ⊥) (sd_locker_main calls me args w)
  unfolding sd_locker_main
  sd_locker_main-Ends [] w = freed w
  sd_locker_main-Ends (id ∷ []) w = freed w
  sd_locker_main-Ends (id ∷ file ∷ []) w = freed w
  sd_locker_main-Ends (id ∷ file ∷ command ∷ arguments) w =
      let s0 = initial calls me id file in
      let o = sd_locker_lock_file_open calls me in
      let a = sd_locker_lock_acquire calls me in
      let f = execute_fork calls me in
      let t = execute_wait calls me in
      let r = sd_locker_lock_release calls me in
      let c = sd_locker_lock_file_close calls me in
      let fin = return_code calls me in
      >>-Ends Free (Fits returning) (λ s. ⊥) (o >> a >> f >> t >> r >> c) fin s0 w
        (>>-Ends Free (Fits closing) (Fits returning) (o >> a >> f >> t >> r) c s0 w
          (>>-Ends Free (Fits releasing) (Fits closing) (o >> a >> f >> t) r s0 w
            (>>-Ends Free (Fits waiting) (Fits releasing) (o >> a >> f) t s0 w
              (>>-Ends Free (Fits forking) (Fits waiting) (o >> a) f s0 w
                (>>-Ends Free (Fits acquiring) (Fits forking) o a s0 w (open-Ends s0 w refl)
                  acquire-Ends)
                fork-Ends)
              wait-Ends)
            release-Ends)
          close-Ends)
        (λ s' w' q. freed w')
