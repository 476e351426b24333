-- ===== src/Tests/Lock.antt =====
-- A system in which all there is is the process that holds the lock. The locker's theorems at it.
use coreland_lua_ada_load.Base.{
  ℕ, Option, none, some, [], ◌∷◌, ◌==◌, if◌then◌else◌, codes, ◌≡◌, ◌⊎◌, inl, refl, arith,
}
use coreland_lua_ada_load.Install.Os.{Reply, okay, fails}
use coreland_lua_ada_load.Locker.Calls.{Calls, IsLock, let_go}
use coreland_lua_ada_load.Locker.Process.{
  initial, sd_locker_lock_file_open, sd_locker_lock_acquire, sd_locker_main, sd_locker_fatal,
}
use coreland_lua_ada_load.Locker.Processes.{
  opening, System, LockerProcess, moved, Reach, here, later, goes_on,
}
use coreland_lua_ada_load.Locker.Exclusion.{Begun, exclusion}
use coreland_lua_ada_load.Locker.Ends.{Ends}
use coreland_lua_ada_load.Locker.Run.{Free, sd_locker_main-Ends}

abbrev World : Type 0
World = Option ℕ

-- A request that would wait is interrupted.
abbrev request : ℕ → World → Reply (Unit {0}) × World
request i none = (okay tt, some i)
request i (some j) = if i == j then (okay tt, some i) else (fails 4, some j)

abbrev one_lock : Calls World
one_lock = record {
  open_file = λ i f w. (okay 3, w);
  lock = λ i fd w. request i w;
  unlock = λ i fd w. (okay tt, let_go i w);
  close = λ i fd w. (okay tt, let_go i w);
  fork = λ i w. (okay 100, w);
  waitpid = λ i pid w. (okay 7, w);
  execvp = λ i argv w. none;
  exit = λ i w. let_go i w;
  strerror = λ e. codes "interrupted";
  atoi = λ text. 1;
}

abbrev held : World → Option ℕ
held w = w

request-free : (i : ℕ) (w : World) → (request i w).0 ≡ okay tt → (w ≡ none) ⊎ (w ≡ some i)
request-free i none e = inl refl
request-free i (some j) e = ground arith

request-okay : (i : ℕ) (w : World) → (request i w).0 ≡ okay tt → (request i w).1 ≡ some i
request-okay i none e = refl
request-okay i (some j) e = ground arith

request-fails : (i e : ℕ) (w : World) → (request i w).0 ≡ fails e → (request i w).1 ≡ w
request-fails i e none q = absurd (ground arith)
request-fails i e (some j) q = ground arith

one_lock-IsLock : IsLock one_lock held
one_lock-IsLock = record {
  lock-free = λ i fd w. request-free i w;
  open_file-holder = λ i f w. refl;
  lock-okay = λ i fd w. request-okay i w;
  lock-fails = λ i fd e w. request-fails i e w;
  unlock-okay = λ i fd w e. refl;
  unlock-fails = λ i fd e w q. absurd (ground arith);
  close-holder = λ i fd w. refl;
  fork-holder = λ i w. refl;
  waitpid-holder = λ i pid w. refl;
  exit-holder = λ i w. refl;
}

abbrev at_start : LockerProcess
at_start = record { stage = opening; state = initial one_lock 1 (codes "1") (codes "lock") }

abbrev start : System World
start = record { world = none; process = λ i. at_start }

abbrev start-Begun : Begun one_lock held one_lock-IsLock start
start-Begun = λ i. (refl, refl)

-- The first process takes the lock, then the second opens the file and is interrupted at the lock.
abbrev busy : System World
unfolding sd_locker_lock_file_open sd_locker_lock_acquire
busy = let turns = moved one_lock in turns (turns (turns (turns start 1) 1) 2) 2

busy-Reach : Reach one_lock start busy
unfolding sd_locker_lock_file_open sd_locker_lock_acquire sd_locker_fatal
busy-Reach =
    later
      (later (later (later here (goes_on 1 refl refl)) (goes_on 1 refl refl)) (goes_on 2 refl refl))
      (goes_on 2 refl refl)

abbrev first_process : ℕ
first_process = 1

exclusion_example : first_process ≡ first_process
unfolding sd_locker_lock_file_open sd_locker_lock_acquire sd_locker_fatal
exclusion_example =
    exclusion one_lock held one_lock-IsLock {s = start} {t = busy} start-Begun busy-Reach
      first_process first_process refl refl

-- The second process's run, with the lock in the first one's hands.
sd_locker_main-Ends_example :
    Ends
      (Free one_lock held one_lock-IsLock 2)
      (λ s. ⊥)
      (sd_locker_main one_lock 2 (codes "1" ∷ codes "lock" ∷ codes "make" ∷ []) (some 1))
sd_locker_main-Ends_example =
    sd_locker_main-Ends one_lock held one_lock-IsLock 2
      (codes "1" ∷ codes "lock" ∷ codes "make" ∷ []) (some 1)
