-- ===== src/Locker/Calls.antt =====
-- The system calls that sd-locker_posix.c makes, of the process with a given number on a state
-- `W` of the system. A failing call gives its errno.
use coreland_lua_ada_load.Base.{ℕ, Bytes, Option, none, some, List, ◌≡◌, ◌==◌, if◌then◌else◌, ◌⊎◌}
use coreland_lua_ada_load.Install.Os.{Reply, okay, fails}

pub record Calls (W : Type 0) : Type 0 where
  -- open (file, O_WRONLY | O_TRUNC | O_CREAT, 0600)
  pub open_file : ℕ → Bytes → W → Reply ℕ × W
  -- fcntl (fd, F_SETLKW, ...) with F_WRLCK and with F_UNLCK on the whole file
  pub lock : ℕ → ℕ → W → Reply (Unit {0}) × W
  pub unlock : ℕ → ℕ → W → Reply (Unit {0}) × W
  pub close : ℕ → ℕ → W → Reply (Unit {0}) × W
  pub fork : ℕ → W → Reply ℕ × W
  -- WEXITSTATUS of what waitpid stores
  pub waitpid : ℕ → ℕ → W → Reply ℕ × W
  -- execvp: none if the process has become the command, else the errno.
  pub execvp : ℕ → List Bytes → W → Option ℕ
  -- The end of the process.
  pub exit : ℕ → W → W
  pub strerror : ℕ → Bytes
  pub atoi : Bytes → ℕ

-- The lock of a process that lets it go.
abbrev pub let_go : ℕ → Option ℕ → Option ℕ
let_go i none = none
let_go i (some j) = if i == j then none else some j

-- What POSIX says of one lock: which process holds it, and how the calls change it. A request
-- succeeds only where no other process holds the lock: a call that waits has not returned, and one
-- that is interrupted fails. Closing the file and the end of a process let its lock go.
pub record IsLock {W : Type 0} (calls : Calls W) (holder : W → Option ℕ) : Type 0 where
  pub lock-free :
      (i fd : ℕ) (w : W) → (calls.lock i fd w).0 ≡ okay tt → (holder w ≡ none) ⊎ (holder w ≡ some i)
  pub open_file-holder : (i : ℕ) (f : Bytes) (w : W) → holder (calls.open_file i f w).1 ≡ holder w
  pub lock-okay :
      (i fd : ℕ) (w : W) → (calls.lock i fd w).0 ≡ okay tt → holder (calls.lock i fd w).1 ≡ some i
  pub lock-fails :
      (i fd e : ℕ) (w : W)
      → (calls.lock i fd w).0 ≡ fails e
      → holder (calls.lock i fd w).1 ≡ holder w
  pub unlock-okay :
      (i fd : ℕ) (w : W)
      → (calls.unlock i fd w).0 ≡ okay tt
      → holder (calls.unlock i fd w).1 ≡ let_go i (holder w)
  pub unlock-fails :
      (i fd e : ℕ) (w : W)
      → (calls.unlock i fd w).0 ≡ fails e
      → holder (calls.unlock i fd w).1 ≡ holder w
  pub close-holder : (i fd : ℕ) (w : W) → holder (calls.close i fd w).1 ≡ let_go i (holder w)
  pub fork-holder : (i : ℕ) (w : W) → holder (calls.fork i w).1 ≡ holder w
  pub waitpid-holder : (i pid : ℕ) (w : W) → holder (calls.waitpid i pid w).1 ≡ holder w
  pub exit-holder : (i : ℕ) (w : W) → holder (calls.exit i w) ≡ let_go i (holder w)
