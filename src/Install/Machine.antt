-- ===== src/Install/Machine.antt =====
-- The state that the functions of install-core.c share, and a monad over it: the global
-- variables (install-core.c), errno, the operating system's state, and the record of what was
-- handed to the callbacks and printed. A run may leave its function early with a status, as a
-- return or a goto does, or end in a fault: undefined behaviour of C, or the fuel of a loop
-- used up.
use coreland_lua_ada_load.Base.{
  ℕ, Bytes, Bool, true, false, Option, none, some, List, [], ◌∷◌, ◌++◌, if◌then◌else◌, snprintf,
  text_or,
}
use coreland_lua_ada_load.Install.Types.{Status, is_ok, install_max_msglen}
use coreland_lua_ada_load.Install.Os.{Reply, okay, fails}

pub data Event : Type 0 where
  -- a call of install_callback_info or install_callback_warn with its message and data
  info : Bytes → ℕ → Event
  warn : Bytes → ℕ → Event
  -- a line that a program prints
  print : Bytes → Event

pub record Machine (W : Type 0) : Type 0 where
  pub world : W
  pub errno : ℕ
  pub exec_suffix : Bytes
  pub dlib_suffix : Bytes
  pub failed : ℕ
  pub info_set : Bool
  pub warn_set : Bool
  pub callback_data : ℕ
  pub log : List Event

pub data Fault : Type 0 where
  null_pointer overrun bad_close out_of_fuel : Fault

pub data Out (W A : Type 0) : Type 0 where
  done : A → Machine W → Out W A
  early : Status → Machine W → Out W A
  fault : Fault → Out W A

abbrev pub M : Type 0 → Type 0 → Type 0
M W A = Machine W → Out W A

abbrev pub pure : {W A : Type 0} → A → M W A
pure a s = done a s

infixl 5 ◌>>=◌ ◌>>◌
abbrev pub ◌>>=◌ : {W A B : Type 0} → M W A → (A → M W B) → M W B
◌>>=◌ m f s = elim (m s) [ done a s' ↦ f a s' | early st s' ↦ early st s' | fault e ↦ fault e ]

abbrev pub ◌>>◌ : {W B : Type 0} → M W (Unit {0}) → M W B → M W B
m >> k = m >>= λ _. k

abbrev pub crash : {W A : Type 0} → Fault → M W A
crash e s = fault e

-- The pointer is read.
abbrev pub deref : {W : Type 0} → Option Bytes → M W Bytes
deref none = crash null_pointer
deref (some t) = pure t

abbrev pub answer : {W A : Type 0} → Reply A → Machine W → Out W (Option A)
answer (okay a) s = done (some a) s
answer (fails e) s = done none (record s { errno = e })

-- A call that only reads the system's state.
abbrev pub query : {W A : Type 0} → (W → Reply A) → M W (Option A)
query f s = answer (f s.world) s

-- A call that may change it.
abbrev pub call : {W A : Type 0} → (W → Reply A × W) → M W (Option A)
call f s = answer (f s.world).0 (record s { world = (f s.world).1 })

abbrev pub ask : {W A : Type 0} → (W → A) → M W A
ask f s = done (f s.world) s

abbrev pub act : {W A : Type 0} → (W → A × W) → M W A
act f s = done (f s.world).0 (record s { world = (f s.world).1 })

abbrev pub flush_all : {W : Type 0} → (W → W) → M W (Unit {0})
flush_all f s = done tt (record s { world = f s.world })

abbrev pub set_errno : {W : Type 0} → ℕ → M W (Unit {0})
set_errno e s = done tt (record s { errno = e })

abbrev pub get_errno : {W : Type 0} → M W ℕ
get_errno s = done s.errno s

abbrev pub get_exec_suffix : {W : Type 0} → M W Bytes
get_exec_suffix s = done s.exec_suffix s

abbrev pub get_dlib_suffix : {W : Type 0} → M W Bytes
get_dlib_suffix s = done s.dlib_suffix s

abbrev pub succeeded : {W A : Type 0} → Option A → M W Bool
succeeded none = pure false
succeeded (some _) = pure true

abbrev pub logged : {W : Type 0} → Event → M W (Unit {0})
logged e s = done tt (record s { log = s.log ++ (e ∷ []) })

-- The block `if (install_callback_info) { snprintf (...); install_callback_info (...); }`.
abbrev pub inform : {W : Type 0} → M W Bytes → M W (Unit {0})
inform text s =
    let tell =
      text >>= λ t. logged (info (text_or (snprintf install_max_msglen t) []) s.callback_data) in
    (if s.info_set then tell else pure tt) s

-- `return status` from the middle of a function.
abbrev pub leave : {W A : Type 0} → Status → M W A
leave st s = early st s

abbrev pub require : {W : Type 0} → Bool → Status → M W (Unit {0})
require true st = pure tt
require false st = leave st

abbrev pub must : {W A : Type 0} → Option A → Status → M W A
must none st = leave st
must (some a) st = pure a

-- The body of a function: an early status is its result.
abbrev pub function : {W : Type 0} → M W Status → M W Status
function m s = elim (m s) [ done a s' ↦ done a s' | early st s' ↦ done st s' | fault e ↦ fault e ]

-- A part of a body with the code that an early status passes through.
abbrev pub on_early : {W A : Type 0} → (Status → M W (Unit {0})) → M W A → M W A
on_early h m s = elim (m s) [
  | done a s' ↦ done a s'
  | early st s' ↦ (h st >>= λ _. leave st) s'
  | fault e ↦ fault e
]

-- A system call whose failure is a status.
abbrev pub attempt : {W A : Type 0} → (W → Reply A × W) → Status → M W A
attempt f st = call f >>= λ r. must r st

-- The status of a callee, passed on by `if (status.status != INSTALL_STATUS_OK) return status;`.
abbrev pub pass : {W : Type 0} → Status → M W (Unit {0})
pass st = require (is_ok st) st
