-- ===== src/Install/Os.antt =====
-- The system calls and stdio functions that the installer uses: the operating system is a
-- parameter, a state `W` with these operations. A failing call gives its errno. A stream is a
-- number, and the functions on streams are named by the mode in which the stream was opened.
use coreland_lua_ada_load.Base.{ℕ, Bytes, Bool, ◌≡◌, refl, ◌⊎◌, inl, inr}
use coreland_lua_ada_load.Install.Types.{StatBuf}

pub data Reply (A : Type 0) : Type 0 where
  okay : A → Reply A
  fails : ℕ → Reply A

pub Reply-cases : {A : Type 0} (r : Reply A) → ((a : A) × (r ≡ okay a)) ⊎ ((e : ℕ) × (r ≡ fails e))
Reply-cases (okay a) = inl (a, refl)
Reply-cases (fails e) = inr (e, refl)

pub record Os (W : Type 0) : Type 0 where
  pub getpwnam : Bytes → W → Reply ℕ
  pub getgrnam : Bytes → W → Reply ℕ
  pub getuid : W → ℕ
  pub getgid : W → ℕ
  pub stat : Bytes → W → Reply StatBuf
  pub lstat : Bytes → W → Reply StatBuf
  pub getcwd : ℕ → W → Reply Bytes
  pub chdir : Bytes → W → Reply (Unit {0}) × W
  pub chown : Bytes → ℕ → ℕ → W → Reply (Unit {0}) × W
  pub chmod : Bytes → ℕ → W → Reply (Unit {0}) × W
  pub symlink : Bytes → Bytes → W → Reply (Unit {0}) × W
  pub mkdir : Bytes → ℕ → W → Reply (Unit {0}) × W
  pub rmdir : Bytes → W → Reply (Unit {0}) × W
  pub unlink : Bytes → W → Reply (Unit {0}) × W
  pub rename : Bytes → Bytes → W → Reply (Unit {0}) × W
  pub umask : ℕ → W → ℕ × W
  pub fopen_rb : Bytes → W → Reply ℕ × W
  pub fread : ℕ → ℕ → W → Bytes × W
  pub feof_rb : ℕ → W → Bool
  pub ferror_rb : ℕ → W → Bool
  pub fclose_rb : ℕ → W → Reply (Unit {0}) × W
  pub fopen_wb : Bytes → W → Reply ℕ × W
  pub fwrite : ℕ → Bytes → W → ℕ × W
  pub feof_wb : ℕ → W → Bool
  pub ferror_wb : ℕ → W → Bool
  pub fflush : ℕ → W → Reply (Unit {0}) × W
  pub fclose_wb : ℕ → W → Reply (Unit {0}) × W
  pub fflush_all : W → W
  -- The tests of <sys/stat.h> on a mode word.
  pub s_isreg : ℕ → Bool
  pub s_ischr : ℕ → Bool
  pub s_isdir : ℕ → Bool
  pub s_islnk : ℕ → Bool
  pub s_issock : ℕ → Bool
  pub s_isfifo : ℕ → Bool
  -- Values of <errno.h>.
  pub eexist : ℕ
  pub eisdir : ℕ
  pub enametoolong : ℕ
