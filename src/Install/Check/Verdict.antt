-- ===== src/Install/Check/Verdict.antt =====
-- What install_file_check accepts.
use coreland_lua_ada_load.Base.{
  ℕ, Bytes, Bool, true, false, Option, none, some, ◌==◌, ◌&&◌, ◌≡◌, refl, sym, ◌∙◌, arith, bit_and,
}
use coreland_lua_ada_load.Install.Types.{Status, is_ok, FileType, file, directory, symlink, StatBuf}
use coreland_lua_ada_load.Install.Os.{Os, Reply, okay, fails}
use coreland_lua_ada_load.Install.Machine.{Machine, Out, done, early, fault}
use coreland_lua_ada_load.Install.FileTypes.{find_check, file_type_lookups}
use coreland_lua_ada_load.Install.Check.{install_file_check}

-- Whether a call ends with status OK, and behind it the system's state and install_failed;
-- none if it does not end.
abbrev pub outcome : {W : Type 0} → Out W Status → Option (Bool × W × ℕ)
outcome (done st s) = some (is_ok st, s.world, s.failed)
outcome (early st s) = none
outcome (fault e) = none

pub outcome-eq-some :
    {W : Type 0} (o : Out W Status) {b : Bool} {w : W} {n : ℕ}
    → outcome o ≡ some (b, w, n)
    → (st : Status) × (s : Machine W) × (o ≡ done st s)
      × (is_ok st ≡ b)
      × (s.world ≡ w)
      × (s.failed ≡ n)
outcome-eq-some (done st s) h = (st, s, refl, ground arith, cc, cc)
outcome-eq-some (early st s) h = absurd (ground arith)
outcome-eq-some (fault e) h = absurd (ground arith)

module _ {W : Type 0} (os : Os W) where
  -- The file has one of the six types.
  abbrev pub has_type : Reply StatBuf → Bool
  has_type (fails e) = false
  has_type (okay sb) = elim (find_check sb.st_mode (file_type_lookups os)) [
    | none ↦ false
    | some t ↦ true
  ]

  abbrev pub source_size : Reply StatBuf → ℕ
  source_size (fails e) = 0
  source_size (okay sb) = sb.st_size

  -- The type as found, through links unless a link is wanted.
  abbrev pub typed : FileType → Bytes → W → Reply StatBuf
  typed symlink path w = os.lstat path w
  typed _ path w = os.stat path w

  abbrev pub right_size : FileType → ℕ → StatBuf → Bool
  right_size file size sb = size == sb.st_size
  right_size _ size sb = true

  abbrev pub right_file : FileType → ℕ → ℕ → ℕ → ℕ → Reply StatBuf → Bool
  right_file type size mode uid gid (fails e) = false
  right_file type size mode uid gid (okay sb) =
      right_size type size sb
      && (bit_and sb.st_mode 0o755 == mode && (uid == sb.st_uid && gid == sb.st_gid))

  -- The installed file is there with one of the six types; the bits 0755 of its mode are the wanted
  -- mode; its owners are the wanted ones; and if a file is wanted, its size is that of its source,
  -- or 0 without one.
  abbrev pub verdict : Bytes → ℕ → FileType → ℕ → ℕ → Bytes → W → Bool
  verdict src mode type uid gid dst w =
      has_type (typed type dst w)
      && right_file type (source_size (os.stat src w)) mode uid gid (os.stat dst w)

  -- install_file_check ends, and changes neither the state of the system nor install_failed. It
  -- accepts a destination exactly if stat finds it, where it is also found with one of the six
  -- types (through links, unless a link is wanted), the bits 0755 of its mode are equal to the
  -- wanted mode, its user and its group are the wanted ones, and, where a file is wanted, its size
  -- is that of the source, or 0 if the source cannot be found.
  pub install_file_check-verdict :
      (src : Bytes) (mode : ℕ) (type : FileType) (uid gid : ℕ) (dst : Bytes) (s : Machine W)
      → outcome (install_file_check os src mode type uid gid dst s)
        ≡ some (verdict src mode type uid gid dst s.world, s.world, s.failed)
  unfolding install_file_check
  install_file_check-verdict src mode file uid gid dst s = ground arith
  install_file_check-verdict src mode _ uid gid dst s = ground arith

  abbrev IsPlain : FileType → Type 0
  IsPlain file = ⊥
  IsPlain symlink = ⊥
  IsPlain _ = Unit

  -- The type that an item wants plays no part in its check, unless it is a file or a symbolic
  -- link.
  pub install_file_check_type :
      (src : Bytes) (mode : ℕ) (t u : FileType) (uid gid : ℕ) (dst : Bytes) (s : Machine W)
      → IsPlain t
      → IsPlain u
      → outcome (install_file_check os src mode t uid gid dst s)
        ≡ outcome (install_file_check os src mode u uid gid dst s)
  install_file_check_type src mode t u uid gid dst s p q =
      install_file_check-verdict src mode t uid gid dst s
      ∙ same t u p q
      ∙ sym (install_file_check-verdict src mode u uid gid dst s)
    where
      plain :
          (t : FileType)
          → IsPlain t
          → verdict src mode t uid gid dst s.world ≡ verdict src mode directory uid gid dst s.world
      plain file p = absurd p
      plain symlink p = absurd p
      plain _ p = refl

      same :
          (t u : FileType)
          → IsPlain t
          → IsPlain u
          → ◌≡◌ {A = Option (Bool × W × ℕ)}
              (some (verdict src mode t uid gid dst s.world, s.world, s.failed))
              (some (verdict src mode u uid gid dst s.world, s.world, s.failed))
      same t u p q = cc (plain t p, plain u q)
