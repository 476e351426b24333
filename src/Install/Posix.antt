-- ===== src/Install/Posix.antt =====
-- install-posix.c: users and groups, ownership, modes, links and directories by system calls.
-- A C result 0 or 1 is a Bool, except where a caller compares it with -1. An id is the 32-bit
-- word of the C int.
use coreland_lua_ada_load.Base.{
  ℕ, Bytes, [], Bool, Option, none, some, ◌==◌, set, fmt_int, sscanf_int, snprintf, text_or,
  bit_and, ℤ, of_bool,
}
use coreland_lua_ada_load.Install.Types.{Status, success}
use coreland_lua_ada_load.Install.Os.{Os}
use coreland_lua_ada_load.Install.Machine.{M, done, pure, ◌>>=◌, query, call, ask, act, succeeded}

abbrev pub install_fmt_id : ℕ
install_fmt_id = 32

unfoldable pub iposix_compare_uid : ℕ → ℕ → Bool
iposix_compare_uid a b = a == b

unfoldable pub iposix_compare_gid : ℕ → ℕ → Bool
iposix_compare_gid a b = a == b

-- The text that the buffer holds once the caller has put the NUL behind it.
unfoldable pub iposix_fmt_gid : ℕ → Bytes
iposix_fmt_gid gid = text_or (snprintf install_fmt_id (fmt_int gid)) []

unfoldable pub iposix_fmt_uid : ℕ → Bytes
iposix_fmt_uid uid = text_or (snprintf install_fmt_id (fmt_int uid)) []

-- The number of items read, and the id behind the call.
unfoldable pub iposix_scan_gid : Bytes → ℕ → ℕ × ℕ
unfolding sscanf_int
iposix_scan_gid buffer gid = sscanf_int buffer gid

unfoldable pub iposix_scan_uid : Bytes → ℕ → ℕ × ℕ
unfolding sscanf_int
iposix_scan_uid buffer uid = sscanf_int buffer uid

module _ {W : Type 0} (os : Os W) where
  unfoldable pub iposix_uid_lookup : Option Bytes → M W (Option ℕ)
  iposix_uid_lookup none = ask (λ w. some (os.getuid w))
  iposix_uid_lookup (some user) = query (os.getpwnam user)

  unfoldable pub iposix_gid_lookup : Option Bytes → M W (Option ℕ)
  iposix_gid_lookup none = ask (λ w. some (os.getgid w))
  iposix_gid_lookup (some group) = query (os.getgrnam group)

  unfoldable pub iposix_gid_current : M W ℕ
  iposix_gid_current = ask os.getgid

  unfoldable pub iposix_uid_current : M W ℕ
  iposix_uid_current = ask os.getuid

  unfoldable pub iposix_file_set_ownership : Bytes → ℕ → ℕ → M W Bool
  iposix_file_set_ownership file uid gid = call (os.chown file uid gid) >>= succeeded

  -- On success the owner and the group of the file.
  unfoldable pub iposix_file_get_ownership : Bytes → M W (Option (ℕ × ℕ))
  iposix_file_get_ownership file =
      query (os.stat file)
      >>= elim [ none ↦ pure none | some sb ↦ pure (some (sb.st_uid, sb.st_gid)) ]

  unfoldable pub iposix_file_set_mode : Bytes → ℕ → M W Bool
  iposix_file_set_mode file mode = call (os.chmod file mode) >>= succeeded

  -- `sb.st_mode & 0755`
  unfoldable pub iposix_file_get_mode : Bytes → M W (Option ℕ)
  iposix_file_get_mode file =
      query (os.stat file)
      >>= elim [ none ↦ pure none | some sb ↦ pure (some (bit_and sb.st_mode 0o755)) ]

  unfoldable pub iposix_file_link : Bytes → Bytes → M W Bool
  iposix_file_link src dst = call (os.symlink src dst) >>= succeeded

  -- `inst_exec_suffix [0] = 0`
  unfoldable pub iposix_install_init : M W Status
  iposix_install_init s = done success (record s { exec_suffix = set s.exec_suffix 0 0 })

  unfoldable pub iposix_umask : ℕ → M W ℕ
  iposix_umask m = act (os.umask m)

  -- `mkdir (dir, mode) == 0`: 1 if the directory was made, and 0 if not.
  unfoldable pub iposix_mkdir : Bytes → ℕ → M W ℤ
  iposix_mkdir dir mode = do
    made ← call (os.mkdir dir mode)
    done? ← succeeded made
    pure (of_bool done?)
