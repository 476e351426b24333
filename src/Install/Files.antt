-- ===== src/Install/Files.antt =====
-- install-core.c, credential functions: the dispatch to the POSIX backend, as
-- compiled with INSTALL_OS_TYPE == INSTALL_OS_POSIX and INSTALL_HAVE_SYMLINKS.
pub mod Ids
use coreland_lua_ada_load.Base.{ℕ, Bytes, Bool, true, Option, ◌==◌, ℤ}
use coreland_lua_ada_load.Install.Os.{Os}
use coreland_lua_ada_load.Install.Machine.{M, pure}
use coreland_lua_ada_load.Install.Posix.{
  iposix_uid_lookup, iposix_gid_lookup, iposix_gid_current, iposix_uid_current,
  iposix_file_set_ownership, iposix_file_get_ownership, iposix_file_set_mode, iposix_file_get_mode,
  iposix_file_link, iposix_compare_uid, iposix_compare_gid, iposix_fmt_gid, iposix_fmt_uid,
  iposix_scan_gid, iposix_scan_uid, iposix_umask, iposix_mkdir,
}

abbrev pub have_symlinks : Bool
have_symlinks = true

unfoldable pub install_fmt_gid : ℕ → Bytes
unfolding iposix_fmt_gid
install_fmt_gid = iposix_fmt_gid

unfoldable pub install_fmt_uid : ℕ → Bytes
unfolding iposix_fmt_uid
install_fmt_uid = iposix_fmt_uid

unfoldable pub install_scan_gid : Bytes → ℕ → ℕ × ℕ
unfolding iposix_scan_gid
install_scan_gid = iposix_scan_gid

unfoldable pub install_scan_uid : Bytes → ℕ → ℕ × ℕ
unfolding iposix_scan_uid
install_scan_uid = iposix_scan_uid

unfoldable pub install_compare_uid : ℕ → ℕ → Bool
unfolding iposix_compare_uid
install_compare_uid = iposix_compare_uid

unfoldable pub install_compare_gid : ℕ → ℕ → Bool
unfolding iposix_compare_gid
install_compare_gid = iposix_compare_gid

unfoldable pub install_compare_permissions : ℕ → ℕ → Bool
install_compare_permissions a b = a == b

module _ {W : Type 0} (os : Os W) where
  unfoldable pub install_file_set_ownership : Bytes → ℕ → ℕ → M W Bool
  unfolding iposix_file_set_ownership
  install_file_set_ownership = iposix_file_set_ownership os

  unfoldable pub install_file_get_ownership : Bytes → M W (Option (ℕ × ℕ))
  unfolding iposix_file_get_ownership
  install_file_get_ownership = iposix_file_get_ownership os

  unfoldable pub install_file_get_mode : Bytes → M W (Option ℕ)
  unfolding iposix_file_get_mode
  install_file_get_mode = iposix_file_get_mode os

  unfoldable pub install_file_set_mode : Bytes → ℕ → M W Bool
  unfolding iposix_file_set_mode
  install_file_set_mode = iposix_file_set_mode os

  unfoldable pub install_file_link : Bytes → Bytes → M W Bool
  unfolding iposix_file_link
  install_file_link = iposix_file_link os

  unfoldable pub install_gid_current : M W ℕ
  unfolding iposix_gid_current
  install_gid_current = iposix_gid_current os

  unfoldable pub install_uid_current : M W ℕ
  unfolding iposix_uid_current
  install_uid_current = iposix_uid_current os

  unfoldable pub install_gid_lookup : Option Bytes → M W (Option ℕ)
  unfolding iposix_gid_lookup
  install_gid_lookup = iposix_gid_lookup os

  unfoldable pub install_uid_lookup : Option Bytes → M W (Option ℕ)
  unfolding iposix_uid_lookup
  install_uid_lookup = iposix_uid_lookup os

  -- Only the Win32 backend allocates ids.
  unfoldable pub install_gid_free : Option ℕ → M W (Unit {0})
  install_gid_free gid = pure tt

  unfoldable pub install_uid_free : Option ℕ → M W (Unit {0})
  install_uid_free uid = pure tt

  unfoldable pub install_umask : ℕ → M W ℕ
  unfolding iposix_umask
  install_umask = iposix_umask os

  unfoldable pub install_mkdir : Bytes → ℕ → M W ℤ
  unfolding iposix_mkdir
  install_mkdir = iposix_mkdir os
