-- ===== src/Install/Verify.antt =====
-- install-core.c, instchk operator callbacks: an installed item is checked, and a failed check
-- counted in install_failed.
pub mod Count
use coreland_lua_ada_load.Base.{
  ℕ, ◌+◌, ◌%◌, ◌^◌, Bytes, Bool, true, false, Option, none, some, if◌then◌else◌,
}
use coreland_lua_ada_load.Install.Types.{
  Status, is_ok, ok, error, fatal, InstallItem, FileType, file, symlink, directory,
}
use coreland_lua_ada_load.Install.Os.{Os}
use coreland_lua_ada_load.Install.Machine.{
  M, Machine, Out, done, pure, ◌>>=◌, ◌>>◌, deref, function,
}
use coreland_lua_ada_load.Install.Check.{install_file_check, free_ids}
use coreland_lua_ada_load.Install.Operators.{item_ids}

-- ++install_failed, an unsigned long
abbrev pub count_failed : {W : Type 0} → M W (Unit {0})
count_failed s = done tt (record s { failed = (s.failed + 1) % 2 ^ 64 })

module _ {W : Type 0} (os : Os W) where
  -- The common body: the check itself is what the three callbacks differ in.
  unfoldable pub instchk_file : InstallItem → FileType → Option Bytes → Option Bytes → M W Status
  unfolding item_ids free_ids
  instchk_file ins type src dst = function do
    (uid, gid) ← item_ids os ins
    src' ← deref src
    dst' ← deref dst
    status ← install_file_check os src' ins.perm type uid gid dst'
    if is_ok status then pure tt else count_failed
    free_ids os (some uid) (some gid)
    pure status

  unfoldable pub instchk_copy : InstallItem → ℕ → M W Status
  unfolding instchk_file
  instchk_copy ins flags = instchk_file ins file ins.src ins.dst

  unfoldable pub instchk_link : InstallItem → ℕ → M W Status
  unfolding instchk_file
  instchk_link ins flags = instchk_file ins symlink ins.src ins.dst

  unfoldable pub instchk_mkdir : InstallItem → ℕ → M W Status
  unfolding instchk_file
  instchk_mkdir ins flags = instchk_file ins directory ins.dir ins.dir

  unfoldable pub instchk_liblink : InstallItem → ℕ → M W Status
  unfolding instchk_link
  instchk_liblink ins flags = instchk_link ins flags
