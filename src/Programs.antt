-- ===== src/Programs.antt =====
-- installer.c, deinstaller.c, instchk.c and insthier.c: the three programs over the installer
-- library, and the list of what is installed.
pub mod DryRun
pub mod Ending
use coreland_lua_ada_load.Base.{
  ℕ, ◌<◌, Bytes, Bool, true, false, Option, none, some, List, [], ◌∷◌, ◌++◌, ◌==◌, ltb,
  if◌then◌else◌, String, codes, text_or, fmt_ulong, length, pos,
}
use mathlib.Core.List.{reverse}
use coreland_lua_ada_load.Ctxt.{Ctxt}
use coreland_lua_ada_load.Errors.{install_error}
use coreland_lua_ada_load.Install.Types.{
  Status, StatusCode, ok, error, fatal, is_ok, InstallItem, install_dryrun, inst_copy_op,
  inst_copy_exec_op, inst_mkdir_op,
}
use coreland_lua_ada_load.Install.Os.{Os}
use coreland_lua_ada_load.Install.Machine.{
  M, Machine, done, pure, ◌>>=◌, ◌>>◌, logged, print, get_errno, deref, crash, overrun,
}
use coreland_lua_ada_load.Install.Api.{
  install, install_check, deinstall, install_init, install_callback_info_set,
  install_callback_warn_set,
}

abbrev directory_item : Bytes → ℕ → InstallItem
directory_item dir perm = record {
  op = inst_mkdir_op;
  src = none;
  dst = none;
  dir = some dir;
  owner = none;
  group = none;
  perm = perm;
}

abbrev copy_item : ℕ → String → Option Bytes → Bytes → ℕ → InstallItem
copy_item op src dst dir perm = record {
  op = op;
  src = some (codes src);
  dst = dst;
  dir = some dir;
  owner = none;
  group = none;
  perm = perm;
}

unfoldable pub insthier : Ctxt → List InstallItem
insthier c =
    directory_item c.bindir 0o755
    ∷ directory_item c.incdir 0o755
    ∷ directory_item c.dlibdir 0o755
    ∷ directory_item c.slibdir 0o755
    ∷ directory_item c.repos 0o755
    ∷ copy_item inst_copy_op "lua-ada-load-conf.c" none c.repos 0o644
    ∷ copy_item inst_copy_op "lua-load.ads" none c.repos 0o644
    ∷ copy_item inst_copy_op "lua-load.ads" none c.incdir 0o644
    ∷ copy_item inst_copy_op "lua-load.adb" none c.repos 0o644
    ∷ copy_item inst_copy_op "lua-load.adb" none c.incdir 0o644
    ∷ copy_item inst_copy_op "lua-load.ali" none c.repos 0o644
    ∷ copy_item inst_copy_op "lua-load.ali" none c.incdir 0o444
    ∷ copy_item inst_copy_op "lua-load.sld" none c.repos 0o644
    ∷ copy_item inst_copy_op "lua-load.a" (some (codes "liblua-load.a")) c.slibdir 0o644
    ∷ copy_item inst_copy_op "lua-ada-load-conf.ld" none c.repos 0o644
    ∷ copy_item inst_copy_exec_op "lua-ada-load-conf" none c.bindir 0o755
    ∷ []

-- A program ends with an exit status, after the rest of its items or in the middle.
pub data Step : Type 0 where
  next : Step
  exits : ℕ → Step

abbrev pub start_work : {W : Type 0} → M W ℕ → M W ℕ
start_work work = do install_callback_warn_set true; install_callback_info_set true; work

abbrev pub exit_status : {W : Type 0} → M W Step → M W ℕ
exit_status m = m >>= elim [ next ↦ pure 0 | exits code ↦ pure code ]

-- (argc > 1) ? INSTALL_DRYRUN : 0
abbrev pub argument_flag : ℕ → ℕ
argument_flag argc = if ltb 1 argc then install_dryrun else 0

-- `for (i = insthier_len - 1;; --i)`: with no item the first index is out of bounds.
abbrev pub backwards : {W : Type 0} → (List InstallItem → M W Step) → List InstallItem → M W Step
backwards loop [] = crash overrun
backwards loop (ins ∷ items) = loop (reverse (ins ∷ items))

module _ {W : Type 0} (os : Os W) (defined : String → Option ℕ) where
  -- "%s: error: %s - %s\n" and the like: the message must not be a null pointer.
  unfoldable pub report : String → String → Status → M W (Unit {0})
  report progname kind st = do
    message ← deref st.message
    e ← get_errno
    logged (
        print (
          codes progname
          ++ (codes kind ++ (message ++ (codes " - " ++ install_error defined (pos e))))))

  -- The switch on an item's status.
  unfoldable pub after_item : String → Status → M W Step
  unfolding report
  after_item progname st = elim st.status [
    | ok ↦ pure next
    | error ↦ do report progname ": error: " st; pure next
    | fatal ↦ do report progname ": fatal: " st; pure (exits 112)
  ]

  -- The loop over the items, in the order given.
  unfoldable pub each_item : String → (InstallItem → M W Status) → List InstallItem → M W Step
  unfolding after_item
  each_item progname handle [] = pure next
  each_item progname handle (ins ∷ items) =
      let rest = each_item progname handle items in
      handle ins >>= λ st.
      after_item progname st >>= elim [ next ↦ rest | exits code ↦ pure (exits code) ]

  abbrev pub start_failed : String → Status → M W ℕ
  start_failed progname status = do report progname ": fatal: init: " status; pure 112

  -- install_init and the two callbacks, and then the work of a program.
  unfoldable pub started : String → M W ℕ → M W ℕ
  unfolding report
  started progname work = do
    status ← install_init os (codes "conf-sosuffix")
    if is_ok status then start_work work else start_failed progname status

  -- installer.c
  unfoldable pub installer_main : ℕ → List InstallItem → ℕ → M W ℕ
  unfolding started each_item
  installer_main fuel items argc =
      started "installer" (
        exit_status (each_item "installer" (λ ins. install os fuel ins (argument_flag argc)) items))

  -- deinstaller.c: the items from the last to the first.
  unfoldable pub deinstaller_main : List InstallItem → ℕ → M W ℕ
  unfolding started each_item
  deinstaller_main items argc = started "deinstaller" (
      exit_status
        (backwards (each_item "deinstaller" (λ ins. deinstall os ins (argument_flag argc))) items))

  -- instchk.c, behind the loop
  unfoldable pub summary : ℕ → M W ℕ
  summary count s =
      (if s.failed == 0 then pure 0 else (do
        logged (
            print (
              codes "instchk: "
              ++ (fmt_ulong s.failed
                  ++ (codes " of " ++ (fmt_ulong count ++ codes " files failed")))))
        pure 1))
        s

  unfoldable pub instchk_main : List InstallItem → M W ℕ
  unfolding started each_item summary
  instchk_main items = started "instchk" (
      each_item "instchk" (install_check os) items
      >>= elim [ next ↦ summary (length items) | exits code ↦ pure code ])
