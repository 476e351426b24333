-- ===== src/Programs/DryRun.antt =====
-- Dry runs of the installer and the deinstaller, and all runs of instchk, keep the files.
use coreland_lua_ada_load.Base.{
  ℕ, ◌<◌, Bytes, Bool, true, false, Option, List, [], ◌∷◌, ◌≡◌, refl, arith, String, codes,
  if◌then◌else◌,
}
use mathlib.Core.List.{reverse}
use coreland_lua_ada_load.Install.Types.{Status, InstallItem, is_ok}
use coreland_lua_ada_load.Install.Os.{Os}
use coreland_lua_ada_load.Install.Machine.{M, Machine}
use coreland_lua_ada_load.Install.Operators.{is_dryrun}
use coreland_lua_ada_load.Install.Api.{
  deinstall, install_check, install_init, install_callback_warn_set, install_callback_info_set,
}
use coreland_lua_ada_load.Install.Views.{IsFileView, Shows, Keeps, >>=-Keeps}
use coreland_lua_ada_load.Install.DryRun.{install_dry, deinstall_dry, install_check_keeps}
use coreland_lua_ada_load.Programs.{
  Step, next, exits, report, after_item, each_item, started, argument_flag, installer_main,
  deinstaller_main, instchk_main, summary, exit_status, backwards, start_failed, start_work,
}

module _ {W F : Type 0} (os : Os W) (view : W → F) (v : IsFileView os view)
    (defined : String → Option ℕ) where
  abbrev Kept : {A : Type 0} → M W A → Type 0
  Kept m = Keeps view m

  after_item_keeps : (progname : String) (st : Status) → Kept (after_item os defined progname st)
  unfolding after_item
  after_item_keeps progname st s = ground arith

  each_item_keeps :
      (progname : String) (handle : InstallItem → M W Status) (items : List InstallItem)
      → ((ins : InstallItem) → Kept (handle ins))
      → Kept (each_item os defined progname handle items)
  unfolding each_item
  each_item_keeps progname handle [] h = λ s. refl
  each_item_keeps progname handle (ins ∷ items) h = >>=-Keeps view (handle ins) _ (h ins) (λ st.
      >>=-Keeps view (after_item os defined progname st) _ (after_item_keeps progname st)
        (elim [ next ↦ each_item_keeps progname handle items h | exits code ↦ λ s. refl ]))

  install_init_keeps : (suffix_file : Bytes) → Kept (install_init os suffix_file)
  unfolding install_init
  install_init_keeps suffix_file s = grind (arith, v.view-fopen_rb, v.view-fread, v.view-fclose_rb)

  started_keeps :
      (progname : String) (work : M W ℕ) → Kept work → Kept (started os defined progname work)
  unfolding started
  started_keeps progname work h =
      >>=-Keeps view (install_init os (codes "conf-sosuffix")) _ (install_init_keeps _)
        (λ st. after (is_ok st) st)
    where
      after :
          (b : Bool) (st : Status)
          → Kept (if b then start_work work else start_failed os defined progname st)
      after true st = λ s. unfold install_callback_warn_set install_callback_info_set in h _
      after false st = λ s. unfold report in ground arith

  exit_status_keeps : (m : M W Step) → Kept m → Kept (exit_status m)
  exit_status_keeps m h = >>=-Keeps view m _ h (elim [ next ↦ λ s. refl | exits code ↦ λ s. refl ])

  argument_dry : (argc : ℕ) → 1 < argc → is_dryrun (argument_flag argc) ≡ true
  argument_dry argc h = ground arith

  -- The installer called with an argument leaves the files as they are, whatever the items and
  -- the replies of the system, unless it ends in a fault.
  pub installer_main_dry :
      (fuel : ℕ) (items : List InstallItem) (argc : ℕ)
      → 1 < argc
      → (s : Machine W) → Shows view (view s.world) (installer_main os defined fuel items argc s)
  unfolding installer_main
  installer_main_dry fuel items argc h = started_keeps "installer" _ (
      exit_status_keeps _
        (each_item_keeps "installer" _ items (install_dry os view v _ (argument_dry argc h) fuel)))

  -- So does the deinstaller called with an argument, unless it ends in a fault.
  pub deinstaller_main_dry :
      (items : List InstallItem) (argc : ℕ)
      → 1 < argc
      → (s : Machine W) → Shows view (view s.world) (deinstaller_main os defined items argc s)
  unfolding deinstaller_main
  deinstaller_main_dry items argc h =
      started_keeps "deinstaller" _ (exit_status_keeps _ (back items))
    where
      back :
          (items : List InstallItem)
          → Kept (
              backwards
                (each_item os defined "deinstaller" (λ ins. deinstall os ins (argument_flag argc)))
                items)
      back [] = λ s. tt
      back (ins ∷ items) =
          each_item_keeps "deinstaller" _ (reverse (ins ∷ items))
            (deinstall_dry os view v _ (argument_dry argc h))

  summary_keeps : (count : ℕ) → Kept (summary os defined count)
  unfolding summary
  summary_keeps count s = ground arith

  -- instchk leaves the files as they are, unless it ends in a fault.
  pub instchk_main_keeps :
      (items : List InstallItem) (s : Machine W)
      → Shows view (view s.world) (instchk_main os defined items s)
  unfolding instchk_main
  instchk_main_keeps items = started_keeps "instchk" _ (
      >>=-Keeps view (each_item os defined "instchk" (install_check os) items) _
        (each_item_keeps "instchk" _ items (install_check_keeps os view v))
        (elim [ next ↦ summary_keeps _ | exits code ↦ λ s. refl ]))
