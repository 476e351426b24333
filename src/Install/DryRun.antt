-- ===== src/Install/DryRun.antt =====
-- A dry run, and a check, keep every view of the files.
use coreland_lua_ada_load.Base.{
  ℕ, Bytes, true, Option, List, [], ◌∷◌, ◌≡◌, refl, ap, zero, suc, get_elem?, arith,
}
use coreland_lua_ada_load.Install.Types.{InstallItem, FileType}
use coreland_lua_ada_load.Install.Os.{Os}
use coreland_lua_ada_load.Install.Machine.{Machine}
use coreland_lua_ada_load.Install.Operators.{
  is_dryrun, inst_copy, inst_link, inst_mkdir, inst_liblink,
}
use coreland_lua_ada_load.Install.Deinstall.{deinst_copy, deinst_link, deinst_mkdir, deinst_liblink}
use coreland_lua_ada_load.Install.Translate.{Translation, translated, refused}
use coreland_lua_ada_load.Install.Api.{
  instchk_opers, install_check, InstOp, run_oper, apply_row, apply_at, install_opers, deinst_opers,
  install, deinstall,
}
use coreland_lua_ada_load.Install.Views.{IsFileView, Shows, Keeps, >>=-Keeps}
use coreland_lua_ada_load.Install.Views.Translations.{
  ntran_copy-Shows, ntran_copy_exec-Shows, ntran_link-Shows, ntran_liblink-Shows, ntran_mkdir-Shows,
  ntran_chk_link-Shows, ntran_chk_liblink-Shows,
}
use coreland_lua_ada_load.Install.Check.{install_file_check}
use coreland_lua_ada_load.Install.Check.Verdict.{outcome-eq-some, install_file_check-verdict}
use coreland_lua_ada_load.Install.Verify.{
  instchk_file, instchk_copy, instchk_link, instchk_mkdir, instchk_liblink,
}

module _ {W F : Type 0} (os : Os W) (view : W → F) (v : IsFileView os view) where
  inst_copy_dry :
      (fuel : ℕ) (ins : InstallItem) (flags : ℕ) (s : Machine W)
      → is_dryrun flags ≡ true
      → Shows view (view s.world) (inst_copy os fuel ins flags s)
  unfolding inst_copy
  inst_copy_dry fuel ins flags s dry = ground arith

  inst_mkdir_dry :
      (ins : InstallItem) (flags : ℕ) (s : Machine W)
      → is_dryrun flags ≡ true
      → Shows view (view s.world) (inst_mkdir os ins flags s)
  unfolding inst_mkdir
  inst_mkdir_dry ins flags s dry = ground arith

  inst_link_dry :
      (ins : InstallItem) (flags : ℕ) (s : Machine W)
      → is_dryrun flags ≡ true
      → Shows view (view s.world) (inst_link os ins flags s)
  unfolding inst_link
  inst_link_dry ins flags s dry = grind (arith, v.view-chdir)

  inst_liblink_dry :
      (ins : InstallItem) (flags : ℕ) (s : Machine W)
      → is_dryrun flags ≡ true
      → Shows view (view s.world) (inst_liblink os ins flags s)
  inst_liblink_dry ins flags s dry = unfold inst_liblink in inst_link_dry ins flags s dry

  deinst_copy_dry :
      (ins : InstallItem) (flags : ℕ) (s : Machine W)
      → is_dryrun flags ≡ true
      → Shows view (view s.world) (deinst_copy os ins flags s)
  unfolding deinst_copy
  deinst_copy_dry ins flags s dry = ground arith

  deinst_link_dry :
      (ins : InstallItem) (flags : ℕ) (s : Machine W)
      → is_dryrun flags ≡ true
      → Shows view (view s.world) (deinst_link os ins flags s)
  unfolding deinst_link
  deinst_link_dry ins flags s dry = ground arith

  deinst_liblink_dry :
      (ins : InstallItem) (flags : ℕ) (s : Machine W)
      → is_dryrun flags ≡ true
      → Shows view (view s.world) (deinst_liblink os ins flags s)
  deinst_liblink_dry ins flags s dry = unfold deinst_liblink in deinst_link_dry ins flags s dry

  deinst_mkdir_dry :
      (ins : InstallItem) (flags : ℕ) (s : Machine W)
      → is_dryrun flags ≡ true
      → Shows view (view s.world) (deinst_mkdir os ins flags s)
  unfolding deinst_mkdir
  deinst_mkdir_dry ins flags s dry = ground arith

  module _ (flags : ℕ) (o : InstOp W) where
    -- Both callbacks of the row keep the view.
    record RowShows : Type 0 where
      trans_shows : (ins : InstallItem) (s : Machine W) → Shows view (view s.world) (o.trans ins s)
      oper_shows :
          (ins : InstallItem) (s : Machine W) → Shows view (view s.world) (o.oper ins flags s)

    run_oper-Keeps : RowShows → (t : Translation) → Keeps view (run_oper o flags t)
    run_oper-Keeps r (translated ins) s = r.oper_shows ins s
    run_oper-Keeps r (refused st) s = refl

    apply_row_shows : RowShows → (ins : InstallItem) → Keeps view (apply_row os o ins flags)
    unfolding apply_row
    apply_row_shows r ins = >>=-Keeps view (o.trans ins) _ (r.trans_shows ins) (λ t.
        >>=-Keeps view (run_oper o flags t) _ (run_oper-Keeps r t)
          (λ st s. v.view-fflush_all s.world))

  -- All rows of a table keep the view.
  abbrev RowsShow : ℕ → List (InstOp W) → Type 0
  RowsShow flags [] = Unit
  RowsShow flags (o ∷ opers) = RowShows flags o × RowsShow flags opers

  apply_at-Shows :
      (flags : ℕ) (opers : List (InstOp W)) (n : ℕ) (ins : InstallItem) (s : Machine W)
      → RowsShow flags opers
      → Shows view (view s.world) (apply_at os (get_elem? opers n) ins flags s)
  unfolding apply_at
  apply_at-Shows flags [] n ins s r = tt
  apply_at-Shows flags (o ∷ opers) zero ins s r = apply_row_shows flags o r.0 ins s
  apply_at-Shows flags (o ∷ opers) (suc n) ins s r = apply_at-Shows flags opers n ins s r.1

  module _ (flags : ℕ) (dry : is_dryrun flags ≡ true) where
    -- A dry run of install leaves the files as they are, for every item and whatever the system
    -- replies, unless it ends in a fault.
    pub install_dry :
        (fuel : ℕ) (ins : InstallItem) (s : Machine W)
        → Shows view (view s.world) (install os fuel ins flags s)
    unfolding install
    install_dry fuel ins s = apply_at-Shows flags (install_opers os fuel) ins.op ins s (
      record {
        trans_shows = ntran_copy-Shows os view v;
        oper_shows = λ i t. inst_copy_dry fuel i flags t dry;
      },
      (
        record {
          trans_shows = ntran_copy_exec-Shows os view v;
          oper_shows = λ i t. inst_copy_dry fuel i flags t dry;
        },
        (
          record {
            trans_shows = ntran_link-Shows os view v;
            oper_shows = λ i t. inst_link_dry i flags t dry;
          },
          (
            record {
              trans_shows = ntran_mkdir-Shows os view v;
              oper_shows = λ i t. inst_mkdir_dry i flags t dry;
            },
            (
              record {
                trans_shows = ntran_liblink-Shows os view v;
                oper_shows = λ i t. inst_liblink_dry i flags t dry;
              },
              tt,
            ),
          ),
        ),
      ),
    )

    -- A dry run of deinstall leaves the files as they are, for every item and whatever the
    -- system replies, unless it ends in a fault.
    pub deinstall_dry :
        (ins : InstallItem) (s : Machine W) → Shows view (view s.world) (deinstall os ins flags s)
    unfolding deinstall
    deinstall_dry ins s = apply_at-Shows flags (deinst_opers os) ins.op ins s (
      record {
        trans_shows = ntran_copy-Shows os view v;
        oper_shows = λ i t. deinst_copy_dry i flags t dry;
      },
      (
        record {
          trans_shows = ntran_copy_exec-Shows os view v;
          oper_shows = λ i t. deinst_copy_dry i flags t dry;
        },
        (
          record {
            trans_shows = ntran_link-Shows os view v;
            oper_shows = λ i t. deinst_link_dry i flags t dry;
          },
          (
            record {
              trans_shows = ntran_mkdir-Shows os view v;
              oper_shows = λ i t. deinst_mkdir_dry i flags t dry;
            },
            (
              record {
                trans_shows = ntran_liblink-Shows os view v;
                oper_shows = λ i t. deinst_liblink_dry i flags t dry;
              },
              tt,
            ),
          ),
        ),
      ),
    )

  install_file_check-Shows :
      (src : Bytes) (mode : ℕ) (type : FileType) (uid gid : ℕ) (dst : Bytes) (s : Machine W)
      → Shows view (view s.world) (install_file_check os src mode type uid gid dst s)
  install_file_check-Shows src mode type uid gid dst s =
      let (st, s', run, good, same, count) =
        outcome-eq-some _ (install_file_check-verdict os src mode type uid gid dst s) in
      rw run (ap view same)

  instchk_file-Shows :
      (ins : InstallItem) (type : FileType) (src dst : Option Bytes) (s : Machine W)
      → Shows view (view s.world) (instchk_file os ins type src dst s)
  unfolding instchk_file
  instchk_file-Shows ins type src dst s = grind (arith, install_file_check-Shows)

  -- A check of an installed item changes no file, whatever the item and the replies are.
  pub install_check_keeps :
      (ins : InstallItem) (s : Machine W) → Shows view (view s.world) (install_check os ins s)
  unfolding install_check instchk_copy instchk_link instchk_mkdir instchk_liblink
  install_check_keeps ins s = apply_at-Shows 0 (instchk_opers os) ins.op ins s (
    record {
      trans_shows = ntran_copy-Shows os view v;
      oper_shows = λ i. instchk_file-Shows i _ _ _;
    },
    (
      record {
        trans_shows = ntran_copy_exec-Shows os view v;
        oper_shows = λ i. instchk_file-Shows i _ _ _;
      },
      (
        record {
          trans_shows = ntran_chk_link-Shows os view v;
          oper_shows = λ i. instchk_file-Shows i _ _ _;
        },
        (
          record {
            trans_shows = ntran_mkdir-Shows os view v;
            oper_shows = λ i. instchk_file-Shows i _ _ _;
          },
          (
            record {
              trans_shows = ntran_chk_liblink-Shows os view v;
              oper_shows = λ i. instchk_file-Shows i _ _ _;
            },
            tt,
          ),
        ),
      ),
    ),
  )
