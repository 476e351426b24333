-- ===== src/Install/Verify/Count.antt =====
-- When instchk counts a failure.
use coreland_lua_ada_load.Base.{ℕ, ◌+◌, ◌%◌, ◌^◌, Bytes, some, ◌≡◌, arith, if◌then◌else◌}
use coreland_lua_ada_load.Install.Types.{InstallItem, FileType}
use coreland_lua_ada_load.Install.Os.{Os}
use coreland_lua_ada_load.Install.Machine.{Machine, done}
use coreland_lua_ada_load.Install.Check.Verdict.{
  outcome, outcome-eq-some, verdict, install_file_check-verdict,
}
use coreland_lua_ada_load.Install.Operators.{item_ids}
use coreland_lua_ada_load.Install.Verify.{instchk_file}

module _ {W : Type 0} (os : Os W) where
  -- Once the item's user and group are known, the check fails and is counted exactly if the
  -- verdict on the file is negative.
  pub instchk_file_counts :
      (ins : InstallItem) (type : FileType) (src dst : Bytes) (uid gid : ℕ) (s : Machine W)
      → item_ids os ins s ≡ done (uid, gid) s
      → let good = verdict os src ins.perm type uid gid dst s.world in
        outcome (instchk_file os ins type (some src) (some dst) s)
        ≡ some (good, s.world, if good then s.failed else (s.failed + 1) % 2 ^ 64)
  instchk_file_counts ins type src dst uid gid s known =
      let (st, s', run, good, same, count) =
        outcome-eq-some _ (install_file_check-verdict os src ins.perm type uid gid dst s) in
      unfold instchk_file in ground arith
