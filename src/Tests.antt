-- ===== src/Tests.antt =====
-- Runs of the modelled functions, and the theorems at concrete data.
mod Disk
mod Processor
mod Lua
mod Lock
mod Accounts
mod Windows
mod Compilers
use coreland_lua_ada_load.Base.{
  ℕ, ◌+◌, ◌<◌, ◌≤◌, Bytes, true, false, Option, none, some, [], ◌∷◌, ◌++◌, ◌≡◌, ◌≢◌, refl, ◌↔◌, ◌⊎◌,
  arith, replicate, if◌then◌else◌, bytes_eq, codes, String, c_string, pos,
}
use coreland_lua_ada_load.Ctxt.{Ctxt}
use coreland_lua_ada_load.Install.Files.{
  install_scan_uid, install_scan_gid, install_fmt_uid, install_fmt_gid,
}
use coreland_lua_ada_load.Install.Files.Ids.{install_scan-fmt}
use coreland_lua_ada_load.Install.Types.{
  InstallItem, file, directory, fifo, failure, error, success,
}
use coreland_lua_ada_load.Install.Machine.{Machine, function, done}
use coreland_lua_ada_load.Install.FileTypes
use coreland_lua_ada_load.Install.FileTypes.{find_check}
use coreland_lua_ada_load.Install.Names.{base_name, str_ends}
use coreland_lua_ada_load.Install.Names.BaseName.{below, base_name_component}
use coreland_lua_ada_load.Install.Names.Suffix.{str_ends_iff, suffix_prefix}
use coreland_lua_ada_load.Install.Rmkdir.{install_rmkdir, slash_position}
use coreland_lua_ada_load.Install.Rmkdir.Order.{
  directories, make_all, install_rmkdir_lem, install_rmkdir_full,
}
use coreland_lua_ada_load.Install.Copy.{copy_loop, copy_open, install_file_copy}
use coreland_lua_ada_load.Install.Copy.Streams.{Copied, copy_loop-Copied}
use coreland_lua_ada_load.Install.Copy.Atomic.{
  Replaces, install_file_copy-Replaces, install_file_copy_full,
}
use coreland_lua_ada_load.Install.Copy.Success.{install_file_copy-contents}
use coreland_lua_ada_load.Install.Check.{install_file_check}
use coreland_lua_ada_load.Install.Check.Verdict.{
  outcome, verdict, install_file_check-verdict, install_file_check_type,
}
use coreland_lua_ada_load.Install.Operators.{item_ids}
use coreland_lua_ada_load.Install.Verify.{instchk_file}
use coreland_lua_ada_load.Install.Verify.Count.{instchk_file_counts}
use coreland_lua_ada_load.Install.Views.{Shows}
use coreland_lua_ada_load.Install.Api.{install_init}
use coreland_lua_ada_load.Install.Api.Suffix.{install_init_suffix}
use coreland_lua_ada_load.Programs.{insthier, installer_main, deinstaller_main, instchk_main}
use coreland_lua_ada_load.Programs.DryRun.{
  installer_main_dry, deinstaller_main_dry, instchk_main_keeps,
}
use coreland_lua_ada_load.Programs.Ending.{Ends, Checks, instchk_main-Checks}
use coreland_lua_ada_load.Errors.{install_error, first_rows, guarded_rows}
use coreland_lua_ada_load.Errors.Search.{install_error-macro_text}
use coreland_lua_ada_load.Conf
use coreland_lua_ada_load.Conf.{str_diff}
use coreland_lua_ada_load.Conf.Output.{main-asked}
use coreland_lua_ada_load.Conf.StrDiff.{str_diff-zero_iff}
use coreland_lua_ada_load.Tests.Disk.{
  DiskState, disk_os, files, files-IsFileView, target-IsApart, streams-AreStreams, streams-Works,
  start,
}

abbrev item : InstallItem
item = record {
  op = 0;
  src = some (codes "lua-load.ads");
  dst = none;
  dir = some (codes "inc");
  owner = none;
  group = none;
  perm = 0o644;
}

abbrev ctxt : Ctxt
ctxt = record {
  bindir = codes "bin";
  incdir = codes "inc";
  dlibdir = codes "lib";
  slibdir = codes "lib";
  repos = codes "repos";
  version = codes "1.0";
}

abbrev linux : String → Option ℕ
linux name = none

base_name_run : base_name (codes "/usr/local//") ≡ some (codes "local")
unfolding base_name
base_name_run = refl

base_name_component_example : base_name (codes "/usr/local//") ≡ some (codes "local")
base_name_component_example =
    base_name_component (codes "/usr/") (codes "local") 2 (below (codes "/usr"))
      (refl, (refl, (refl, (refl, (refl, tt))))) (omega arith) (omega arith)

str_ends_iff_example :
    (str_ends (codes "a.vlb") (codes ".vlb") ≡ true)
    ↔ ((p : Bytes) × (codes "a.vlb" ≡ p ++ codes ".vlb"))
str_ends_iff_example = str_ends_iff (codes "a.vlb") (codes ".vlb")

install_rmkdir_lem_example :
    (s' : Machine DiskState) × (install_rmkdir disk_os 0o755 (codes "a/b") start ≡ done true s')
    × (s'.world ≡ make_all disk_os 0o755 (directories [] false (codes "a/b")) start.world)
install_rmkdir_lem_example = install_rmkdir_lem disk_os 0o755 (codes "a/b") start (omega arith)

made_directories :
    directories [] false (codes "/a//b/c/")
    ≡ codes "/" ∷ codes "/a/" ∷ codes "/a//" ∷ codes "/a//b/" ∷ codes "/a//b/c/" ∷ []
made_directories = refl

install_rmkdir_full_example :
    install_rmkdir disk_os 0o755 (replicate 1023 b'a') start ≡ done true start
unfolding slash_position
install_rmkdir_full_example =
    install_rmkdir_full disk_os 0o755 (replicate 1023 b'a') start refl refl

copy_loop-Copied_example :
    Copied disk_os 3 4
      (λ d. d.unread)
      (λ d. d.temporary)
      streams-AreStreams
      start
      (copy_loop disk_os 1 3 4 start)
copy_loop-Copied_example =
    copy_loop-Copied disk_os 3 4 (λ d. d.unread) (λ d. d.temporary) streams-AreStreams 1 start
      (omega arith)

install_file_copy-Replaces_example :
    Replaces disk_os
      (λ d. d.target)
      (codes "x.tmp")
      (target-IsApart (codes "x.tmp"))
      (codes "x")
      (codes "old")
      (install_file_copy disk_os 5 (codes "lua-load.ads") (codes "x") 1000 100 0o644 start)
install_file_copy-Replaces_example =
    install_file_copy-Replaces disk_os (λ d. d.target) (codes "x.tmp")
      (target-IsApart (codes "x.tmp")) 5 (codes "lua-load.ads") (codes "x") 1000 100 0o644 start
      refl (omega arith)

install_file_check-verdict_example :
    outcome (install_file_check disk_os (codes "a") 0o644 file 1000 100 (codes "b") start)
    ≡ some (verdict disk_os (codes "a") 0o644 file 1000 100 (codes "b") start.world, start.world, 0)
install_file_check-verdict_example =
    install_file_check-verdict disk_os (codes "a") 0o644 file 1000 100 (codes "b") start

install_file_check_type_example :
    outcome (install_file_check disk_os (codes "a") 0o644 directory 1000 100 (codes "b") start)
    ≡ outcome (install_file_check disk_os (codes "a") 0o644 fifo 1000 100 (codes "b") start)
install_file_check_type_example =
    install_file_check_type disk_os (codes "a") 0o644 directory fifo 1000 100 (codes "b") start tt
      tt

instchk_file_counts_example :
    outcome (instchk_file disk_os item directory (some (codes "inc")) (some (codes "inc")) start)
    ≡ some (true, start.world, 0)
unfolding find_check
instchk_file_counts_example =
    instchk_file_counts disk_os item directory (codes "inc") (codes "inc") 1000 100 start
      (unfold item_ids in refl)

installer_main_dry_example :
    Shows files (files start.world) (installer_main disk_os linux 5 (insthier ctxt) 2 start)
installer_main_dry_example =
    installer_main_dry disk_os files files-IsFileView linux 5 (insthier ctxt) 2 (omega arith) start

deinstaller_main_dry_example :
    Shows files (files start.world) (deinstaller_main disk_os linux (insthier ctxt) 2 start)
deinstaller_main_dry_example =
    deinstaller_main_dry disk_os files files-IsFileView linux (insthier ctxt) 2 (omega arith) start

instchk_main_keeps_example :
    Shows files (files start.world) (instchk_main disk_os linux (insthier ctxt) start)
instchk_main_keeps_example =
    instchk_main_keeps disk_os files files-IsFileView linux (insthier ctxt) start

install_init_suffix_example :
    (s' : Machine DiskState) × (install_init disk_os (codes "conf-sosuffix") start
      ≡ done success s')
    × (c_string s'.dlib_suffix ≡ b'.' ∷ suffix_prefix (codes "so\n"))
    × (c_string s'.exec_suffix ≡ [])
install_init_suffix_example =
    install_init_suffix disk_os (codes "conf-sosuffix") 3 (codes "so\n") start.world start refl refl
      (omega arith) refl

str_diff-zero_iff_example :
    (str_diff (codes "help") (codes "help") ≡ pos 0) ↔ (codes "help" ≡ codes "help")
str_diff-zero_iff_example =
    str_diff-zero_iff (codes "help") (codes "help") (omega arith) (omega arith)

install_file_copy_full_example :
    install_file_copy disk_os 5 (codes "a") (replicate 1023 b'a') 1000 100 0o644 start
    ≡ function
        (copy_open disk_os 5 3 4 (replicate 1023 b'a') (replicate 1023 b'a') 1000 100 0o644)
        (record start { world = record start.world { unread = codes "so\n" } })
install_file_copy_full_example =
    install_file_copy_full disk_os 5 (codes "a") (replicate 1023 b'a') 1000 100 0o644 3 4 start refl
      refl refl

install_file_copy-contents_example :
    (s' : Machine DiskState) × (install_file_copy disk_os 4
        (codes "a")
        (codes "x")
        1000
        100
        0o644
        start
      ≡ done success s')
    × (s'.world.target ≡ codes "so\n")
install_file_copy-contents_example =
    install_file_copy-contents disk_os 3 4 (codes "x.tmp") (codes "x") (λ d. d.unread)
      (λ d. d.temporary) (λ d. d.target) streams-AreStreams
      (streams-Works (codes "x.tmp") (codes "x")) 4 (codes "a") 1000 100 0o644 start refl
      (omega arith) refl refl (omega arith)

main-asked_example :
    Conf.main (codes "newline" ∷ codes "compile" ∷ codes "incdir" ∷ []) true ctxt
    ≡ record { output = codes "-Iinc \n"; status = 0 }
unfolding bytes_eq
main-asked_example =
    main-asked (codes "newline") (codes "compile" ∷ codes "incdir" ∷ []) true ctxt (omega arith)

instchk_main-Checks_example : Ends Checks (instchk_main disk_os linux (insthier ctxt) start)
instchk_main-Checks_example = instchk_main-Checks disk_os linux (insthier ctxt) start

-- Where only ENOENT is defined.
abbrev only_enoent : String → Option ℕ
only_enoent macro = if bytes_eq (codes macro) (codes "ENOENT") then some 2 else none

install_error-macro_text_example : install_error only_enoent (pos 2) ≡ codes "file does not exist"
unfolding bytes_eq first_rows guarded_rows
install_error-macro_text_example = install_error-macro_text only_enoent 1

-- The ids of all ones, which %d prints as -1.
install_scan-fmt_example :
    (install_scan_uid (install_fmt_uid 0xffffffff) 0 ≡ (1, 0xffffffff))
    × (install_scan_gid (install_fmt_gid 0xffffffff) 0 ≡ (1, 0xffffffff))
install_scan-fmt_example = install_scan-fmt 0xffffffff 0 (omega arith)
