-- ===== src/Install/Operators.antt =====
-- install-core.c, operator callbacks of the installer: inst_copy, inst_link, inst_mkdir and
-- inst_liblink.
use coreland_lua_ada_load.Base.{
  ℕ, Bytes, Bool, none, some, [], ◌∷◌, ◌==◌, not, if◌then◌else◌, codes, fmt_ulong, fmt_octal,
  bit_and,
}
use coreland_lua_ada_load.Install.Types.{
  Status, error, fatal, failure, success, install_max_pathlen, install_dryrun, InstallItem,
}
use coreland_lua_ada_load.Install.Os.{Os}
use coreland_lua_ada_load.Install.Machine.{
  M, pure, ◌>>=◌, ◌>>◌, query, deref, inform, leave, require, must, function, attempt, on_early,
}
use coreland_lua_ada_load.Install.Files.{
  install_file_link, install_file_set_ownership, install_fmt_uid, install_fmt_gid,
}
use coreland_lua_ada_load.Install.FileTypes.{install_file_size}
use coreland_lua_ada_load.Install.Copy.{install_file_copy}
use coreland_lua_ada_load.Install.Check.{words, install_uidgid_lookup, free_ids}
use coreland_lua_ada_load.Install.Rmkdir.{install_rmkdir}

-- flags & INSTALL_DRYRUN
abbrev pub is_dryrun : ℕ → Bool
is_dryrun flags = not (bit_and flags install_dryrun == 0)

module _ {W : Type 0} (os : Os W) where
  -- `status = install_uidgid_lookup (...); if (status.status != INSTALL_STATUS_OK) return status;`
  unfoldable pub item_ids : InstallItem → M W (ℕ × ℕ)
  unfolding install_uidgid_lookup
  item_ids ins = do (ids, status) ← install_uidgid_lookup os ins.owner ins.group; must ids status

  unfoldable pub size_or_zero : Bytes → M W ℕ
  unfolding install_file_size
  size_or_zero path = install_file_size os path >>= elim [ none ↦ pure 0 | some n ↦ pure n ]

  unfoldable pub inst_copy : ℕ → InstallItem → ℕ → M W Status
  unfolding item_ids size_or_zero install_file_copy free_ids
  inst_copy fuel ins flags = function do
    (uid, gid) ← item_ids ins
    src ← deref ins.src
    size ← size_or_zero src
    inform (do
      dst ← deref ins.dst
      pure (
          words (
            codes "copy"
            ∷ src
            ∷ dst
            ∷ install_fmt_uid uid
            ∷ install_fmt_gid gid
            ∷ fmt_octal ins.perm
            ∷ fmt_ulong size
            ∷ [])))
    let copy = deref ins.dst >>= λ dst. install_file_copy os fuel src dst uid gid ins.perm
    status ← if is_dryrun flags then pure success else copy
    free_ids os (some uid) (some gid)
    pure status

  -- Back in the directory that the process was in.
  unfoldable pub restore_directory : Bytes → M W (Unit {0})
  restore_directory path_buf =
      attempt (os.chdir path_buf) (failure fatal "could not restore current working directory")

  unfoldable pub inst_link : InstallItem → ℕ → M W Status
  unfolding restore_directory install_file_link
  inst_link ins flags = function do
    inform (do
      src ← deref ins.src
      dst ← deref ins.dst
      pure (words (codes "symlink" ∷ src ∷ dst ∷ [])))
    cwd ← query (os.getcwd install_max_pathlen)
    path_buf ← must cwd (failure error "could not get current working directory")
    dir ← deref ins.dir
    attempt (os.chdir dir) (failure error "could not change directory")
    let link = do
      src ← deref ins.src
      dst ← deref ins.dst
      linked ← install_file_link os src dst
      if linked
          then pure tt
          else restore_directory path_buf >> leave (failure error "could not make symbolic link")
    if is_dryrun flags then pure tt else link
    restore_directory path_buf
    pure success

  unfoldable pub inst_mkdir : InstallItem → ℕ → M W Status
  unfolding item_ids install_rmkdir install_file_set_ownership free_ids
  inst_mkdir ins flags = function do
    (uid, gid) ← item_ids ins
    inform (do
      dir ← deref ins.dir
      pure (
          words (
            codes "mkdir"
            ∷ dir
            ∷ install_fmt_uid uid
            ∷ install_fmt_gid gid
            ∷ fmt_octal ins.perm
            ∷ [])))
    let make = do
      dir ← deref ins.dir
      made ← install_rmkdir os ins.perm dir
      require made (failure error "could not create directory")
      owned ← install_file_set_ownership os dir uid gid
      require owned (failure error "could not set ownership on directory")
    on_early (λ _. free_ids os (some uid) (some gid)) (if is_dryrun flags then pure tt else make)
    free_ids os (some uid) (some gid)
    pure success

  unfoldable pub inst_liblink : InstallItem → ℕ → M W Status
  unfolding inst_link
  inst_liblink ins flags = inst_link ins flags
