-- ===== src/Install/Deinstall.antt =====
-- install-core.c, deinstall operator callbacks.
use coreland_lua_ada_load.Base.{ℕ, ◌∷◌, ◌++◌, if◌then◌else◌, codes, snprintf}
use coreland_lua_ada_load.Install.Types.{
  Status, error, failure, success, InstallItem, install_max_pathlen,
}
use coreland_lua_ada_load.Install.Os.{Os}
use coreland_lua_ada_load.Install.Machine.{
  M, pure, ◌>>=◌, ◌>>◌, deref, inform, function, attempt, must,
}
use coreland_lua_ada_load.Install.Operators.{is_dryrun}

module _ {W : Type 0} (os : Os W) where
  unfoldable pub deinst_copy : InstallItem → ℕ → M W Status
  deinst_copy ins flags = function do
    inform (do dst ← deref ins.dst; pure (codes "unlink " ++ dst))
    let remove =
        deref ins.dst >>= λ dst. attempt (os.unlink dst) (failure error "could not unlink file")
    if is_dryrun flags then pure tt else remove
    pure success

  unfoldable pub deinst_link : InstallItem → ℕ → M W Status
  deinst_link ins flags = function do
    inform (do
      dir ← deref ins.dir
      dst ← deref ins.dst
      pure (codes "unlink " ++ (dir ++ (b'/' ∷ dst))))
    let remove = do
      dir ← deref ins.dir
      dst ← deref ins.dst
      path_buf ←
          must (snprintf install_max_pathlen (dir ++ (b'/' ∷ dst)))
            (failure error "could not format string")
      attempt (os.unlink path_buf) (failure error "could not unlink")
    if is_dryrun flags then pure tt else remove
    pure success

  unfoldable pub deinst_mkdir : InstallItem → ℕ → M W Status
  deinst_mkdir ins flags = function do
    inform (do dir ← deref ins.dir; pure (codes "rmdir " ++ dir))
    let remove =
        deref ins.dir >>= λ dir. attempt (os.rmdir dir) (failure error "could not remove directory")
    if is_dryrun flags then pure tt else remove
    pure success

  unfoldable pub deinst_liblink : InstallItem → ℕ → M W Status
  unfolding deinst_link
  deinst_liblink ins flags = deinst_link ins flags
