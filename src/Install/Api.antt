-- ===== src/Install/Api.antt =====
-- install-core.c, operator callback tables and interface: install_init, install, install_check,
-- deinstall and the setters of the callbacks.
pub mod Suffix
use coreland_lua_ada_load.Base.{
  ℕ, ◌-◌, ◌+◌, Bytes, Bool, true, false, Option, none, some, List, [], ◌∷◌, ◌++◌, ◌==◌,
  if◌then◌else◌, codes, snprintf, text_or, length, get_elem?, replicate,
}
use coreland_lua_ada_load.Install.Types.{
  Status, StatusCode, ok, error, fatal, failure, success, status_init, InstallItem,
  install_max_pathlen,
}
use coreland_lua_ada_load.Install.Os.{Os}
use coreland_lua_ada_load.Install.Machine.{
  M, Machine, done, pure, crash, ◌>>=◌, ◌>>◌, call, act, ask, flush_all, attempt, must, function,
  overrun, succeeded, require,
}
use coreland_lua_ada_load.Install.Posix.{iposix_install_init}
use coreland_lua_ada_load.Install.Names.{install_suffix_sanitize}
use coreland_lua_ada_load.Install.Translate.{
  Translation, translated, refused, ntran_copy, ntran_copy_exec, ntran_link, ntran_mkdir,
  ntran_liblink, ntran_chk_link, ntran_chk_liblink,
}
use coreland_lua_ada_load.Install.Operators.{inst_copy, inst_link, inst_mkdir, inst_liblink}
use coreland_lua_ada_load.Install.Verify.{
  instchk_copy, instchk_link, instchk_mkdir, instchk_liblink,
}
use coreland_lua_ada_load.Install.Deinstall.{deinst_copy, deinst_link, deinst_mkdir, deinst_liblink}

-- struct instop
pub record InstOp (W : Type 0) : Type 0 where
  pub oper : InstallItem → ℕ → M W Status
  pub trans : InstallItem → M W Translation

abbrev row :
    {W : Type 0} → (InstallItem → ℕ → M W Status) → (InstallItem → M W Translation) → InstOp W
row oper trans = record { oper = oper; trans = trans }

-- sizeof (inst_exec_suffix) and sizeof (inst_dlib_suffix)
abbrev pub suffix_size : ℕ
suffix_size = 16

abbrev buffer_status : Bytes → Status
buffer_status text = record {
  status = error;
  message = some (text_or (snprintf install_max_pathlen text) []);
}

abbrev pub set_suffixes : {W : Type 0} → Bytes → Bytes → M W (Unit {0})
set_suffixes exec dlib s = done tt (record s { exec_suffix = exec; dlib_suffix = dlib })

-- The zeroed buffer of the suffix with a dot and the bytes that fread puts behind it.
abbrev pub suffix_buffer : Bytes → Bytes
suffix_buffer bytes = (b'.' ∷ bytes) ++ replicate (suffix_size - 1 - length bytes) 0

-- The operator runs on a translated item; a refused one has its status already.
abbrev pub run_oper : {W : Type 0} → InstOp W → ℕ → Translation → M W Status
run_oper o flags (translated ins) = o.oper ins flags
run_oper o flags (refused st) = pure st

module _ {W : Type 0} (os : Os W) where
  abbrev pub install_opers : ℕ → List (InstOp W)
  install_opers fuel =
      row (inst_copy os fuel) (ntran_copy os)
      ∷ row (inst_copy os fuel) (ntran_copy_exec os)
      ∷ row (inst_link os) (ntran_link os)
      ∷ row (inst_mkdir os) (ntran_mkdir os)
      ∷ row (inst_liblink os) (ntran_liblink os)
      ∷ []

  abbrev pub instchk_opers : List (InstOp W)
  instchk_opers =
      row (instchk_copy os) (ntran_copy os)
      ∷ row (instchk_copy os) (ntran_copy_exec os)
      ∷ row (instchk_link os) (ntran_chk_link os)
      ∷ row (instchk_mkdir os) (ntran_mkdir os)
      ∷ row (instchk_liblink os) (ntran_chk_liblink os)
      ∷ []

  abbrev pub deinst_opers : List (InstOp W)
  deinst_opers =
      row (deinst_copy os) (ntran_copy os)
      ∷ row (deinst_copy os) (ntran_copy_exec os)
      ∷ row (deinst_link os) (ntran_link os)
      ∷ row (deinst_mkdir os) (ntran_mkdir os)
      ∷ row (deinst_liblink os) (ntran_liblink os)
      ∷ []

  -- `.trans (ins)`, `.oper (ins, flags)` and the flush behind CLEANUP.
  unfoldable pub apply_row : InstOp W → InstallItem → ℕ → M W Status
  apply_row o ins flags = do
    t ← o.trans ins
    status ← run_oper o flags t
    flush_all os.fflush_all
    pure status

  -- The row `opers [ins->op]`.
  unfoldable pub apply_at : Option (InstOp W) → InstallItem → ℕ → M W Status
  unfolding apply_row
  apply_at none ins flags = crash overrun
  apply_at (some o) ins flags = apply_row o ins flags

  abbrev pub apply_operator : List (InstOp W) → InstallItem → ℕ → M W Status
  apply_operator opers ins flags = apply_at (get_elem? opers ins.op) ins flags

  unfoldable pub install : ℕ → InstallItem → ℕ → M W Status
  unfolding apply_at
  install fuel ins flags = apply_operator (install_opers fuel) ins flags

  unfoldable pub install_check : InstallItem → M W Status
  unfolding apply_at
  install_check ins = apply_operator instchk_opers ins 0

  unfoldable pub deinstall : InstallItem → ℕ → M W Status
  unfolding apply_at
  deinstall ins flags = apply_operator deinst_opers ins flags

  -- What install_init returns if nothing was read: two tests, of which the second wins.
  unfoldable pub empty_status : Bool → Bool → Bytes → Status
  empty_status failed at_end suffix_file =
      if at_end
      then buffer_status (suffix_file ++ codes " is empty")
      else if failed
      then buffer_status (codes "error reading " ++ suffix_file)
      else status_init

  unfoldable pub install_init : Bytes → M W Status
  unfolding empty_status install_suffix_sanitize iposix_install_init
  install_init suffix_file = function do
    fp ← attempt (os.fopen_rb suffix_file) (buffer_status (codes "could not open " ++ suffix_file))
    bytes ← act (os.fread fp (suffix_size - 2))
    set_suffixes (replicate suffix_size 0) (suffix_buffer bytes)
    failed ← ask (os.ferror_rb fp)
    at_end ← ask (os.feof_rb fp)
    let nothing = do _ ← call (os.fclose_rb fp); pure (empty_status failed at_end suffix_file)
    let rest = do
      set_suffixes (replicate suffix_size 0) (install_suffix_sanitize (suffix_buffer bytes))
      attempt (os.fclose_rb fp) (buffer_status (codes "could not close " ++ suffix_file))
      iposix_install_init os
    if length bytes == 0 then nothing else rest

-- The setters; a callback is known by whether it is set.
unfoldable pub install_callback_warn_set : {W : Type 0} → Bool → M W (Unit {0})
install_callback_warn_set callback s = done tt (record s { warn_set = callback })

unfoldable pub install_callback_info_set : {W : Type 0} → Bool → M W (Unit {0})
install_callback_info_set callback s = done tt (record s { info_set = callback })

unfoldable pub install_callback_data_set : {W : Type 0} → ℕ → M W (Unit {0})
install_callback_data_set value s = done tt (record s { callback_data = value })
