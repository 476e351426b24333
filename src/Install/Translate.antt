-- ===== src/Install/Translate.antt =====
-- install-core.c, name translation callbacks: ntran_*. A translation changes the item's names.
-- Strings are values here: every static buffer that a name is built in is read only until the
-- item has been handled.
use coreland_lua_ada_load.Base.{
  Bytes, Option, none, some, ◌∷◌, ◌++◌, if◌then◌else◌, String, codes, snprintf, c_string, text_or,
}
use coreland_lua_ada_load.Install.Types.{
  Status, error, fatal, failure, install_max_pathlen, InstallItem,
}
use coreland_lua_ada_load.Install.Os.{Os}
use coreland_lua_ada_load.Install.Machine.{
  M, done, early, fault, pure, ◌>>=◌, leave, must, deref, get_exec_suffix, get_dlib_suffix,
}
use coreland_lua_ada_load.Install.Names.{base_name, str_ends, libname}

-- The item as a translation leaves it, or the status that it fails with.
pub data Translation : Type 0 where
  translated : InstallItem → Translation
  refused : Status → Translation

-- The body of a translation.
abbrev pub translation : {W : Type 0} → M W InstallItem → M W Translation
translation m s = elim (m s) [
  | done i s' ↦ done (translated i) s'
  | early st s' ↦ done (refused st) s'
  | fault e ↦ fault e
]

-- A translation called by another one.
abbrev pub then_translation : {W : Type 0} → M W Translation → M W InstallItem
then_translation m = m >>= elim [ translated i ↦ pure i | refused st ↦ leave st ]

-- `if (!p) { status.message = ...; return status; }`, with the status FATAL that INIT gives.
abbrev defined : {W : Type 0} → Option Bytes → String → M W Bytes
defined p text = must p (failure fatal text)

-- snprintf (buffer, INSTALL_MAX_PATHLEN, ...), or ERROR.
abbrev format_path : {W : Type 0} → Bytes → String → M W Bytes
format_path text message = must (snprintf install_max_pathlen text) (failure error message)

abbrev join : Bytes → Bytes → Bytes
join dir name = dir ++ (b'/' ∷ name)

module _ {W : Type 0} (os : Os W) where
  -- `if (str_ends (name, ".vlb")) { if (!libname (name, buf)) ...; name = buf; }`
  unfoldable pub library_name : Bytes → M W Bytes
  library_name name =
      let read = libname os name >>= λ t. must t (failure fatal "could not build library name") in
      if str_ends name (codes ".vlb") then read else pure name

  unfoldable pub ntran_copy : InstallItem → M W Translation
  ntran_copy ins = translation do
    src ← defined ins.src "source file undefined"
    dir ← defined ins.dir "directory undefined"
    let dst = text_or ins.dst src
    src' ← library_name src
    dst' ← library_name dst
    name ← must (base_name dst') (failure fatal "invalid destination path")
    dst_tmp ← format_path (join dir name) "could not format destination path"
    pure (record ins { src = some src'; dst = some dst_tmp })

  unfoldable pub ntran_copy_exec : InstallItem → M W Translation
  ntran_copy_exec ins = translation do
    ins' ← then_translation (ntran_copy ins)
    src ← deref ins'.src
    dst ← deref ins'.dst
    suffix ← get_exec_suffix
    src_name ← format_path (src ++ c_string suffix) "could not format source path"
    dst_name ← format_path (dst ++ c_string suffix) "could not format destination path"
    pure (record ins' { src = some src_name; dst = some dst_name })

  unfoldable pub ntran_link : InstallItem → M W Translation
  ntran_link ins = translation do
    src ← defined ins.src "source file undefined"
    dir ← defined ins.dir "directory undefined"
    dst ← defined ins.dst "destination file undefined"
    pure ins

  -- In the source of a link a library's name stands without its directory.
  unfoldable pub link_source : Bytes → M W Bytes
  link_source src =
      let named =
        library_name src >>= λ t. must (base_name t) (failure fatal "invalid source path") in
      if str_ends src (codes ".vlb") then named else pure src

  unfoldable pub ntran_liblink : InstallItem → M W Translation
  ntran_liblink ins = translation do
    src ← defined ins.src "source file undefined"
    dir ← defined ins.dir "directory undefined"
    dst ← defined ins.dst "destination file undefined"
    src' ← link_source src
    name ← must (base_name dst) (failure fatal "invalid destination path")
    suffix ← get_dlib_suffix
    dst_tmp ← format_path (name ++ c_string suffix) "could not format destination path"
    pure (record ins { src = some src'; dst = some dst_tmp })

  abbrev or_source : InstallItem → Option Bytes
  or_source ins = elim ins.dst [ none ↦ ins.src | some t ↦ some t ]

  unfoldable pub ntran_mkdir : InstallItem → M W Translation
  ntran_mkdir ins = pure (translated (record ins { dst = or_source ins }))

  -- The path that instchk looks at: the link in its directory.
  unfoldable pub in_directory : InstallItem → M W InstallItem
  in_directory ins = do
    dir ← deref ins.dir
    dst ← deref ins.dst
    dst_name ← format_path (join dir dst) "could not format destination path"
    pure (record ins { dst = some dst_name })

  unfoldable pub ntran_chk_link : InstallItem → M W Translation
  ntran_chk_link ins = translation (then_translation (ntran_link ins) >>= in_directory)

  unfoldable pub ntran_chk_liblink : InstallItem → M W Translation
  ntran_chk_liblink ins = translation (then_translation (ntran_liblink ins) >>= in_directory)
