-- ===== src/Install/Check.antt =====
-- install-core.c, install_uidgid_lookup and install_file_check: a file's type, size, mode and
-- ownership against what the item wants.
pub mod Verdict
use coreland_lua_ada_load.Base.{
  ℕ, Bytes, Bool, true, false, Option, none, some, List, [], ◌∷◌, ◌++◌, ◌==◌, ◌&&◌, not,
  if◌then◌else◌, String, codes, snprintf, text_or, fmt_ulong, fmt_octal,
}
use coreland_lua_ada_load.Install.Types.{
  Status, StatusCode, ok, error, failure, success, install_max_msglen, FileType, file, symlink,
}
use coreland_lua_ada_load.Install.Os.{Os}
use coreland_lua_ada_load.Install.Machine.{
  M, Machine, pure, ◌>>=◌, ◌>>◌, set_errno, inform, leave, require, must, function, on_early,
}
use coreland_lua_ada_load.Install.Files.{
  have_symlinks, install_uid_lookup, install_gid_lookup, install_uid_free, install_gid_free,
  install_fmt_uid, install_fmt_gid, install_file_get_mode, install_file_get_ownership,
  install_compare_permissions, install_compare_uid, install_compare_gid,
}
use coreland_lua_ada_load.Install.FileTypes.{
  type_value, install_file_type, install_file_type_name_lookup, install_file_size,
}

-- The words of a message, with a space between them.
pub words : List Bytes → Bytes
words [] = []
words (t ∷ []) = t
words (t ∷ u ∷ ts) = t ++ (codes " " ++ words (u ∷ ts))

-- A status whose message was formatted into `msg_buffer`.
abbrev pub formatted : List Bytes → Status
formatted ts = record {
  status = error;
  message = some (text_or (snprintf install_max_msglen (words ts)) []);
}

module _ {W : Type 0} (os : Os W) where
  -- The ids of the user and of the group, by name or those of the process.
  unfoldable pub install_uidgid_lookup : Option Bytes → Option Bytes → M W (Option (ℕ × ℕ) × Status)
  unfolding install_uid_lookup install_gid_lookup install_uid_free
  install_uidgid_lookup user group = install_uid_lookup os user >>= elim [
    | none ↦ pure (none, failure error "could not lookup user id")
    | some uid ↦ install_gid_lookup os group >>= elim [
      | none ↦ do
        install_uid_free os (some uid)
        pure (none, failure error "could not lookup group id")
      | some gid ↦ pure (some (uid, gid), success)
    ]
  ]

  abbrev is_file : FileType → Bool
  is_file t = type_value t == type_value file

  abbrev is_symlink : FileType → Bool
  is_symlink t = type_value t == type_value symlink

  -- `install_file_size (file_src, &size_want)`, whose failure leaves the size at 0.
  unfoldable pub wanted_size : FileType → Bytes → M W ℕ
  unfolding install_file_size
  wanted_size type_want file_src =
      if is_file type_want
      then (install_file_size os file_src >>= elim [ none ↦ pure 0 | some n ↦ pure n ])
      else pure 0

  -- check file type
  unfoldable pub check_type : FileType → Bytes → Bytes → M W (Unit {0})
  unfolding install_file_type install_file_type_name_lookup
  check_type type_want type_want_name file_dst = do
    got ← install_file_type os file_dst (is_symlink type_want)
    type_got ← must got (failure error "could not determine destination file type")
    type_got_name ←
        must (install_file_type_name_lookup os type_got)
          (failure error "unknown destination filetype")
    if not have_symlinks && not (is_symlink type_want)
        then require (type_value type_want == type_value type_got)
            (formatted (codes "filetype" ∷ type_got_name ∷ codes "not" ∷ type_want_name ∷ []))
        else pure tt

  -- check file size
  unfoldable pub check_size : FileType → ℕ → Bytes → M W (Unit {0})
  unfolding install_file_size
  check_size type_want size_want file_dst =
      if is_file type_want
      then (do
        got ← install_file_size os file_dst
        size_got ← must got (failure error "could not determine destination file size")
        require (size_want == size_got) (
            formatted (codes "size" ∷ fmt_ulong size_got ∷ codes "not" ∷ fmt_ulong size_want ∷ [])))
      else pure tt

  -- check file permissions
  unfoldable pub check_mode : ℕ → Bytes → M W (Unit {0})
  unfolding install_file_get_mode install_compare_permissions
  check_mode mode_want file_dst = do
    got ← install_file_get_mode os file_dst
    mode_got ← must got (failure error "could not determine destination file mode")
    require (install_compare_permissions mode_got mode_want)
        (formatted (codes "mode" ∷ fmt_octal mode_got ∷ codes "not" ∷ fmt_octal mode_want ∷ []))

  -- check file ownership
  unfoldable pub check_ownership : ℕ → ℕ → Bytes → M W (Unit {0})
  unfolding install_file_get_ownership install_compare_uid install_compare_gid
  check_ownership uid_want gid_want file_dst = do
    got ← install_file_get_ownership os file_dst
    (uid_got, gid_got) ← must got (failure error "could not determine destination file ownership")
    require (install_compare_uid uid_want uid_got) (
        formatted
          (codes "uid" ∷ install_fmt_uid uid_got ∷ codes "not" ∷ install_fmt_uid uid_want ∷ []))
    require (install_compare_gid gid_want gid_got) (
        formatted
          (codes "gid" ∷ install_fmt_gid gid_got ∷ codes "not" ∷ install_fmt_gid gid_want ∷ []))

  -- The label END.
  unfoldable pub free_ids : Option ℕ → Option ℕ → M W (Unit {0})
  unfolding install_uid_free install_gid_free
  free_ids uid gid = do install_uid_free os uid; install_gid_free os gid

  unfoldable pub install_file_check : Bytes → ℕ → FileType → ℕ → ℕ → Bytes → M W Status
  unfolding install_file_type_name_lookup wanted_size check_type check_size check_mode
      check_ownership free_ids
  install_file_check file_src mode_want type_want uid_want gid_want file_dst = function do
    set_errno 0
    type_want_name ←
        must (install_file_type_name_lookup os type_want) (failure error "unknown source filetype")
    size_want ← wanted_size type_want file_src
    inform (
        pure (
          words (
            codes "check"
            ∷ file_src
            ∷ file_dst
            ∷ install_fmt_uid uid_want
            ∷ install_fmt_gid gid_want
            ∷ fmt_octal mode_want
            ∷ type_want_name
            ∷ fmt_ulong size_want
            ∷ [])))
    check_type type_want type_want_name file_dst
    check_size type_want size_want file_dst
    check_mode mode_want file_dst
    on_early (λ _. free_ids none none) (check_ownership uid_want gid_want file_dst)
    free_ids none none
    pure success
