-- ===== src/Install/FileTypes.antt =====
-- install-core.c, file types: the lookup table and the searches in it, and install_file_size.
use coreland_lua_ada_load.Base.{
  ℕ, Bytes, Bool, true, false, Option, none, some, List, [], ◌∷◌, ◌==◌, if◌then◌else◌, String,
  codes, bytes_eq, ◌≡◌, refl,
}
use coreland_lua_ada_load.Install.Types.{
  FileType, file, character_special, directory, symlink, socket, fifo, StatBuf,
}
use coreland_lua_ada_load.Install.Os.{Os}
use coreland_lua_ada_load.Install.Machine.{M, pure, ◌>>=◌, query}

-- A row of `file_type_lookups`.
pub record FileTypeLookup : Type 0 where
  pub check : ℕ → Bool
  pub name : Bytes
  pub type : FileType

abbrev row : (ℕ → Bool) → String → FileType → FileTypeLookup
row check name type = record { check = check; name = codes name; type = type }

-- The value of the enumeration constant.
abbrev pub type_value : FileType → ℕ
type_value file = 0
type_value character_special = 1
type_value directory = 2
type_value symlink = 3
type_value socket = 4
type_value fifo = 5

-- The loops over the table's rows.
unfoldable pub find_check : ℕ → List FileTypeLookup → Option FileType
find_check mode [] = none
find_check mode (r ∷ rows) = if r.check mode then some r.type else find_check mode rows

unfoldable pub find_name : Bytes → List FileTypeLookup → Option FileType
find_name type_name [] = none
find_name type_name (r ∷ rows) =
    if bytes_eq r.name type_name then some r.type else find_name type_name rows

unfoldable pub find_type : FileType → List FileTypeLookup → Option Bytes
find_type type [] = none
find_type type (r ∷ rows) =
    if type_value r.type == type_value type then some r.name else find_type type rows

module _ {W : Type 0} (os : Os W) where
  abbrev pub file_type_lookups : List FileTypeLookup
  file_type_lookups =
      row os.s_isreg "file" file
      ∷ row os.s_ischr "character_special" character_special
      ∷ row os.s_isdir "directory" directory
      ∷ row os.s_islnk "symlink" symlink
      ∷ row os.s_issock "socket" socket
      ∷ row os.s_isfifo "fifo" fifo
      ∷ []

  -- lstat if the flag is set, and stat if not.
  abbrev pub stat_following : Bool → Bytes → M W (Option StatBuf)
  stat_following true path = query (os.lstat path)
  stat_following false path = query (os.stat path)

  unfoldable pub install_file_type : Bytes → Bool → M W (Option FileType)
  unfolding find_check
  install_file_type path nofollow =
      stat_following nofollow path
      >>= elim [ none ↦ pure none | some sb ↦ pure (find_check sb.st_mode file_type_lookups) ]

  unfoldable pub install_file_type_lookup : Bytes → Option FileType
  unfolding find_name bytes_eq
  install_file_type_lookup type_name = find_name type_name file_type_lookups

  unfoldable pub install_file_type_name_lookup : FileType → Option Bytes
  unfolding find_type
  install_file_type_name_lookup type = find_type type file_type_lookups

  unfoldable pub install_file_size : Bytes → M W (Option ℕ)
  install_file_size path =
      query (os.stat path) >>= elim [ none ↦ pure none | some sb ↦ pure (some sb.st_size) ]

  -- Every file type has a name in the table, and the name leads back to the type.
  name_lookup_inverse :
      (t : FileType)
      → (name : Bytes) × (install_file_type_name_lookup t ≡ some name)
        × (install_file_type_lookup name ≡ some t)
  unfolding install_file_type_name_lookup install_file_type_lookup
  name_lookup_inverse file = (codes "file", refl, refl)
  name_lookup_inverse character_special = (codes "character_special", refl, refl)
  name_lookup_inverse directory = (codes "directory", refl, refl)
  name_lookup_inverse symlink = (codes "symlink", refl, refl)
  name_lookup_inverse socket = (codes "socket", refl, refl)
  name_lookup_inverse fifo = (codes "fifo", refl, refl)
