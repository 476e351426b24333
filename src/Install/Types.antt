-- ===== src/Install/Types.antt =====
-- install.h: the item and status types, the operation codes and the limits; and the file
-- status that stat gives.
use coreland_lua_ada_load.Base.{ℕ, Bytes, Option, none, some, String, codes, Bool, true, false}

abbrev pub install_dryrun : ℕ
install_dryrun = 1

-- INST_COPY and its successors, the values of an item's `op`.
abbrev pub inst_copy_op : ℕ
inst_copy_op = 0

abbrev pub inst_copy_exec_op : ℕ
inst_copy_exec_op = 1

abbrev pub inst_symlink_op : ℕ
inst_symlink_op = 2

abbrev pub inst_mkdir_op : ℕ
inst_mkdir_op = 3

abbrev pub inst_liblink_op : ℕ
inst_liblink_op = 4

pub data StatusCode : Type 0 where
  ok error fatal : StatusCode

-- struct install_status_t; `none` is the null message.
pub record Status : Type 0 where
  pub status : StatusCode
  pub message : Option Bytes

-- INSTALL_STATUS_INIT
abbrev pub status_init : Status
status_init = record { status = fatal; message = none }

-- A status with a literal message.
abbrev pub failure : StatusCode → String → Status
failure c text = record { status = c; message = some (codes text) }

abbrev pub success : Status
success = record { status = ok; message = none }

abbrev pub is_ok : Status → Bool
is_ok st = elim st.status [ ok ↦ true | error ↦ false | fatal ↦ false ]

-- struct install_item; `none` is a null pointer.
pub record InstallItem : Type 0 where
  pub op : ℕ
  pub src : Option Bytes
  pub dst : Option Bytes
  pub dir : Option Bytes
  pub owner : Option Bytes
  pub group : Option Bytes
  pub perm : ℕ

abbrev pub install_max_pathlen : ℕ
install_max_pathlen = 1024

abbrev pub install_max_msglen : ℕ
install_max_msglen = 8192

-- enum install_file_type_t
pub data FileType : Type 0 where
  file character_special directory symlink socket fifo : FileType

-- The fields of struct stat that the sources read.
pub record StatBuf : Type 0 where
  pub st_mode : ℕ
  pub st_uid : ℕ
  pub st_gid : ℕ
  pub st_size : ℕ
