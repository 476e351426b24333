-- ===== src/Errors.antt =====
-- install-error.c: the texts of errno values. Which macros of <errno.h> are defined, and as
-- what, is the parameter `defined`.
pub mod Search
use coreland_lua_ada_load.Base.{
  ℕ, ◌-◌, Bytes, Bool, Option, none, some, List, [], ◌∷◌, ◌++◌, if◌then◌else◌, String, codes, ℤ,
  pos, negsuc, int_eq,
}

-- A line `X (e, text)`, where e is a number, a variable `error_...` that is the macro or else a
-- negative number, or a macro under #ifdef.
pub data ErrorRow : Type 0 where
  constant : ℕ → String → ErrorRow
  variable : String → ℕ → String → ErrorRow
  guarded : String → String → ErrorRow

module _ (defined : String → Option ℕ) where
  -- The number that the row compares with, if the row is compiled.
  unfoldable pub row_value : ErrorRow → Option ℤ
  row_value (constant n text) = some (pos n)
  row_value (variable macro fallback text) = elim (defined macro) [
    | none ↦ some (negsuc (fallback - 1))
    | some n ↦ some (pos n)
  ]
  row_value (guarded macro text) = elim (defined macro) [ none ↦ none | some n ↦ some (pos n) ]

abbrev pub row_text : ErrorRow → String
row_text (constant n text) = text
row_text (variable macro fallback text) = text
row_text (guarded macro text) = text

-- if (i == e) return s;
abbrev pub row_matches : Option ℤ → ℤ → Bool
row_matches none i = Bool.false
row_matches (some e) i = int_eq i e

unfoldable pub first_rows : List ErrorRow
first_rows =
    constant 0 "no error"
    ∷ variable "EINTR" 1 "interrupted system call"
    ∷ variable "ENOMEM" 2 "out of memory"
    ∷ variable "ENOENT" 3 "file does not exist"
    ∷ variable "ETXTBSY" 4 "text busy"
    ∷ variable "EIO" 5 "input/output error"
    ∷ variable "EEXIST" 6 "file already exists"
    ∷ variable "ETIMEDOUT" 7 "timed out"
    ∷ variable "EINPROGRESS" 8 "operation in progress"
    ∷ variable "EAGAIN" 10 "temporary failure"
    ∷ variable "EWOULDBLOCK" 9 "input/output would block"
    ∷ variable "EPIPE" 11 "broken pipe"
    ∷ variable "EPERM" 12 "operation not permitted"
    ∷ variable "EACCES" 13 "permission denied"
    ∷ variable "ENXIO" 14 "device not configured"
    ∷ variable "EPROTO" 15 "protocol error"
    ∷ variable "EOVERFLOW" 84 "value too large for data type"
    ∷ variable "EISDIR" 16 "is a directory"
    ∷ []

unfoldable pub guarded_rows : List ErrorRow
guarded_rows =
    guarded "ESRCH" "no such process"
    ∷ guarded "E2BIG" "argument list too long"
    ∷ guarded "ENOEXEC" "exec format error"
    ∷ guarded "EBADF" "file descriptor not open"
    ∷ guarded "ECHILD" "no child processes"
    ∷ guarded "EDEADLK" "operation would cause deadlock"
    ∷ guarded "EFAULT" "bad address"
    ∷ guarded "ENOTBLK" "not a block device"
    ∷ guarded "EBUSY" "device busy"
    ∷ guarded "EXDEV" "cross-device link"
    ∷ guarded "ENODEV" "device does not support operation"
    ∷ guarded "ENOTDIR" "not a directory"
    ∷ guarded "EISDIR" "is a directory"
    ∷ guarded "EINVAL" "invalid argument"
    ∷ guarded "ENFILE" "system cannot open more files"
    ∷ guarded "EMFILE" "process cannot open more files"
    ∷ guarded "ENOTTY" "not a tty"
    ∷ guarded "EFBIG" "file too big"
    ∷ guarded "ENOSPC" "out of disk space"
    ∷ guarded "ESPIPE" "unseekable descriptor"
    ∷ guarded "EROFS" "read-only file system"
    ∷ guarded "EMLINK" "too many links"
    ∷ guarded "EDOM" "input out of range"
    ∷ guarded "ERANGE" "output out of range"
    ∷ guarded "EALREADY" "operation already in progress"
    ∷ guarded "ENOTSOCK" "not a socket"
    ∷ guarded "EDESTADDRREQ" "destination address required"
    ∷ guarded "EMSGSIZE" "message too long"
    ∷ guarded "EPROTOTYPE" "incorrect protocol type"
    ∷ guarded "ENOPROTOOPT" "protocol not available"
    ∷ guarded "EPROTONOSUPPORT" "protocol not supported"
    ∷ guarded "ESOCKTNOSUPPORT" "socket type not supported"
    ∷ guarded "EOPNOTSUPP" "operation not supported"
    ∷ guarded "EPFNOSUPPORT" "protocol family not supported"
    ∷ guarded "EAFNOSUPPORT" "address family not supported"
    ∷ guarded "EADDRINUSE" "address already used"
    ∷ guarded "EADDRNOTAVAIL" "address not available"
    ∷ guarded "ENETDOWN" "network down"
    ∷ guarded "ENETUNREACH" "network unreachable"
    ∷ guarded "ENETRESET" "network reset"
    ∷ guarded "ECONNABORTED" "connection aborted"
    ∷ guarded "ECONNRESET" "connection reset"
    ∷ guarded "ENOBUFS" "out of buffer space"
    ∷ guarded "EISCONN" "already connected"
    ∷ guarded "ENOTCONN" "not connected"
    ∷ guarded "ESHUTDOWN" "socket shut down"
    ∷ guarded "ETOOMANYREFS" "too many references"
    ∷ guarded "ECONNREFUSED" "connection refused"
    ∷ guarded "ELOOP" "symbolic link loop"
    ∷ guarded "ENAMETOOLONG" "file name too long"
    ∷ guarded "EHOSTDOWN" "host down"
    ∷ guarded "EHOSTUNREACH" "host unreachable"
    ∷ guarded "ENOTEMPTY" "directory not empty"
    ∷ guarded "EPROCLIM" "too many processes"
    ∷ guarded "EUSERS" "too many users"
    ∷ guarded "EDQUOT" "disk quota exceeded"
    ∷ guarded "ESTALE" "stale NFS file handle"
    ∷ guarded "EREMOTE" "too many levels of remote in path"
    ∷ guarded "EBADRPC" "RPC structure is bad"
    ∷ guarded "ERPCMISMATCH" "RPC version mismatch"
    ∷ guarded "EPROGUNAVAIL" "RPC program unavailable"
    ∷ guarded "EPROGMISMATCH" "program version mismatch"
    ∷ guarded "EPROCUNAVAIL" "bad procedure for program"
    ∷ guarded "ENOLCK" "no locks available"
    ∷ guarded "ENOSYS" "system call not available"
    ∷ guarded "EFTYPE" "bad file type"
    ∷ guarded "EAUTH" "authentication error"
    ∷ guarded "ENEEDAUTH" "not authenticated"
    ∷ guarded "ENOSTR" "not a stream device"
    ∷ guarded "ETIME" "timer expired"
    ∷ guarded "ENOSR" "out of stream resources"
    ∷ guarded "ENOMSG" "no message of desired type"
    ∷ guarded "EBADMSG" "bad message type"
    ∷ guarded "EIDRM" "identifier removed"
    ∷ guarded "ENONET" "machine not on network"
    ∷ guarded "ERREMOTE" "object not local"
    ∷ guarded "ENOLINK" "link severed"
    ∷ guarded "EADV" "advertise error"
    ∷ guarded "ESRMNT" "srmount error"
    ∷ guarded "ECOMM" "communication error"
    ∷ guarded "EMULTIHOP" "multihop attempted"
    ∷ guarded "EREMCHG" "remote address changed"
    ∷ []

module _ (defined : String → Option ℕ) where
  unfoldable pub find_row : ℤ → List ErrorRow → Bytes
  unfolding row_value
  find_row i [] = codes "unknown error"
  find_row i (r ∷ rows) =
      if row_matches (row_value defined r) i then codes (row_text r) else find_row i rows

  unfoldable pub install_error : ℤ → Bytes
  unfolding find_row first_rows guarded_rows
  install_error i = find_row i (first_rows ++ guarded_rows)
