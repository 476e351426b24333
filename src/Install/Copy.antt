-- ===== src/Install/Copy.antt =====
-- install-core.c, install_file_copy: the source is copied to a temporary file beside the
-- destination, which then takes the destination's name.
pub mod Streams
pub mod Atomic
pub mod Success
use coreland_lua_ada_load.Base.{
  ℕ, zero, suc, Bytes, Bool, true, false, Option, none, some, List, [], ◌∷◌, ◌++◌, ◌==◌, ◌-◌,
  if◌then◌else◌, codes, snprintf, length, drop,
}
use coreland_lua_ada_load.Install.Types.{
  Status, StatusCode, ok, error, failure, success, install_max_pathlen,
}
use coreland_lua_ada_load.Install.Os.{Os}
use coreland_lua_ada_load.Install.Machine.{
  M, Machine, pure, crash, ◌>>=◌, ◌>>◌, call, act, ask, leave, require, must, function, on_early,
  attempt, bad_close, out_of_fuel,
}
use coreland_lua_ada_load.Install.Files.{install_file_set_mode, install_file_set_ownership}

-- sizeof (copy_buf)
abbrev pub copy_buf_size : ℕ
copy_buf_size = 65536

-- What the copy loops end with: the end of the source, or a jump to ERR with a message.
pub data CopyEnd : Type 0 where
  copied read_error write_error : CopyEnd

abbrev pub after_chunk : {W : Type 0} → M W CopyEnd → CopyEnd → M W CopyEnd
after_chunk more copied = more
after_chunk more read_error = pure read_error
after_chunk more write_error = pure write_error

abbrev pub check_end : {W : Type 0} → CopyEnd → M W (Unit {0})
check_end copied = pure tt
check_end read_error = leave (failure error "read error")
check_end write_error = leave (failure error "write error")

module _ {W : Type 0} (os : Os W) where
  -- The inner loop writes what is left of the chunk.
  unfoldable pub write_chunk : ℕ → ℕ → Bytes → M W CopyEnd
  write_chunk fuel fd_dst [] = pure copied
  write_chunk zero fd_dst (c ∷ cs) = crash out_of_fuel
  write_chunk (suc fuel) fd_dst (c ∷ cs) = do
    w ← act (os.fwrite fd_dst (c ∷ cs))
    at_end ← ask (os.feof_wb fd_dst)
    failed ← ask (os.ferror_wb fd_dst)
    let rest = write_chunk fuel fd_dst (drop w (c ∷ cs))
    if w == 0
        then (if at_end then pure copied else if failed then pure write_error else rest)
        else rest

  -- The outer loop reads chunks until the end of the source.
  unfoldable pub copy_loop : ℕ → ℕ → ℕ → M W CopyEnd
  copy_loop zero fd_src fd_dst = crash out_of_fuel
  copy_loop (suc fuel) fd_src fd_dst = do
    chunk ← act (os.fread fd_src copy_buf_size)
    at_end ← ask (os.feof_rb fd_src)
    failed ← ask (os.ferror_rb fd_src)
    let more = copy_loop fuel fd_src fd_dst
    let next = write_chunk (length chunk) fd_dst chunk >>= after_chunk more
    if length chunk == 0
        then (if at_end then pure copied else if failed then pure read_error else more)
        else next

  -- The label ERR, with both streams open.
  unfoldable pub copy_err : ℕ → ℕ → Bytes → M W (Unit {0})
  copy_err fd_src fd_dst dst_tmp = do
    _ ← call (os.fclose_wb fd_dst)
    _ ← call (os.fclose_rb fd_src)
    _ ← call (os.unlink dst_tmp)
    pure tt

  -- With a stream that is null or closed, ERR calls fclose on what is no open stream.
  abbrev pub copy_err_closed : Status → M W (Unit {0})
  copy_err_closed st = crash bad_close

  -- From the open streams to the last call that leaves both open.
  unfoldable pub copy_data : ℕ → ℕ → ℕ → Bytes → ℕ → ℕ → ℕ → M W (Unit {0})
  unfolding install_file_set_mode install_file_set_ownership
  copy_data fuel fd_src fd_dst dst_tmp uid gid mode = do
    end ← copy_loop fuel fd_src fd_dst
    check_end end
    attempt (os.fflush fd_dst) (failure error "write error")
    require (← install_file_set_mode os dst_tmp mode)
        (failure error "could not set file permissions")
    require (← install_file_set_ownership os dst_tmp uid gid)
        (failure error "could not set file ownership")

  -- The calls that close the streams, and the rename.
  unfoldable pub copy_replace : ℕ → ℕ → Bytes → Bytes → M W Status
  copy_replace fd_src fd_dst dst_tmp dst = do
    on_early copy_err_closed (do
      attempt (os.fclose_wb fd_dst) (failure error "could not close destination file")
      attempt (os.fclose_rb fd_src) (failure error "could not close source file")
      attempt (os.rename dst_tmp dst) (failure error "could not rename temporary file"))
    pure success

  -- What follows the two fopen calls.
  unfoldable pub copy_open : ℕ → ℕ → ℕ → Bytes → Bytes → ℕ → ℕ → ℕ → M W Status
  copy_open fuel fd_src fd_dst dst_tmp dst uid gid mode =
      on_early (λ _. copy_err fd_src fd_dst dst_tmp)
        (copy_data fuel fd_src fd_dst dst_tmp uid gid mode)
      >> copy_replace fd_src fd_dst dst_tmp dst

  unfoldable pub install_file_copy : ℕ → Bytes → Bytes → ℕ → ℕ → ℕ → M W Status
  install_file_copy fuel src dst uid gid mode = function do
    dst_tmp ←
        must (snprintf install_max_pathlen (dst ++ codes ".tmp"))
          (failure error "could not format string")
    fd_src ← attempt (os.fopen_rb src) (failure error "could not open source file")
    fd_dst ←
        on_early copy_err_closed
          (attempt (os.fopen_wb dst_tmp) (failure error "could not open destination file"))
    copy_open fuel fd_src fd_dst dst_tmp dst uid gid mode
