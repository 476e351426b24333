-- ===== src/Install/Names.antt =====
-- install-core.c, portability functions and utilities: base_name, str_same, str_ends, libname,
-- and install_suffix_sanitize.
pub mod BaseName
pub mod Suffix
use coreland_lua_ada_load.Base.{
  ℕ, zero, suc, ◌+◌, ◌-◌, Bytes, Bool, true, false, Option, none, some, List, [], ◌∷◌, ◌++◌, ◌==◌,
  ◌||◌, ◌&&◌, not, ltb, leb, if◌then◌else◌, length, get_or, take, drop, bytes_eq, c_string, codes,
}
use coreland_lua_ada_load.Install.Types.{install_max_pathlen}
use coreland_lua_ada_load.Install.Os.{Os}
use coreland_lua_ada_load.Install.Machine.{
  M, Machine, pure, crash, ◌>>=◌, ◌>>◌, call, act, ask, succeeded, overrun,
}

-- `while ((t > s) && (t [0] == '/')) --t;` where `t` counts from `s`.
unfoldable pub skip_slashes : Bytes → ℕ → ℕ
skip_slashes s zero = zero
skip_slashes s (suc t) = if get_or s (suc t) 0 == b'/' then skip_slashes s t else suc t

-- `while ((u > s) && (*(u - 1) != '/')) --u;`
unfoldable pub name_start : Bytes → ℕ → ℕ
name_start s zero = zero
name_start s (suc u) = if get_or s u 0 == b'/' then suc u else name_start s u

-- none is the result 0.
unfoldable pub base_name : Bytes → Option Bytes
unfolding skip_slashes name_start
base_name dir =
    let len = length dir in
    let t = skip_slashes dir (len - 1) in
    let u = name_start dir t in
    if len == 0
    then some (codes ".")
    else if leb install_max_pathlen len
    then none
    else if t == 0 && get_or dir t 0 == b'/'
    then some (codes "/")
    else some (take (t - u + 1) (drop u dir))

unfoldable pub str_same : Bytes → Bytes → Bool
unfolding bytes_eq
str_same a b = bytes_eq a b

unfoldable pub str_ends : Bytes → Bytes → Bool
unfolding str_same
str_ends s end =
    let slen = length s in
    let elen = if ltb slen (length end) then slen else length end in
    str_same (drop (slen - elen) s) end

abbrev pub is_white : ℕ → Bool
is_white c = c == b' ' || c == b'\t' || c == b'\n' || c == b'\r'

-- The bytes before the first whitespace, which `s` walks over.
unfoldable pub clean : Bytes → Bytes
clean [] = []
clean (c ∷ cs) = if is_white c then [] else c ∷ clean cs

module _ {W : Type 0} (os : Os W) where
  -- none is the result 0. A file of 1024 bytes with no whitespace leaves no room for the NUL:
  -- it is written one byte behind the caller's buffer.
  unfoldable pub libname : Bytes → M W (Option Bytes)
  unfolding clean c_string
  libname name = call (os.fopen_rb name) >>= elim [
    | none ↦ pure none
    | some fp ↦ do
      read_buf ← act (os.fread fp install_max_pathlen)
      failed ← ask (os.ferror_rb fp)
      let failing = ltb (length read_buf) install_max_pathlen && failed
      let text = clean read_buf
      let close = λ (r : Option Bytes). (do
        closed ← call (os.fclose_rb fp)
        closed? ← succeeded closed
        pure (if closed? then r else none))
      if failing
          then close none
          else if leb install_max_pathlen (length text)
          then crash overrun
          else close (some (c_string text))
  ]

-- The bytes that a suffix may hold.
abbrev pub is_suffix_byte : ℕ → Bool
is_suffix_byte ch =
    ch == b'.'
    || (leb b'0' ch && leb ch b'9')
    || (leb b'A' ch && leb ch b'Z')
    || (leb b'a' ch && leb ch b'z')

-- The loop over the buffer: the first other byte becomes NUL, and the loop ends.
unfoldable pub install_suffix_sanitize : Bytes → Bytes
install_suffix_sanitize [] = []
install_suffix_sanitize (ch ∷ buffer) =
    if is_suffix_byte ch then ch ∷ install_suffix_sanitize buffer else 0 ∷ buffer
