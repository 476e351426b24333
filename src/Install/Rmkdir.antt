-- ===== src/Install/Rmkdir.antt =====
-- install-core.c, install_rmkdir: the directories of a path are made one after another.
pub mod Order
use coreland_lua_ada_load.Base.{
  ℕ, zero, suc, ◌+◌, ◌-◌, Bytes, Bool, true, false, Option, none, some, List, [], ◌∷◌, ◌++◌, ◌==◌,
  ◌||◌, ◌&&◌, not, leb, if◌then◌else◌, length, take, drop, is_minus_one,
}
use coreland_lua_ada_load.Install.Types.{install_max_pathlen}
use coreland_lua_ada_load.Install.Os.{Os}
use coreland_lua_ada_load.Install.Machine.{
  M, Machine, pure, crash, ◌>>=◌, ◌>>◌, set_errno, get_errno, out_of_fuel,
}
use coreland_lua_ada_load.Install.Files.{install_mkdir}

-- The place that strchr (ptr, '/') points to, from the start of `ptr`.
unfoldable pub slash_position : Bytes → Option ℕ
slash_position [] = none
slash_position (c ∷ cs) =
    if c == b'/' then some 0 else elim (slash_position cs) [ none ↦ none | some n ↦ some (suc n) ]

-- The length of the next component, and whether it is the last.
abbrev pub component_at : ℕ → Option ℕ → ℕ × Bool
component_at len none = (len, true)
component_at len (some n) = (n, false)

unfoldable pub next_component : Bytes → ℕ × Bool
unfolding slash_position
next_component ptr = component_at (length ptr) (slash_position ptr)

module _ {W : Type 0} (os : Os W) (perm : ℕ) where
  -- mkdir of the path built so far, and the tests of its result, before the rest of the loop.
  unfoldable pub rmkdir_component : Bytes → Bool → M W Bool → M W Bool
  unfolding install_mkdir
  rmkdir_component path_buf end rest = do
    r ← install_mkdir os path_buf perm
    e ← get_errno
    let tolerated = not end && (e == os.eexist || e == os.eisdir)
    if is_minus_one r && not tolerated then pure false else rest

  -- One round, on the text of path_buf, the space left in it and the rest of the path; a round
  -- consumes at least one byte.
  unfoldable pub rmkdir_loop : ℕ → Bytes → ℕ → Bytes → M W Bool
  rmkdir_loop fuel path_buf buflen [] = pure true
  rmkdir_loop zero path_buf buflen (c ∷ cs) = crash out_of_fuel
  rmkdir_loop (suc fuel) path_buf buflen (c ∷ cs) =
      let ptr : Bytes = c ∷ cs in
      let (pos, end) = next_component ptr in
      let path_buf' = path_buf ++ (take pos ptr ++ (b'/' ∷ [])) in
      let rest = rmkdir_loop fuel path_buf' (buflen - pos - 1) (drop (pos + 1) ptr) in
      if leb buflen (pos + 1) then pure true else rmkdir_component path_buf' end rest

  unfoldable pub install_rmkdir : Bytes → M W Bool
  unfolding rmkdir_loop rmkdir_component next_component
  install_rmkdir dir =
      let long = set_errno os.enametoolong >> pure false in
      let loop = rmkdir_loop (length dir) [] install_max_pathlen dir in
      if leb install_max_pathlen (length dir) then long else loop
