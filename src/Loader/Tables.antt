-- ===== src/Loader/Tables.antt =====
-- lua-load.adb: Table_Start, Table_End and Table_Iterate.
use coreland_lua_ada_load.Base.{
  ℕ, zero, suc, Bytes, Bool, true, false, [], ◌∷◌, ◌++◌, ◌==◌, if◌then◌else◌, codes,
}
use coreland_lua_ada_load.Loader.Binding.{LuaType, number_type, string_type, table_type, Binding}
use coreland_lua_ada_load.Loader.State.{
  M, returned, load_error, constraint_error, pure, ◌>>=◌, ◌>>◌, act, checked, target_value,
  type_error, require, add_name_component, remove_name_component,
}
use coreland_lua_ada_load.Loader.Values.{image, value_type_is, key_type, key_float, key_string}

-- Fixed_Strings.Trim (..., Left)
unfoldable pub trim_left : Bytes → Bytes
trim_left [] = []
trim_left (c ∷ cs) = if c == b' ' then trim_left cs else c ∷ cs

-- A handler of Load_Error that raises it again.
abbrev pub on_load_error : {L A : Type 0} → M L (Unit {0}) → M L A → M L A
on_load_error handler m s = elim (m s) [
  | returned a s' ↦ returned a s'
  | load_error s' ↦ (handler >>= λ _ t. load_error t) s'
  | constraint_error ↦ constraint_error
]

module _ {L N : Type 0} (lua : Binding L N) where
  -- `if Value_Type_Is (State, Lua.T_Table) = False then Type_Error (...)`
  unfoldable pub require_table : Bytes → M L (Unit {0})
  unfolding value_type_is type_error
  require_table name = do
    right ← value_type_is lua table_type
    require lua right (type_error lua target_value table_type name)

  unfoldable pub table_start : Bytes → M L (Unit {0})
  unfolding require_table add_name_component
  table_start name = do act (lua.get_field name); require_table name; add_name_component name

  unfoldable pub table_end : M L (Unit {0})
  unfolding require_table remove_name_component
  table_end = do require_table []; remove_name_component; act lua.pop

  -- The component for a key, and whether it was added.
  unfoldable pub add_key : LuaType → M L Bool
  unfolding add_name_component key_float key_string image trim_left
  add_key number_type = do
    f_index ← key_float lua
    index ← checked (lua.integer f_index)
    add_name_component (b'[' ∷ (trim_left (image index) ++ codes "]"))
    pure true
  add_key string_type = do name ← key_string lua; add_name_component name; pure true
  add_key _ = pure false

  abbrev pub remove_if : Bool → M L (Unit {0})
  remove_if added = if added then remove_name_component else pure tt

  -- The body of the loop.
  unfoldable pub visit : M L (Unit {0}) → M L (Unit {0})
  unfolding add_key key_type remove_name_component
  visit process = do
    type ← key_type lua
    added ← add_key type
    on_load_error (remove_if added) process
    remove_if added
    act lua.pop

  -- Whether Lua.Next gave another pair.
  abbrev pub advance : M L Bool
  advance s = returned (lua.next s.lua).0 (record s { lua = (lua.next s.lua).1 })

  -- The loop, for at most `fuel` rounds; the result is false if there are more.
  unfoldable pub iterate : ℕ → M L (Unit {0}) → M L Bool
  unfolding visit
  iterate zero process = pure false
  iterate (suc fuel) process = do
    more ← advance
    let rest = visit process >> iterate fuel process
    if more then rest else pure true

  -- The result is false if the rounds did not suffice.
  unfoldable pub table_iterate : ℕ → M L (Unit {0}) → M L Bool
  unfolding require_table iterate
  table_iterate fuel process = do require_table []; act lua.push_nil; iterate fuel process
