-- ===== src/Loader/Binding.antt =====
-- The Lua binding, which is another repository's, as a record of the operations that
-- lua-load.adb uses on a Lua state `L`; numbers are of a type `N`. An index counts from the top
-- of the stack: 1 is Lua's -1.
use coreland_lua_ada_load.Base.{ℕ, Bytes, Bool, true, false, Option, ℤ}

-- Lua.Type_t
pub data LuaType : Type 0 where
  none_type nil_type boolean_type light_user_data_type number_type string_type : LuaType
  table_type function_type user_data_type thread_type : LuaType

abbrev pub type_eq : LuaType → LuaType → Bool
type_eq none_type none_type = true
type_eq nil_type nil_type = true
type_eq boolean_type boolean_type = true
type_eq light_user_data_type light_user_data_type = true
type_eq number_type number_type = true
type_eq string_type string_type = true
type_eq table_type table_type = true
type_eq function_type function_type = true
type_eq user_data_type user_data_type = true
type_eq thread_type thread_type = true
type_eq _ _ = false

pub record Binding (L N : Type 0) : Type 0 where
  pub type_of : ℕ → L → LuaType
  pub to_number : ℕ → L → N
  pub to_string : ℕ → L → Bytes
  -- Lua.Pop (State, 1)
  pub pop : L → L
  -- Lua.Get_Field (State, -1, Name)
  pub get_field : Bytes → L → L
  pub push_integer : ℤ → L → L
  -- Lua.Get_Table (State, -2)
  pub get_table : L → L
  pub push_nil : L → L
  -- Lua.Next (State, -2), and whether it is not 0
  pub next : L → Bool × L
  pub type_name : LuaType → Bytes
  -- The conversions of Ada between Long_Float and the integer types; none is Constraint_Error.
  pub long_integer : N → Option ℤ
  pub integer : N → Option ℤ
  pub long_float : ℤ → N
