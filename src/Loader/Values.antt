-- ===== src/Loader/Values.antt =====
-- lua-load.adb: keys, locals, named and indexed fields. The overloads of a function are told
-- apart by the type that they return.
use coreland_lua_ada_load.Base.{◌+◌, Bytes, Bool, [], ◌∷◌, if◌then◌else◌, ℤ, pos, negsuc, fmt_ulong}
use coreland_lua_ada_load.Loader.Binding.{
  LuaType, nil_type, number_type, string_type, type_eq, Binding,
}
use coreland_lua_ada_load.Loader.State.{
  M, pure, ◌>>=◌, ◌>>◌, ask, act, checked, target_key, target_value, type_error, require,
}

-- Long_Integer'Image: a space in front of a number that is not negative.
unfoldable pub image : ℤ → Bytes
unfolding fmt_ulong
image (pos n) = b' ' ∷ fmt_ulong n
image (negsuc n) = b'-' ∷ fmt_ulong (n + 1)

module _ {L N : Type 0} (lua : Binding L N) where
  unfoldable pub float_from_stack : M L N
  float_from_stack = do number ← ask (lua.to_number 1); act lua.pop; pure number

  unfoldable pub string_from_stack : M L Bytes
  string_from_stack = do us ← ask (lua.to_string 1); act lua.pop; pure us

  unfoldable pub key_type : M L LuaType
  key_type = ask (lua.type_of 2)

  unfoldable pub key_type_is : LuaType → M L Bool
  unfolding key_type
  key_type_is type_value = do type ← key_type; pure (type_eq type type_value)

  unfoldable pub value_type : M L LuaType
  value_type = ask (lua.type_of 1)

  unfoldable pub value_type_is : LuaType → M L Bool
  unfolding value_type
  value_type_is type_value = do type ← value_type; pure (type_eq type type_value)

  unfoldable pub key_float : M L N
  unfolding key_type_is type_error
  key_float = do
    require lua (← key_type_is number_type) (type_error lua target_key number_type [])
    ask (lua.to_number 2)

  unfoldable pub key_integer : M L ℤ
  unfolding key_float
  key_integer = do temp_float ← key_float; checked (lua.long_integer temp_float)

  unfoldable pub key_string : M L Bytes
  unfolding key_type_is type_error
  key_string = do
    require lua (← key_type_is string_type) (type_error lua target_key string_type [])
    ask (lua.to_string 2)

  -- `Lua.Pop (...); Type_Error (...);` where the value has another type than the wanted one.
  unfoldable pub want : LuaType → Bytes → M L (Unit {0})
  unfolding value_type_is type_error
  want expected name = do
    right ← value_type_is expected
    require lua right (act lua.pop >> type_error lua target_value expected name)

  unfoldable pub local_float : M L N
  unfolding want
  local_float = do want number_type []; ask (lua.to_number 1)

  unfoldable pub local_integer : M L ℤ
  unfolding want
  local_integer = do
    want number_type []
    number ← ask (lua.to_number 1)
    checked (lua.long_integer number)

  unfoldable pub local_string : M L Bytes
  unfolding want
  local_string = do want string_type []; ask (lua.to_string 1)

  -- A nil is popped and gives the default; else the rest runs.
  unfoldable pub unless_nil : {A : Type 0} → A → M L A → M L A
  unfolding value_type_is
  unless_nil default rest = do
    missing ← value_type_is nil_type
    if missing then (act lua.pop >> pure default) else rest

  unfoldable pub local_conditional_float : N → M L N
  unfolding unless_nil local_float
  local_conditional_float default = unless_nil default local_float

  unfoldable pub local_conditional_integer : ℤ → M L ℤ
  unfolding local_conditional_float
  local_conditional_integer default = do
    number ← local_conditional_float (lua.long_float default)
    checked (lua.long_integer number)

  unfoldable pub local_conditional_string : Bytes → M L Bytes
  unfolding unless_nil local_string
  local_conditional_string default = unless_nil default local_string

  unfoldable pub named_local_float : Bytes → M L N
  unfolding want float_from_stack
  named_local_float name = do act (lua.get_field name); want number_type name; float_from_stack

  unfoldable pub named_local_integer : Bytes → M L ℤ
  unfolding named_local_float
  named_local_integer name = do
    temp_float ← named_local_float name
    checked (lua.long_integer temp_float)

  unfoldable pub named_local_string : Bytes → M L Bytes
  unfolding want string_from_stack
  named_local_string name = do act (lua.get_field name); want string_type name; string_from_stack

  unfoldable pub named_local_conditional_float : Bytes → N → M L N
  unfolding unless_nil want float_from_stack
  named_local_conditional_float name default = do
    act (lua.get_field name)
    unless_nil default (do want number_type name; float_from_stack)

  unfoldable pub named_local_conditional_integer : Bytes → ℤ → M L ℤ
  unfolding named_local_conditional_float
  named_local_conditional_integer name default = do
    number ← named_local_conditional_float name (lua.long_float default)
    checked (lua.long_integer number)

  unfoldable pub named_local_conditional_string : Bytes → Bytes → M L Bytes
  unfolding unless_nil want string_from_stack
  named_local_conditional_string name default = do
    act (lua.get_field name)
    unless_nil default (do want string_type name; string_from_stack)

  -- `Lua.Push_Integer (...); Lua.Get_Table (...);`
  abbrev pub get_index : ℤ → M L (Unit {0})
  get_index index = do act (lua.push_integer index); act lua.get_table

  unfoldable pub indexed_local_string : ℤ → M L Bytes
  unfolding want string_from_stack image
  indexed_local_string index = do get_index index; want string_type (image index); string_from_stack

  unfoldable pub indexed_local_float : ℤ → M L N
  unfolding want float_from_stack image
  indexed_local_float index = do get_index index; want number_type (image index); float_from_stack

  unfoldable pub indexed_local_integer : ℤ → M L ℤ
  unfolding indexed_local_float
  indexed_local_integer index = do
    temp_float ← indexed_local_float index
    checked (lua.long_integer temp_float)

  unfoldable pub indexed_local_conditional_string : ℤ → Bytes → M L Bytes
  unfolding unless_nil want string_from_stack image
  indexed_local_conditional_string index default = do
    get_index index
    unless_nil default (do want string_type (image index); string_from_stack)

  unfoldable pub indexed_local_conditional_float : ℤ → N → M L N
  unfolding unless_nil want float_from_stack image
  indexed_local_conditional_float index default = do
    get_index index
    unless_nil default (do want number_type (image index); float_from_stack)

  unfoldable pub indexed_local_conditional_integer : ℤ → ℤ → M L ℤ
  unfolding indexed_local_conditional_float
  indexed_local_conditional_integer index default = do
    number ← indexed_local_conditional_float index (lua.long_float default)
    checked (lua.long_integer number)
