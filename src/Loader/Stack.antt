-- ===== src/Loader/Stack.antt =====
-- What the Lua binding promises of its stack, on values in which a table is of a type `T` with
-- its fields, its elements and the pair that follows a key.
use coreland_lua_ada_load.Base.{Bytes, true, false, Option, none, some, List, ◌∷◌, ◌≡◌, ℤ}
use coreland_lua_ada_load.Loader.Binding.{
  LuaType, nil_type, boolean_type, light_user_data_type, number_type, string_type, table_type,
  function_type, user_data_type, thread_type, Binding,
}
use coreland_lua_ada_load.Loader.State.{State}

pub data LuaValue (T N : Type 0) : Type 0 where
  nil_value boolean_value light_user_data_value : LuaValue T N
  number_value : N → LuaValue T N
  string_value : Bytes → LuaValue T N
  table_value : T → LuaValue T N
  function_value user_data_value thread_value : LuaValue T N

abbrev pub kind : {T N : Type 0} → LuaValue T N → LuaType
kind nil_value = nil_type
kind boolean_value = boolean_type
kind light_user_data_value = light_user_data_type
kind (number_value n) = number_type
kind (string_value b) = string_type
kind (table_value t) = table_type
kind function_value = function_type
kind user_data_value = user_data_type
kind thread_value = thread_type

pub record Contents (T N : Type 0) : Type 0 where
  pub field : T → Bytes → LuaValue T N
  pub element : T → ℤ → LuaValue T N
  pub following : T → LuaValue T N → Option (LuaValue T N × LuaValue T N)

-- Top first.
abbrev pub LuaStack : Type 0 → Type 0 → Type 0
LuaStack T N = List (LuaValue T N)

pub record IsStack {L N T : Type 0} (lua : Binding L N) (c : Contents T N)
    (stack : L → LuaStack T N) : Type 0 where
  pub type_of-top :
      (l : L) (v : LuaValue T N) (rest : LuaStack T N)
      → stack l ≡ v ∷ rest
      → lua.type_of 1 l ≡ kind v
  pub type_of-below :
      (l : L) (v k : LuaValue T N) (rest : LuaStack T N)
      → stack l ≡ v ∷ k ∷ rest
      → lua.type_of 2 l ≡ kind k
  pub to_number-top :
      (l : L) (n : N) (rest : LuaStack T N)
      → stack l ≡ number_value n ∷ rest
      → lua.to_number 1 l ≡ n
  pub to_number-below :
      (l : L) (v : LuaValue T N) (n : N) (rest : LuaStack T N)
      → stack l ≡ v ∷ number_value n ∷ rest
      → lua.to_number 2 l ≡ n
  pub to_string-top :
      (l : L) (b : Bytes) (rest : LuaStack T N)
      → stack l ≡ string_value b ∷ rest
      → lua.to_string 1 l ≡ b
  pub to_string-below :
      (l : L) (v : LuaValue T N) (b : Bytes) (rest : LuaStack T N)
      → stack l ≡ v ∷ string_value b ∷ rest
      → lua.to_string 2 l ≡ b
  pub pop-stack :
      (l : L) (v : LuaValue T N) (rest : LuaStack T N)
      → stack l ≡ v ∷ rest
      → stack (lua.pop l) ≡ rest
  pub get_field-stack :
      (l : L) (t : T) (name : Bytes) (rest : LuaStack T N)
      → stack l ≡ table_value t ∷ rest
      → stack (lua.get_field name l) ≡ c.field t name ∷ table_value t ∷ rest
  pub get_table-stack :
      (l : L) (t : T) (index : ℤ) (rest : LuaStack T N)
      → stack l ≡ table_value t ∷ rest
      → stack (lua.get_table (lua.push_integer index l)) ≡ c.element t index ∷ table_value t ∷ rest
  pub push_nil-stack : (l : L) → stack (lua.push_nil l) ≡ nil_value ∷ stack l
  pub next-stack :
      (l : L) (t : T) (k k' v' : LuaValue T N) (rest : LuaStack T N)
      → stack l ≡ k ∷ table_value t ∷ rest
      → c.following t k ≡ some (k', v')
      → ((lua.next l).0 ≡ true) × (stack (lua.next l).1 ≡ v' ∷ k' ∷ table_value t ∷ rest)
  pub next-end :
      (l : L) (t : T) (k : LuaValue T N) (rest : LuaStack T N)
      → stack l ≡ k ∷ table_value t ∷ rest
      → c.following t k ≡ none
      → ((lua.next l).0 ≡ false) × (stack (lua.next l).1 ≡ table_value t ∷ rest)

-- The stack and the names of the second state are those of the first.
abbrev pub Unchanged : {L S : Type 0} → (L → S) → State L → State L → Type 0
Unchanged stack s s' =
    (stack s'.lua ≡ stack s.lua)
    × (s'.name_code ≡ s.name_code)
    × (s'.name_depth ≡ s.name_depth)
    × (s'.name_file ≡ s.name_file)
