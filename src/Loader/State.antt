-- ===== src/Loader/State.antt =====
-- lua-load.adb: State_t, the name of the table that is being read, and Type_Error. A subprogram
-- is a run on State_t that returns, or raises Load_Error or Constraint_Error.
use coreland_lua_ada_load.Base.{
  ℕ, ◌+◌, ◌-◌, ◌^◌, Bytes, Bool, true, false, Option, none, some, [], ◌∷◌, ◌++◌, ◌==◌,
  if◌then◌else◌, codes, take,
}
use coreland_lua_ada_load.Loader.Binding.{LuaType, Binding}

pub record State (L : Type 0) : Type 0 where
  pub lua : L
  pub name_depth : ℕ
  pub name_code : Bytes
  pub name_file : Bytes
  pub err_string : Bytes

pub data Outcome (L A : Type 0) : Type 0 where
  returned : A → State L → Outcome L A
  load_error : State L → Outcome L A
  constraint_error : Outcome L A

abbrev pub M : Type 0 → Type 0 → Type 0
M L A = State L → Outcome L A

abbrev pub pure : {L A : Type 0} → A → M L A
pure a s = returned a s

infixl 5 ◌>>=◌ ◌>>◌
abbrev pub ◌>>=◌ : {L A B : Type 0} → M L A → (A → M L B) → M L B
◌>>=◌ m f s = elim (m s) [
  | returned a s' ↦ f a s'
  | load_error s' ↦ load_error s'
  | constraint_error ↦ constraint_error
]

abbrev pub ◌>>◌ : {L B : Type 0} → M L (Unit {0}) → M L B → M L B
m >> k = m >>= λ _. k

-- A query of the Lua state, and a change of it.
abbrev pub ask : {L A : Type 0} → (L → A) → M L A
ask f s = returned (f s.lua) s

abbrev pub act : {L : Type 0} → (L → L) → M L (Unit {0})
act f s = returned tt (record s { lua = f s.lua })

-- A conversion that may be out of range.
abbrev pub checked : {L A : Type 0} → Option A → M L A
checked none s = constraint_error
checked (some a) s = returned a s

-- Natural'Last
abbrev pub natural_last : ℕ
natural_last = 2 ^ 31 - 1

abbrev pub is_empty : Bytes → Bool
is_empty [] = true
is_empty (c ∷ cs) = false

abbrev pub joined : Bytes → Bytes → Bytes
joined name_code name = (if is_empty name_code then [] else name_code ++ codes ".") ++ name

unfoldable pub add_name_component : {L : Type 0} → Bytes → M L (Unit {0})
add_name_component name s =
    if s.name_depth == natural_last
    then constraint_error
    else returned tt
        (record s { name_code = joined s.name_code name; name_depth = s.name_depth + 1 })

-- UB_Strings.Index (S, ".", Length, Backward): the place of the last dot, from 1, or 0.
unfoldable pub last_dot : Bytes → ℕ
last_dot [] = 0
last_dot (c ∷ cs) = let n = last_dot cs in if n == 0 then (if c == b'.' then 1 else 0) else n + 1

-- The parameter From of Index is Positive, and Name_Depth is Natural.
unfoldable pub remove_name_component : {L : Type 0} → M L (Unit {0})
unfolding last_dot
remove_name_component s =
    if is_empty s.name_code
    then constraint_error
    else if s.name_depth == 0
    then constraint_error
    else returned tt (record s {
      name_code = take (last_dot s.name_code - 1) s.name_code;
      name_depth = s.name_depth - 1;
    })

pub data Target : Type 0 where
  target_key target_value : Target

abbrev pub target_name : Target → Bytes
target_name target_key = codes "Key"
target_name target_value = codes "value"

abbrev pub prefixed : Bytes → Bytes → Bytes
prefixed name text = if is_empty name then text else name ++ (codes ": " ++ text)

module _ {L N : Type 0} (lua : Binding L N) where
  abbrev pub type_message : Bytes → Target → LuaType → Bytes → Bytes
  type_message name_code target expected name =
      prefixed name_code
        (prefixed name (target_name target ++ (codes ": not a " ++ lua.type_name expected)))

  unfoldable pub type_error : {A : Type 0} → Target → LuaType → Bytes → M L A
  type_error target expected name s =
      load_error (record s { err_string = type_message s.name_code target expected name })

  abbrev pub require : Bool → M L (Unit {0}) → M L (Unit {0})
  require true otherwise = pure tt
  require false otherwise = otherwise

unfoldable pub set_lua : {L : Type 0} → L → M L (Unit {0})
set_lua lua s = returned tt (record s { lua = lua })

unfoldable pub set_file : {L : Type 0} → Bytes → M L (Unit {0})
set_file file s = returned tt (record s { name_file = file })

unfoldable pub error_string : {L : Type 0} → M L Bytes
error_string s = returned s.err_string s

unfoldable pub name_code_of : {L : Type 0} → M L Bytes
name_code_of s = returned s.name_code s
