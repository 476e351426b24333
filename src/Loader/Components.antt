-- ===== src/Loader/Components.antt =====
-- lua-load.adb, Table_Iterate: the component of the name for each key.
use coreland_lua_ada_load.Base.{
  ℕ, ◌+◌, ◌<◌, Bytes, Bool, true, false, Option, none, some, List, [], ◌∷◌, ◌++◌, codes, ◌≡◌, ◌≢◌,
  refl, arith, ℤ, pos, negsuc, fmt_ulong, fmt_ulong-All, All, All-append,
}
use coreland_lua_ada_load.Loader.Binding.{Binding}
use coreland_lua_ada_load.Loader.State.{State, returned, is_empty, joined, last_dot, natural_last}
use coreland_lua_ada_load.Loader.Values.{image, key_type, key_float, key_string, key_type_is}
use coreland_lua_ada_load.Loader.Tables.{trim_left, add_key}
use coreland_lua_ada_load.Loader.Names.{add_name_component_lem}
use coreland_lua_ada_load.Loader.Stack.{
  LuaValue, number_value, string_value, kind, Contents, IsStack,
}

abbrev Undotted : Bytes → Type 0
Undotted = All (λ c. c ≢ b'.')

last_dot-Undotted : (b : Bytes) → Undotted b → last_dot b ≡ 0
unfolding last_dot
last_dot-Undotted [] h = refl
last_dot-Undotted (c ∷ cs) h = ground (arith, last_dot-Undotted cs h.1)

trim_left-Undotted : (b : Bytes) → Undotted b → Undotted (trim_left b)
unfolding trim_left
trim_left-Undotted [] h = tt
trim_left-Undotted (c ∷ cs) h = ground (arith, trim_left-Undotted cs h.1)

fmt_ulong-Undotted : (n : ℕ) → Undotted (fmt_ulong n)
fmt_ulong-Undotted = fmt_ulong-All (λ c. c ≢ b'.') (λ d h e. omega arith)

image-Undotted : (i : ℤ) → Undotted (image i)
unfolding image
image-Undotted (pos n) = ((λ e. omega arith), fmt_ulong-Undotted n)
image-Undotted (negsuc n) = ((λ e. omega arith), fmt_ulong-Undotted (n + 1))

-- The component for a number that is converted to an Integer.
abbrev pub bracketed : ℤ → Bytes
bracketed i = b'[' ∷ (trim_left (image i) ++ codes "]")

pub last_dot-bracketed : (i : ℤ) → last_dot (bracketed i) ≡ 0
last_dot-bracketed i = last_dot-Undotted (bracketed i) (
  (λ e. omega arith),
  All-append (λ c. c ≢ b'.') (trim_left (image i)) (codes "]")
      (trim_left-Undotted (image i) (image-Undotted i)) ((λ e. omega arith), tt),
)

module _ {L N T : Type 0} (lua : Binding L N) where
  -- The key's component can be cut off again: a text that is not empty and has no dot, or a
  -- number in the range of Integer.
  abbrev pub CanName : LuaValue T N → Type 0
  CanName (string_value b) = (is_empty b ≡ false) × (last_dot b ≡ 0)
  CanName (number_value n) = (i : ℤ) × (lua.integer n ≡ some i)
  CanName _ = Unit

  abbrev pub component : LuaValue T N → Option Bytes
  component (string_value b) = some b
  component (number_value n) = elim (lua.integer n) [ none ↦ none | some i ↦ some (bracketed i) ]
  component _ = none

  abbrev pub adds : LuaValue T N → Bool
  adds k = elim (component k) [ none ↦ false | some name ↦ true ]

  -- The name of the table's value at a key.
  abbrev pub named_at : Bytes → LuaValue T N → Bytes
  named_at name_code k = elim (component k) [ none ↦ name_code | some name ↦ joined name_code name ]

  abbrev pub depth_at : ℕ → LuaValue T N → ℕ
  depth_at depth k = elim (component k) [ none ↦ depth | some name ↦ depth + 1 ]

  module _ (c : Contents T N) (stack : L → List (LuaValue T N)) (laws : IsStack lua c stack) where
    -- The component of a key is added.
    pub add_key_lem :
        (k v : LuaValue T N) (rest : List (LuaValue T N)) (s : State L)
        → stack s.lua ≡ v ∷ k ∷ rest
        → s.name_depth < natural_last
        → CanName k
        → add_key lua (kind k) s
          ≡ returned (adds k) (record s {
            name_code = named_at s.name_code k;
            name_depth = depth_at s.name_depth k;
          })
    unfolding add_key key_float key_string key_type_is key_type
    add_key_lem (string_value b) v rest s e room h = ground (
      arith,
      laws.type_of-below s.lua v (string_value b) rest e,
      laws.to_string-below s.lua v b rest e,
      add_name_component_lem b s room,
    )
    add_key_lem (number_value n) v rest s e room (i, conv) = ground (
      arith,
      laws.type_of-below s.lua v (number_value n) rest e,
      laws.to_number-below s.lua v n rest e,
      add_name_component_lem (bracketed i) s room,
    )
    add_key_lem k v rest s e room h = refl
