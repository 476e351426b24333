-- ===== src/Loader/Fields.antt =====
-- lua-load.adb: what the retrieval of a field gives, against the fields of the table.
use coreland_lua_ada_load.Base.{
  Bytes, Option, none, some, List, ◌∷◌, ◌≡◌, refl, sym, ap, ◌∙◌, arith, ℤ,
}
use coreland_lua_ada_load.Loader.Binding.{LuaType, number_type, string_type, Binding}
use coreland_lua_ada_load.Loader.State.{
  State, M, Outcome, returned, load_error, constraint_error, ◌>>=◌, ◌>>◌, checked, target_value,
  type_message, type_error,
}
use coreland_lua_ada_load.Loader.Values.{
  image, want, unless_nil, value_type_is, value_type, float_from_stack, string_from_stack,
  named_local_float, named_local_string, named_local_integer, named_local_conditional_float,
  named_local_conditional_string, named_local_conditional_integer, indexed_local_float,
  indexed_local_string, indexed_local_integer, indexed_local_conditional_float,
  indexed_local_conditional_string, indexed_local_conditional_integer,
}
use coreland_lua_ada_load.Loader.Stack.{
  LuaValue, nil_value, number_value, string_value, table_value, Contents, IsStack, Unchanged,
}

-- The value as a number, or as a string.
abbrev pub as_number : {T N : Type 0} → LuaValue T N → Option N
as_number (number_value n) = some n
as_number _ = none

abbrev pub as_string : {T N : Type 0} → LuaValue T N → Option Bytes
as_string (string_value b) = some b
as_string _ = none

-- The default for nil.
abbrev pub or_default : {T N A : Type 0} → LuaValue T N → A → Option A → Option A
or_default nil_value default read = some default
or_default _ default read = read

module _ {L N T : Type 0} (lua : Binding L N) (c : Contents T N) (stack : L → List (LuaValue T N))
    (laws : IsStack lua c stack) where
  -- The run returns what is read, or raises Load_Error with the message for the name, and leaves
  -- the stack and the names as they were.
  abbrev pub Reads : {A : Type 0} → State L → LuaType → Bytes → Option A → Outcome L A → Type 0
  Reads s expected name (some a) (returned b s') = (b ≡ a) × Unchanged stack s s'
  Reads s expected name none (load_error s') =
      (s'.err_string ≡ type_message lua s.name_code target_value expected name)
      × Unchanged stack s s'
  Reads s expected name _ _ = ⊥

  -- The number that is read is converted to Long_Integer: out of range it is a Constraint_Error.
  abbrev pub Converts : State L → Bytes → Option N → Outcome L ℤ → Type 0
  Converts s name (some n) (returned i s') = (lua.long_integer n ≡ some i) × Unchanged stack s s'
  Converts s name (some n) constraint_error = lua.long_integer n ≡ none
  Converts s name none (load_error s') =
      (s'.err_string ≡ type_message lua s.name_code target_value number_type name)
      × Unchanged stack s s'
  Converts s name _ _ = ⊥

  Reads-Converts :
      (s : State L) (name : Bytes) (read : Option N) (m : M L N) (u : State L)
      → Reads s number_type name read (m u)
      → Converts s name read ((m >>= λ n. checked (lua.long_integer n)) u)
  Reads-Converts s name read m u h = at read (m u) h
    where
      kept :
          (n b : N) (s' : State L)
          → b ≡ n
          → Unchanged stack s s'
          → (o : Option ℤ) → lua.long_integer b ≡ o
          → Converts s name (some n) (checked o s')
      kept n b s' e h none q = ap lua.long_integer (sym e) ∙ q
      kept n b s' e h (some i) q = (ap lua.long_integer (sym e) ∙ q, h)

      at :
          (read : Option N) (o : Outcome L N)
          → Reads s number_type name read o
          → Converts s name read (((λ (_ : State L). o) >>= λ n. checked (lua.long_integer n)) u)
      at (some n) (returned b s') (e, h) = kept n b s' e h (lua.long_integer b) refl
      at (some n) (load_error s') h = absurd h
      at (some n) constraint_error h = absurd h
      at none (returned b s') h = absurd h
      at none (load_error s') h = h
      at none constraint_error h = absurd h

  module _ (s : State L) (t : T) (rest : List (LuaValue T N))
      (top : stack s.lua ≡ table_value t ∷ rest) where
    -- A value is on top of the table that it was read from.
    record IsRead (u : State L) (v : LuaValue T N) : Type 0 where
      read : stack u.lua ≡ v ∷ table_value t ∷ rest
      code : u.name_code ≡ s.name_code
      depth : u.name_depth ≡ s.name_depth
      file : u.name_file ≡ s.name_file

    string_taken :
        (name : Bytes) (u : State L) (v : LuaValue T N)
        → IsRead u v
        → Reads s string_type name
            (as_string v)
            ((want lua string_type name >> string_from_stack lua) u)
    unfolding want string_from_stack value_type_is value_type type_error
    string_taken name u (string_value b) h = ground (
      arith,
      laws.type_of-top u.lua (string_value b) (table_value t ∷ rest) h.read,
      laws.to_string-top u.lua b (table_value t ∷ rest) h.read,
      laws.pop-stack u.lua (string_value b) (table_value t ∷ rest) h.read,
    )
    string_taken name u v h = ground (
      arith,
      laws.type_of-top u.lua v (table_value t ∷ rest) h.read,
      laws.pop-stack u.lua v (table_value t ∷ rest) h.read,
    )

    float_taken :
        (name : Bytes) (u : State L) (v : LuaValue T N)
        → IsRead u v
        → Reads s number_type name
            (as_number v)
            ((want lua number_type name >> float_from_stack lua) u)
    unfolding want float_from_stack value_type_is value_type type_error
    float_taken name u (number_value n) h = ground (
      arith,
      laws.type_of-top u.lua (number_value n) (table_value t ∷ rest) h.read,
      laws.to_number-top u.lua n (table_value t ∷ rest) h.read,
      laws.pop-stack u.lua (number_value n) (table_value t ∷ rest) h.read,
    )
    float_taken name u v h = ground (
      arith,
      laws.type_of-top u.lua v (table_value t ∷ rest) h.read,
      laws.pop-stack u.lua v (table_value t ∷ rest) h.read,
    )

    nil_taken :
        {A : Type 0} (expected : LuaType) (name : Bytes) (default : A) (read : Option A) (m : M L A)
        (u : State L) (v : LuaValue T N)
        → IsRead u v
        → Reads s expected name read (m u)
        → Reads s expected name (or_default v default read) (unless_nil lua default m u)
    unfolding unless_nil value_type_is value_type
    nil_taken expected name default read m u nil_value h k = ground (
      arith,
      laws.type_of-top u.lua nil_value (table_value t ∷ rest) h.read,
      laws.pop-stack u.lua nil_value (table_value t ∷ rest) h.read,
    )
    nil_taken expected name default read m u v h k =
        rw (laws.type_of-top u.lua v (table_value t ∷ rest) h.read) k

    named : (name : Bytes) → IsRead (record s { lua = lua.get_field name s.lua }) (c.field t name)
    named name = record {
      read = laws.get_field-stack s.lua t name rest top;
      code = refl;
      depth = refl;
      file = refl;
    }

    indexed :
        (index : ℤ)
        → IsRead
            (record s { lua = lua.get_table (lua.push_integer index s.lua) })
            (c.element t index)
    indexed index = record {
      read = laws.get_table-stack s.lua t index rest top;
      code = refl;
      depth = refl;
      file = refl;
    }

    float_named :
        (name : Bytes)
        → Reads s number_type name (as_number (c.field t name)) (named_local_float lua name s)
    unfolding named_local_float
    float_named name = float_taken name _ _ (named name)

    default_named :
        (name : Bytes) (number : N)
        → Reads s number_type name
            (or_default (c.field t name) number (as_number (c.field t name)))
            (named_local_conditional_float lua name number s)
    unfolding named_local_conditional_float
    default_named name number =
        nil_taken number_type name number _ _ _ _ (named name) (float_taken name _ _ (named name))

    float_indexed :
        (index : ℤ)
        → Reads s number_type
            (image index)
            (as_number (c.element t index))
            (indexed_local_float lua index s)
    unfolding indexed_local_float
    float_indexed index = float_taken (image index) _ _ (indexed index)

    default_indexed :
        (index : ℤ) (number : N)
        → Reads s number_type
            (image index)
            (or_default (c.element t index) number (as_number (c.element t index)))
            (indexed_local_conditional_float lua index number s)
    unfolding indexed_local_conditional_float
    default_indexed index number =
        nil_taken number_type (image index) number _ _ _ _ (indexed index)
          (float_taken (image index) _ _ (indexed index))

    -- With a table on top of the stack, the strings and numbers that are read by name are the
    -- table's fields and those read by index its elements; a nil gives the default of the
    -- conditional functions, and any other type raises Load_Error with the message for the name
    -- or the index. An integer is the number, or the default as a floating point number, converted
    -- to Long_Integer, and a Constraint_Error where it is out of range. But for that error the
    -- stack and the names are left as they were.
    pub fields_read :
        (name : Bytes) (index : ℤ) (text : Bytes) (number : N) (integer : ℤ)
        → let v = c.field t name in
          let e = c.element t index in
          let at = image index in
          Reads s string_type name (as_string v) (named_local_string lua name s)
          × Reads s number_type name (as_number v) (named_local_float lua name s)
          × Converts s name (as_number v) (named_local_integer lua name s)
          × Reads s string_type name
              (or_default v text (as_string v))
              (named_local_conditional_string lua name text s)
          × Reads s number_type name
              (or_default v number (as_number v))
              (named_local_conditional_float lua name number s)
          × Converts s name
              (or_default v (lua.long_float integer) (as_number v))
              (named_local_conditional_integer lua name integer s)
          × Reads s string_type at (as_string e) (indexed_local_string lua index s)
          × Reads s number_type at (as_number e) (indexed_local_float lua index s)
          × Converts s at (as_number e) (indexed_local_integer lua index s)
          × Reads s string_type at
              (or_default e text (as_string e))
              (indexed_local_conditional_string lua index text s)
          × Reads s number_type at
              (or_default e number (as_number e))
              (indexed_local_conditional_float lua index number s)
          × Converts s at
              (or_default e (lua.long_float integer) (as_number e))
              (indexed_local_conditional_integer lua index integer s)
    unfolding named_local_string named_local_integer named_local_conditional_string
        named_local_conditional_integer indexed_local_string indexed_local_integer
        indexed_local_conditional_string indexed_local_conditional_integer
    fields_read name index text number integer = (
      string_taken name _ _ (named name),
      float_named name,
      Reads-Converts s name _ (named_local_float lua name) s (float_named name),
      nil_taken string_type name text _ _ _ _ (named name) (string_taken name _ _ (named name)),
      default_named name number,
      Reads-Converts s name _ (named_local_conditional_float lua name (lua.long_float integer)) s
          (default_named name (lua.long_float integer)),
      string_taken (image index) _ _ (indexed index),
      float_indexed index,
      Reads-Converts s (image index) _ (indexed_local_float lua index) s (float_indexed index),
      nil_taken string_type (image index) text _ _ _ _ (indexed index)
          (string_taken (image index) _ _ (indexed index)),
      default_indexed index number,
      Reads-Converts s (image index) _
          (indexed_local_conditional_float lua index (lua.long_float integer)) s
          (default_indexed index (lua.long_float integer)),
    )
