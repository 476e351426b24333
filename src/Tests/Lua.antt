-- ===== src/Tests/Lua.antt =====
-- A small Lua: tables are lists of pairs, numbers are natural, and a trace is kept beside the
-- stack. The loader's theorems at it.
use coreland_lua_ada_load.Base.{
  ℕ, Bytes, Bool, true, false, Option, none, some, List, [], ◌∷◌, ◌++◌, ◌==◌, if◌then◌else◌, codes,
  bytes_eq, fmt_ulong, ◌≡◌, refl, ◌∙◌, ap, arith, ℤ, pos, negsuc,
}
use coreland_lua_ada_load.Loader.Binding.{LuaType, number_type, string_type, Binding}
use coreland_lua_ada_load.Loader.State.{
  State, M, Outcome, returned, load_error, ◌>>◌, last_dot, add_name_component,
  remove_name_component,
}
use coreland_lua_ada_load.Loader.Values.{
  image, named_local_string, named_local_float, named_local_integer, named_local_conditional_string,
  named_local_conditional_float, named_local_conditional_integer, indexed_local_string,
  indexed_local_float, indexed_local_integer, indexed_local_conditional_string,
  indexed_local_conditional_float, indexed_local_conditional_integer,
}
use coreland_lua_ada_load.Loader.Tables.{trim_left, table_start, table_end, visit, table_iterate}
use coreland_lua_ada_load.Loader.Names.{remove-add}
use coreland_lua_ada_load.Loader.Fields.{Reads, Converts, fields_read}
use coreland_lua_ada_load.Loader.Iterate.{
  Iterated, table_iterate-Iterated, table_start-end, table_start-left,
}
use coreland_lua_ada_load.Loader.Stack.{
  LuaValue, nil_value, number_value, string_value, table_value, kind, Contents, IsStack, Unchanged,
}
use coreland_lua_ada_load.Loader.Visit.{Entry, IsVisitor, visit-load_error}

abbrev pub Numbers : Type 0
Numbers = List (ℕ × Bytes)

-- The only table type: numbers as keys, strings as values; its one field is itself.
abbrev pub Value : Type 0
Value = LuaValue Numbers ℕ

pub record Lua : Type 0 where
  pub values : List Value
  pub trace : List (Entry Numbers ℕ)

abbrev pub first : List Value → Value
first [] = nil_value
first (v ∷ vs) = v

abbrev pub others : List Value → List Value
others [] = []
others (v ∷ vs) = vs

abbrev number_of : Value → ℕ
number_of (number_value n) = n
number_of _ = 0

abbrev string_of : Value → Bytes
string_of (string_value b) = b
string_of _ = []

abbrev look : Numbers → ℕ → Value
look [] n = nil_value
look ((k, b) ∷ t) n = if k == n then string_value b else look t n

abbrev element : Numbers → ℤ → Value
element t (pos n) = look t n
element t (negsuc n) = nil_value

abbrev field : Numbers → Bytes → Value
field t name = if bytes_eq name (codes "self") then table_value t else nil_value

abbrev head_pair : Numbers → Option (Value × Value)
head_pair [] = none
head_pair ((k, b) ∷ t) = some (number_value k, string_value b)

abbrev after : Numbers → ℕ → Option (Value × Value)
after [] n = none
after ((k, b) ∷ t) n = if k == n then head_pair t else after t n

abbrev following : Numbers → Value → Option (Value × Value)
following t nil_value = head_pair t
following t (number_value n) = after t n
following t _ = none

abbrev pub contents : Contents Numbers ℕ
contents = record { field = field; element = element; following = following }

abbrev read_field : Bytes → List Value → List Value
read_field name (table_value t ∷ vs) = field t name ∷ table_value t ∷ vs
read_field name vs = vs

abbrev read_element : List Value → List Value
read_element (number_value n ∷ table_value t ∷ vs) = look t n ∷ table_value t ∷ vs
read_element (nil_value ∷ vs) = nil_value ∷ vs
read_element vs = vs

abbrev as_key : ℤ → Value
as_key (pos n) = number_value n
as_key (negsuc n) = nil_value

abbrev advance : Option (Value × Value) → Value → List Value → Bool × List Value
advance none t vs = (false, t ∷ vs)
advance (some (k, v)) t vs = (true, v ∷ k ∷ t ∷ vs)

abbrev step : List Value → Bool × List Value
step (k ∷ table_value t ∷ vs) = advance (following t k) (table_value t) vs
step vs = (false, vs)

abbrev pub lua : Binding Lua ℕ
lua = record {
  type_of = λ i l. if i == 1 then kind (first l.values) else kind (first (others l.values));
  to_number = λ i l. number_of (if i == 1 then first l.values else first (others l.values));
  to_string = λ i l. string_of (if i == 1 then first l.values else first (others l.values));
  pop = λ l. record l { values = others l.values };
  get_field = λ name l. record l { values = read_field name l.values };
  push_integer = λ i l. record l { values = as_key i ∷ l.values };
  get_table = λ l. record l { values = read_element l.values };
  push_nil = λ l. record l { values = nil_value ∷ l.values };
  next = λ l. ((step l.values).0, record l { values = (step l.values).1 });
  type_name = λ t. codes "type";
  long_integer = λ n. some (pos n);
  integer = λ n. some (pos n);
  long_float = λ i. elim i [ pos n ↦ n | negsuc n ↦ 0 ];
}

element_read :
    (t : Numbers) (index : ℤ) (rest : List Value)
    → read_element (as_key index ∷ table_value t ∷ rest) ≡ element t index ∷ table_value t ∷ rest
element_read t (pos n) rest = refl
element_read t (negsuc n) rest = refl

pub lua-IsStack : IsStack lua contents (λ l. l.values)
lua-IsStack = record {
  type_of-top = λ l v rest e. ground arith;
  type_of-below = λ l v k rest e. ground arith;
  to_number-top = λ l n rest e. ground arith;
  to_number-below = λ l v n rest e. ground arith;
  to_string-top = λ l b rest e. ground arith;
  to_string-below = λ l v b rest e. ground arith;
  pop-stack = λ l v rest e. ground arith;
  get_field-stack = λ l t name rest e. ap (read_field name) e;
  get_table-stack =
      λ l t index rest e. ap (λ vs. read_element (as_key index ∷ vs)) e ∙ element_read t index rest;
  push_nil-stack = λ l. refl;
  next-stack = λ l t k k' v' rest e f. (
    ap (λ vs. (step vs).0) e ∙ ap (λ o. (advance o (table_value t) rest).0) f,
    ap (λ vs. (step vs).1) e ∙ ap (λ o. (advance o (table_value t) rest).1) f,
  );
  next-end = λ l t k rest e f. (
    ap (λ vs. (step vs).0) e ∙ ap (λ o. (advance o (table_value t) rest).0) f,
    ap (λ vs. (step vs).1) e ∙ ap (λ o. (advance o (table_value t) rest).1) f,
  );
}

-- Process notes what it is told.
abbrev note : M Lua (Unit {0})
note u = returned tt (record u {
  lua = record u.lua {
    trace = u.lua.trace ++ (u.name_code, first (others u.lua.values), first u.lua.values) ∷ [];
  };
})

note-IsVisitor :
    (t : Numbers) (rest : List Value) → IsVisitor lua (λ l. l.values) t rest (λ l. l.trace) note
note-IsVisitor t rest = record {
  visits = λ u k v e. (
    record u {
      lua = record u.lua {
        trace = u.lua.trace ++ (u.name_code, first (others u.lua.values), first u.lua.values) ∷ [];
      };
    },
    refl,
    (refl, refl, refl, refl),
    ap (λ vs. u.lua.trace ++ (u.name_code, first (others vs), first vs) ∷ []) e,
  );
  trace-pop = λ l. refl;
  trace-next = λ l. refl;
  trace-push_nil = λ l. refl;
}

abbrev pairs : Numbers
pairs = (1, codes "a") ∷ (2, codes "b") ∷ []

abbrev start : State Lua
start = record {
  lua = record { values = table_value pairs ∷ []; trace = [] };
  name_depth = 1;
  name_code = codes "t";
  name_file = [];
  err_string = [];
}

table_iterate-Iterated_example :
    Iterated lua contents
      (λ l. l.values)
      lua-IsStack
      pairs
      []
      (λ l. l.trace)
      note
      (note-IsVisitor pairs [])
      start
      ((number_value 1, string_value (codes "a")) ∷ (number_value 2, string_value (codes "b")) ∷ [])
      (table_iterate lua 3 note start)
table_iterate-Iterated_example =
    table_iterate-Iterated lua contents (λ l. l.values) lua-IsStack pairs [] (λ l. l.trace) note
      (note-IsVisitor pairs [])
      ((number_value 1, string_value (codes "a")) ∷ (number_value 2, string_value (codes "b")) ∷ [])
      3 start refl (refl, (refl, refl)) ((pos 1, refl), ((pos 2, refl), tt)) (omega arith)
      (omega arith)

table_start-end_example :
    (s' : State Lua) × ((table_start lua (codes "self") >> table_end lua) start ≡ returned tt s')
    × Unchanged (λ l. l.values) start s'
unfolding last_dot bytes_eq
table_start-end_example =
    table_start-end lua contents (λ l. l.values) lua-IsStack pairs [] (codes "self") start refl
      pairs refl refl refl (omega arith)

table_start-left_example :
    (s' : State Lua) × (table_start lua (codes "none") start ≡ load_error s')
    × (s'.lua.values ≡ nil_value ∷ table_value pairs ∷ [])
    × (s'.name_code ≡ codes "t")
    × (s'.err_string ≡ codes "t: none: value: not a type")
unfolding bytes_eq
table_start-left_example =
    table_start-left lua contents (λ l. l.values) lua-IsStack pairs [] (codes "none") start refl
      refl

abbrev Gives : {A : Type 0} → LuaType → Bytes → Option A → Outcome Lua A → Type 0
Gives = Reads lua contents (λ l. l.values) lua-IsStack start

abbrev Becomes : Bytes → Option ℕ → Outcome Lua ℤ → Type 0
Becomes = Converts lua contents (λ l. l.values) lua-IsStack start

fields_read_example :
    Gives string_type (codes "x") none (named_local_string lua (codes "x") start)
    × Gives number_type (codes "x") none (named_local_float lua (codes "x") start)
    × Becomes (codes "x") none (named_local_integer lua (codes "x") start)
    × Gives string_type
        (codes "x")
        (some (codes "d"))
        (named_local_conditional_string lua (codes "x") (codes "d") start)
    × Gives number_type (codes "x") (some 7) (named_local_conditional_float lua (codes "x") 7 start)
    × Becomes (codes "x") (some 8) (named_local_conditional_integer lua (codes "x") (pos 8) start)
    × Gives string_type (image (pos 2)) (some (codes "b")) (indexed_local_string lua (pos 2) start)
    × Gives number_type (image (pos 2)) none (indexed_local_float lua (pos 2) start)
    × Becomes (image (pos 2)) none (indexed_local_integer lua (pos 2) start)
    × Gives string_type
        (image (pos 2))
        (some (codes "b"))
        (indexed_local_conditional_string lua (pos 2) (codes "d") start)
    × Gives number_type (image (pos 2)) none (indexed_local_conditional_float lua (pos 2) 7 start)
    × Becomes (image (pos 2)) none (indexed_local_conditional_integer lua (pos 2) (pos 8) start)
unfolding bytes_eq
fields_read_example =
    fields_read lua contents (λ l. l.values) lua-IsStack start pairs [] refl (codes "x") (pos 2)
      (codes "d") 7 (pos 8)

remove-add_example :
    (add_name_component (codes "a.b") >> remove_name_component) start
    ≡ returned tt (record start { name_code = codes "t.a" })
unfolding last_dot
remove-add_example = remove-add (codes "a.b") start refl (omega arith)

-- With the first pair on the stack.
abbrev at_pair : State Lua
at_pair = record start {
  lua = record {
    values = string_value (codes "a") ∷ number_value 1 ∷ table_value pairs ∷ [];
    trace = [];
  };
}

abbrev named_pair : State Lua
named_pair = record at_pair { name_code = codes "t.[1]"; name_depth = 2 }

visit-load_error_example :
    visit lua (λ u. load_error u) at_pair
    ≡ load_error (record named_pair { name_code = codes "t"; name_depth = 1 })
unfolding fmt_ulong image trim_left
visit-load_error_example =
    visit-load_error lua contents (λ l. l.values) lua-IsStack (λ u. load_error u) at_pair named_pair
      (number_value 1) (string_value (codes "a")) (table_value pairs ∷ []) refl (omega arith)
      (pos 1, refl) (refl, refl, refl)
