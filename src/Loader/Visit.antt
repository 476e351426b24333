-- ===== src/Loader/Visit.antt =====
-- lua-load.adb, Table_Iterate: one round of the loop, with a Process that returns.
use coreland_lua_ada_load.Base.{
  ℕ, take, ◌-◌, ◌+◌, ◌<◌, Bytes, false, List, [], ◌∷◌, ◌++◌, ◌==◌, if◌then◌else◌, ◌≡◌, refl, ◌∙◌,
  ap, arith,
}
use coreland_lua_ada_load.Loader.Binding.{Binding}
use coreland_lua_ada_load.Loader.State.{
  State, M, returned, load_error, is_empty, joined, last_dot, natural_last, remove_name_component,
}
use coreland_lua_ada_load.Loader.Values.{key_type}
use coreland_lua_ada_load.Loader.Tables.{remove_if, visit}
use coreland_lua_ada_load.Loader.Names.{remove_joined}
use coreland_lua_ada_load.Loader.Stack.{
  LuaValue, number_value, string_value, table_value, Contents, IsStack, Unchanged,
}
use coreland_lua_ada_load.Loader.Components.{
  bracketed, last_dot-bracketed, CanName, adds, named_at, depth_at, add_key_lem,
}

-- What Process is told: the name, the key and the value.
abbrev pub Entry : Type 0 → Type 0 → Type 0
Entry T N = Bytes × LuaValue T N × LuaValue T N

-- Process returns, leaves the stack and the names as they were, and puts one entry behind those
-- in a trace, which is in the part of `L` that the loader's own calls do not touch.
pub record IsVisitor {L N T : Type 0} (lua : Binding L N) (stack : L → List (LuaValue T N)) (t : T)
    (rest : List (LuaValue T N)) (trace : L → List (Entry T N)) (process : M L (Unit {0}))
    : Type 0 where
  pub visits :
      (u : State L) (k v : LuaValue T N)
      → stack u.lua ≡ v ∷ k ∷ table_value t ∷ rest
      → (u' : State L) × (process u ≡ returned tt u')
        × Unchanged stack u u'
        × (trace u'.lua ≡ trace u.lua ++ (u.name_code, k, v) ∷ [])
  pub trace-pop : (l : L) → trace (lua.pop l) ≡ trace l
  pub trace-next : (l : L) → trace (lua.next l).1 ≡ trace l
  pub trace-push_nil : (l : L) → trace (lua.push_nil l) ≡ trace l

-- A component that `CanName` allows is cut off whole.
pub remove_named :
    {L : Type 0} (name name_code : Bytes) (depth : ℕ) (u : State L)
    → is_empty name ≡ false
    → last_dot name ≡ 0
    → u.name_code ≡ joined name_code name
    → u.name_depth ≡ depth + 1
    → remove_name_component u ≡ returned tt (record u { name_code = name_code; name_depth = depth })
remove_named name name_code depth u named plain e d =
    remove_joined name_code name depth u named e d
    ∙ ap (λ (t : Bytes). returned tt (record u { name_code = t; name_depth = depth }))
        (ap
          (λ (n : ℕ).
            if n == 0 then name_code else joined name_code (take (last_dot name - 1) name))
          plain)

module _ {L N T : Type 0} (lua : Binding L N) where
  remove_key_lem :
      (k : LuaValue T N) (name_code : Bytes) (depth : ℕ) (u : State L)
      → CanName lua k
      → u.name_code ≡ named_at lua name_code k
      → u.name_depth ≡ depth_at lua depth k
      → remove_if lua (adds lua k) u
        ≡ returned tt (record u { name_code = name_code; name_depth = depth })
  remove_key_lem (string_value b) name_code depth u h e d =
      remove_named b name_code depth u h.0 h.1 e d
  remove_key_lem (number_value n) name_code depth u (i, conv) e d =
      ground (arith, remove_named (bracketed i) name_code depth u refl (last_dot-bracketed i))
  remove_key_lem k name_code depth u h e d = ground arith

  module _ (c : Contents T N) (stack : L → List (LuaValue T N)) (laws : IsStack lua c stack) (t : T)
      (rest : List (LuaValue T N)) (trace : L → List (Entry T N)) (process : M L (Unit {0}))
      (visitor : IsVisitor lua stack t rest trace process) where
    -- The loop's body behind Lua.Next: the names are as before it, the value is popped.
    pub record Visited (s : State L) (k v : LuaValue T N) : Type 0 where
      pub last : State L
      pub runs : visit lua process s ≡ returned tt last
      pub popped : stack last.lua ≡ k ∷ table_value t ∷ rest
      pub code : last.name_code ≡ s.name_code
      pub depth : last.name_depth ≡ s.name_depth
      pub file : last.name_file ≡ s.name_file
      pub traced : trace last.lua ≡ trace s.lua ++ (named_at lua s.name_code k, k, v) ∷ []

    pub visit-Visited :
        (s : State L) (k v : LuaValue T N)
        → stack s.lua ≡ v ∷ k ∷ table_value t ∷ rest
        → s.name_depth < natural_last
        → CanName lua k
        → Visited s k v
    unfolding visit key_type
    visit-Visited s k v e room can =
        let named : State L = record s {
          name_code = named_at lua s.name_code k;
          name_depth = depth_at lua s.name_depth k;
        } in
        let (u, run, same, told) = visitor.visits named k v e in
        let removed = remove_key_lem k s.name_code s.name_depth u can same.1 same.2 in
        record {
          last = record u {
            lua = lua.pop u.lua;
            name_code = s.name_code;
            name_depth = s.name_depth;
          };
          runs = ground (
            arith,
            laws.type_of-below s.lua v k (table_value t ∷ rest) e,
            add_key_lem lua c stack laws k v (table_value t ∷ rest) s e room can,
            run,
            removed,
          );
          popped = laws.pop-stack u.lua v (k ∷ table_value t ∷ rest) (same.0 ∙ e);
          code = refl;
          depth = refl;
          file = same.3;
          traced = visitor.trace-pop u.lua ∙ told;
        }

  module _ (c : Contents T N) (stack : L → List (LuaValue T N)) (laws : IsStack lua c stack) where
    -- Let the key, if it is a string, have no dot and not be empty, and if it is a number, be in
    -- the range of Integer, and let the names not be too deep. If Process, which gets the names
    -- with the key's component, raises Load_Error with the names as it got them, then the loop's
    -- body raises it, with the names as they were before the body.
    pub visit-load_error :
        (process : M L (Unit {0})) (s u : State L) (k v : LuaValue T N) (rest : List (LuaValue T N))
        → stack s.lua ≡ v ∷ k ∷ rest
        → s.name_depth < natural_last
        → CanName lua k
        → (let named : State L = record s {
          name_code = named_at lua s.name_code k;
          name_depth = depth_at lua s.name_depth k;
        } in
            (process named ≡ load_error u)
            × (u.name_code ≡ named.name_code)
            × (u.name_depth ≡ named.name_depth))
        → visit lua process s
          ≡ load_error (record u { name_code = s.name_code; name_depth = s.name_depth })
    unfolding visit key_type
    visit-load_error process s u k v rest e room can (raises, code, depth) = ground (
      arith,
      laws.type_of-below s.lua v k rest e,
      add_key_lem lua c stack laws k v rest s e room can,
      raises,
      remove_key_lem k s.name_code s.name_depth u can code depth,
    )
