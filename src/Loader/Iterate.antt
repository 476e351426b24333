-- ===== src/Loader/Iterate.antt =====
-- lua-load.adb: Table_Iterate over all pairs of a table, and Table_Start with Table_End.
use coreland_lua_ada_load.Base.{
  ℕ, zero, suc, ◌+◌, ◌<◌, Bytes, Bool, true, false, none, some, List, [], ◌∷◌, ◌++◌, length, ◌≡◌,
  refl, subst, sym, ◌∙◌, ap, arith, append_assoc, append-nil,
}
use coreland_lua_ada_load.Loader.Binding.{table_type, type_eq, Binding}
use coreland_lua_ada_load.Loader.State.{
  State, M, Outcome, returned, load_error, ◌>>◌, is_empty, joined, last_dot, natural_last,
  target_value, type_message, type_error,
}
use coreland_lua_ada_load.Loader.Values.{value_type, value_type_is}
use coreland_lua_ada_load.Loader.Tables.{
  require_table, table_start, table_end, iterate, table_iterate,
}
use coreland_lua_ada_load.Loader.Names.{add_name_component_lem}
use coreland_lua_ada_load.Loader.Stack.{
  LuaValue, nil_value, table_value, kind, Contents, IsStack, Unchanged,
}
use coreland_lua_ada_load.Loader.Components.{CanName, named_at}
use coreland_lua_ada_load.Loader.Visit.{Entry, IsVisitor, visit-Visited, remove_named}

-- The pairs that follow a key, to the end.
abbrev pub Follows :
    {T N : Type 0} → Contents T N → T → LuaValue T N → List (LuaValue T N × LuaValue T N) → Type 0
Follows c t k [] = c.following t k ≡ none
Follows c t k ((k', v') ∷ pairs) = (c.following t k ≡ some (k', v')) × Follows c t k' pairs

module _ {L N T : Type 0} (lua : Binding L N) where
  -- What Process is told of the pairs in a table of the given name.
  abbrev pub entries : Bytes → List (LuaValue T N × LuaValue T N) → List (Entry T N)
  entries name_code [] = []
  entries name_code ((k, v) ∷ pairs) = (named_at lua name_code k, k, v) ∷ entries name_code pairs

  abbrev pub AllNamed : List (LuaValue T N × LuaValue T N) → Type 0
  AllNamed [] = Unit
  AllNamed ((k, v) ∷ pairs) = CanName lua k × AllNamed pairs

  module _ (c : Contents T N) (stack : L → List (LuaValue T N)) (laws : IsStack lua c stack) (t : T)
      (rest : List (LuaValue T N)) where
    module _ (trace : L → List (Entry T N)) (process : M L (Unit {0}))
        (visitor : IsVisitor lua stack t rest trace process) where
      -- The run ends, with the table on top again and each pair told once, in order.
      pub record Iterated (s : State L) (pairs : List (LuaValue T N × LuaValue T N))
          (o : Outcome L Bool) : Type 0 where
        pub last : State L
        pub runs : o ≡ returned true last
        pub back : stack last.lua ≡ table_value t ∷ rest
        pub code : last.name_code ≡ s.name_code
        pub depth : last.name_depth ≡ s.name_depth
        pub file : last.name_file ≡ s.name_file
        pub told : trace last.lua ≡ trace s.lua ++ entries s.name_code pairs

      iterate-Iterated :
          (pairs : List (LuaValue T N × LuaValue T N)) (fuel : ℕ) (k : LuaValue T N) (s : State L)
          → stack s.lua ≡ k ∷ table_value t ∷ rest
          → Follows c t k pairs
          → AllNamed pairs
          → s.name_depth < natural_last
          → length pairs < fuel
          → Iterated s pairs (iterate lua fuel process s)
      unfolding iterate
      iterate-Iterated pairs zero k s e f n room h = absurd (omega arith)
      iterate-Iterated [] (suc fuel) k s e f n room h =
          let (stops, popped) = laws.next-end s.lua t k rest e f in
          record {
            last = record s { lua = (lua.next s.lua).1 };
            runs = ground arith;
            back = popped;
            code = refl;
            depth = refl;
            file = refl;
            told = visitor.trace-next s.lua ∙ sym (append-nil (trace s.lua));
          }
      iterate-Iterated ((k', v') ∷ pairs) (suc fuel) k s e f n room h =
          let (more, pushed) = laws.next-stack s.lua t k k' v' rest e f.0 in
          let s₁ : State L = record s { lua = (lua.next s.lua).1 } in
          let v =
            visit-Visited lua c stack laws t rest trace process visitor s₁ k' v' pushed room n.0 in
          let r =
            iterate-Iterated pairs fuel k' v.last v.popped f.1 n.1
              (subst (λ d. d < natural_last) (sym v.depth) room) (omega arith) in
          record {
            last = r.last;
            runs = ground (arith, v.runs, r.runs);
            back = r.back;
            code = r.code ∙ v.code;
            depth = r.depth ∙ v.depth;
            file = r.file ∙ v.file;
            told =
                r.told
                ∙ ap (λ name_code. trace v.last.lua ++ entries name_code pairs) v.code
                ∙ ap (λ (l : List (Entry T N)). l ++ entries s.name_code pairs)
                    (v.traced
                      ∙ ap
                          (λ (l : List (Entry T N)).
                            l ++ (named_at lua s.name_code k', k', v') ∷ [])
                          (visitor.trace-next s.lua))
                ∙ append_assoc (trace s.lua) ((named_at lua s.name_code k', k', v') ∷ [])
                    (entries s.name_code pairs);
          }

      -- Let a table be on top of the stack and its pairs from nil on be given, each string key
      -- without a dot and not empty and each number key in the range of Integer; let the names not
      -- be too deep, the rounds be more than the pairs, and Process return each time with the
      -- stack and the names as it got them and one more entry in its trace. Table_Iterate then
      -- ends, Process is told of each pair once and in order, under the name of the table with the
      -- key, and the stack and the names are as they were.
      pub table_iterate-Iterated :
          (pairs : List (LuaValue T N × LuaValue T N)) (fuel : ℕ) (s : State L)
          → stack s.lua ≡ table_value t ∷ rest
          → Follows c t nil_value pairs
          → AllNamed pairs
          → s.name_depth < natural_last
          → length pairs < fuel
          → Iterated s pairs (table_iterate lua fuel process s)
      unfolding table_iterate require_table value_type_is value_type
      table_iterate-Iterated pairs fuel s e f n room h =
          let s₁ : State L = record s { lua = lua.push_nil s.lua } in
          let r =
            iterate-Iterated pairs fuel nil_value s₁
              (laws.push_nil-stack s.lua ∙ ap (◌∷◌ nil_value) e) f n room h in
          record {
            last = r.last;
            runs = ground (arith, laws.type_of-top s.lua (table_value t) rest e, r.runs);
            back = r.back;
            code = r.code;
            depth = r.depth;
            file = r.file;
            told =
                r.told
                ∙ ap (λ (l : List (Entry T N)). l ++ entries s.name_code pairs)
                    (visitor.trace-push_nil s.lua);
          }

    module _ (name : Bytes) (s : State L) (top : stack s.lua ≡ table_value t ∷ rest) where
      -- With a table on top of the stack, if its field is a table, the name has no dot and is not
      -- empty, and the names are not too deep, Table_Start and Table_End return, and leave the
      -- stack and the names as they were.
      pub table_start-end :
          (t' : T)
          → c.field t name ≡ table_value t'
          → is_empty name ≡ false
          → last_dot name ≡ 0
          → s.name_depth < natural_last
          → (s' : State L) × ((table_start lua name >> table_end lua) s ≡ returned tt s')
            × Unchanged stack s s'
      unfolding table_start table_end require_table value_type_is value_type
      table_start-end t' f named plain room =
          let l = lua.get_field name s.lua in
          let pushed = laws.get_field-stack s.lua t name rest top in
          let pushed' = pushed ∙ ap (λ v. v ∷ table_value t ∷ rest) f in
          let s₁ : State L = record s { lua = l } in
          let s₂ : State L = record s₁ {
            name_code = joined s.name_code name;
            name_depth = s.name_depth + 1;
          } in
          (
            record s { lua = lua.pop l },
            ground (
              arith,
              laws.type_of-top l (table_value t') (table_value t ∷ rest) pushed',
              add_name_component_lem name s₁ room,
              remove_named name s.name_code s.name_depth s₂ named plain refl refl,
            ),
            (
              laws.pop-stack l (table_value t') (table_value t ∷ rest) pushed' ∙ sym top,
              refl,
              refl,
              refl,
            ),
          )

      -- With a table on top of the stack, if its field is no table, Table_Start raises Load_Error
      -- with the message for the name, the name of the tables is as it was, and the field's value
      -- stays on the stack.
      pub table_start-left :
          type_eq (kind (c.field t name)) table_type ≡ false
          → (s' : State L) × (table_start lua name s ≡ load_error s')
            × (stack s'.lua ≡ c.field t name ∷ table_value t ∷ rest)
            × (s'.name_code ≡ s.name_code)
            × (s'.err_string ≡ type_message lua s.name_code target_value table_type name)
      unfolding table_start require_table value_type_is value_type type_error
      table_start-left other =
          let l = lua.get_field name s.lua in
          let pushed = laws.get_field-stack s.lua t name rest top in
          (
            record s {
              lua = l;
              err_string = type_message lua s.name_code target_value table_type name;
            },
            ground (arith, laws.type_of-top l (c.field t name) (table_value t ∷ rest) pushed),
            pushed,
            refl,
            refl,
          )
