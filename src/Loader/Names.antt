-- ===== src/Loader/Names.antt =====
-- lua-load.adb: the name of the table that is being read, component by component.
use coreland_lua_ada_load.Base.{
  ℕ, zero, suc, append-nil, ◌+◌, ◌-◌, ◌<◌, Bytes, true, false, [], ◌∷◌, ◌++◌, ◌==◌, if◌then◌else◌,
  codes, length, take, ◌≡◌, refl, ◌∙◌, ap, arith, append_assoc, Bool-cases, inl, inr,
}
use coreland_lua_ada_load.Loader.State.{
  State, M, Outcome, returned, load_error, constraint_error, ◌>>◌, is_empty, joined, last_dot,
  natural_last, add_name_component, remove_name_component,
}

last_dot-append :
    (a b : Bytes)
    → last_dot (a ++ b) ≡ (if last_dot b == 0 then last_dot a else length a + last_dot b)
unfolding last_dot
last_dot-append [] b = ground arith
last_dot-append (c ∷ cs) b = ground (arith, last_dot-append cs b)

-- A component without a dot is cut off whole, and of one with a dot only what stands behind its
-- last dot.
abbrev pub cut : Bytes → Bytes → Bytes
cut name_code name =
    if last_dot name == 0 then name_code else joined name_code (take (last_dot name - 1) name)

take-append_add : (a b : Bytes) (n k : ℕ) → k ≡ length a + n → take k (a ++ b) ≡ a ++ take n b
take-append_add [] b n k e = ap (λ (k : ℕ). take k b) (omega arith)
take-append_add (c ∷ cs) b n zero e = absurd (omega arith)
take-append_add (c ∷ cs) b n (suc k) e = ap (◌∷◌ c) (take-append_add cs b n k (omega arith))

last_dot-dotted : (a : Bytes) → last_dot (a ++ codes ".") ≡ length a + 1
unfolding last_dot
last_dot-dotted a = last_dot-append a (codes ".")

take_dotted :
    (a name : Bytes)
    → take (last_dot ((a ++ codes ".") ++ name) - 1) ((a ++ codes ".") ++ name)
      ≡ (if last_dot name == 0 then a else (a ++ codes ".") ++ take (last_dot name - 1) name)
take_dotted a name = elim (Bool-cases (last_dot name == 0)) [
  | inl plain ↦ rw plain (
      ap (λ (t : Bytes). take (last_dot ((a ++ codes ".") ++ name) - 1) t)
        (append_assoc a (codes ".") name)
      ∙ take-append_add a (codes "." ++ name) 0 (last_dot ((a ++ codes ".") ++ name) - 1)
          (ground (arith, place, last_dot-dotted a))
      ∙ append-nil a)
  | inr dotted ↦ rw dotted (
      take-append_add (a ++ codes ".") name (last_dot name - 1)
        (last_dot ((a ++ codes ".") ++ name) - 1) (ground (arith, place)))
]
  where
    place : last_dot ((a ++ codes ".") ++ name) ≡ (
        if last_dot name == 0
        then last_dot (a ++ codes ".")
        else length (a ++ codes ".") + last_dot name)
    place = last_dot-append (a ++ codes ".") name

take-joined :
    (name_code name : Bytes)
    → take (last_dot (joined name_code name) - 1) (joined name_code name) ≡ cut name_code name
take-joined [] name = elim (Bool-cases (last_dot name == 0)) [
  | inl plain ↦
      rw plain (ap (λ (n : ℕ). take (n - 1) name) (let z : last_dot name ≡ 0 = ground arith in z))
  | inr dotted ↦ rw dotted refl
]
take-joined (c ∷ cs) name = take_dotted (c ∷ cs) name

is_empty-joined :
    (name_code name : Bytes) → is_empty name ≡ false → is_empty (joined name_code name) ≡ false
is_empty-joined [] name h = h
is_empty-joined (c ∷ cs) name h = refl

-- A first step that returns.
pub >>-returned :
    {L B : Type 0} (m : M L (Unit {0})) (k : M L B) (s s' : State L)
    → m s ≡ returned tt s'
    → (m >> k) s ≡ k s'
>>-returned m k s s' e =
    ap
      (λ o. elim o as (λ _. Outcome _ _) [
        | returned a s' ↦ k s'
        | load_error s' ↦ load_error s'
        | constraint_error ↦ constraint_error
      ])
      e

module _ {L : Type 0} where
  pub add_name_component_lem :
      (name : Bytes) (s : State L)
      → s.name_depth < natural_last
      → add_name_component name s
        ≡ returned tt
            (record s { name_code = joined s.name_code name; name_depth = s.name_depth + 1 })
  unfolding add_name_component
  add_name_component_lem name s room = ground arith

  remove_name_component_lem :
      (s : State L)
      → is_empty s.name_code ≡ false
      → 0 < s.name_depth
      → remove_name_component s
        ≡ returned tt (record s {
          name_code = take (last_dot s.name_code - 1) s.name_code;
          name_depth = s.name_depth - 1;
        })
  unfolding remove_name_component
  remove_name_component_lem s named deep = ground arith

  remove_name_component_empty :
      (s : State L) → is_empty s.name_code ≡ true → remove_name_component s ≡ constraint_error
  unfolding remove_name_component
  remove_name_component_empty s h = ground arith

  -- The name with a component is left by removing it as it was, with the component cut.
  pub remove_joined :
      (name_code name : Bytes) (depth : ℕ) (s : State L)
      → is_empty name ≡ false
      → s.name_code ≡ joined name_code name
      → s.name_depth ≡ depth + 1
      → remove_name_component s
        ≡ returned tt (record s { name_code = cut name_code name; name_depth = depth })
  remove_joined name_code name depth s named e d =
      remove_name_component_lem s (ap is_empty e ∙ is_empty-joined name_code name named)
        (omega arith)
      ∙ ap (λ (t : Bytes). returned tt (record s { name_code = t; name_depth = s.name_depth - 1 }))
          (ap (λ (t : Bytes). take (last_dot t - 1) t) e ∙ take-joined name_code name)
      ∙ ap (λ (n : ℕ). returned tt (record s { name_code = cut name_code name; name_depth = n }))
          (omega arith)

  -- Where the names are not too deep, adding a component that is not empty and removing it leaves
  -- the name that was, with the component cut at its last dot: without a dot in it, the name that
  -- was.
  pub remove-add :
      (name : Bytes) (s : State L)
      → is_empty name ≡ false
      → s.name_depth < natural_last
      → (add_name_component name >> remove_name_component) s
        ≡ returned tt (record s { name_code = cut s.name_code name })
  remove-add name s named room =
      >>-returned (add_name_component name) remove_name_component s _
        (add_name_component_lem name s room)
      ∙ remove_joined s.name_code name s.name_depth
          (record s { name_code = joined s.name_code name; name_depth = s.name_depth + 1 }) named
          refl refl

  -- At the top, an empty component is added, and removing it is a Constraint_Error.
  remove-add_empty :
      (s : State L)
      → is_empty s.name_code ≡ true
      → s.name_depth < natural_last
      → (add_name_component [] >> remove_name_component) s ≡ constraint_error
  remove-add_empty s top room =
      >>-returned (add_name_component []) remove_name_component s _
        (add_name_component_lem [] s room)
      ∙ remove_name_component_empty
          (record s { name_code = joined s.name_code []; name_depth = s.name_depth + 1 })
          (still_empty s.name_code top)
    where
      still_empty : (b : Bytes) → is_empty b ≡ true → is_empty (joined b []) ≡ true
      still_empty [] h = refl
      still_empty (c ∷ cs) h = absurd (ground arith)
