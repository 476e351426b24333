-- ===== src/Conf/Bits.antt =====
-- lua-ada-load-conf.c, parse_flags: which bits the arguments set. A bit of the table set in a
-- number below 512 changes no other bit of the table, which is checked for each such number.
use coreland_lua_ada_load.Base.{
  ℕ, Bool-cases, all_below, all_below-elim, bool_eq, bool_eq-eq, inl, inr, ◌<◌, Bytes, Bool, true,
  false, List, [], ◌∷◌, ◌==◌, ltb, ◌||◌, ◌&&◌, if◌then◌else◌, ◌≡◌, refl, ◌∙◌, ap, arith, bit_or,
  int_eq, pos,
}
use coreland_lua_ada_load.Conf.{FlagRow, flags, parse_flag, parse_loop, str_diff, is_set}

abbrev pub all_rows : List FlagRow → (FlagRow → Bool) → Bool
all_rows [] f = true
all_rows (r ∷ rows) f = f r && all_rows rows f

abbrev pub bit_sets : FlagRow → ℕ → FlagRow → Bool
bit_sets q n r =
    ltb (bit_or n r.val) 512
    && bool_eq (is_set (bit_or n r.val) q.val) (is_set n q.val || (r.val == q.val))

-- The argument is the name of a row, the first with this name, whose bit is `v`.
abbrev pub selects : Bytes → List FlagRow → ℕ → Bool
selects arg [] v = false
selects arg (r ∷ rows) v =
    if int_eq (str_diff arg r.flag) (pos 0) then r.val == v else selects arg rows v

parse_flag-bits :
    (q : FlagRow) (arg : Bytes) (rows : List FlagRow) (n : ℕ)
    → n < 512
    → all_rows rows (bit_sets q n) ≡ true
    → (parse_flag arg rows n < 512)
      × (is_set (parse_flag arg rows n) q.val ≡ is_set n q.val || selects arg rows q.val)
unfolding parse_flag
parse_flag-bits q arg [] n h k = (h, ground arith)
parse_flag-bits q arg (r ∷ rows) n h k = elim (Bool-cases (int_eq (str_diff arg r.flag) (pos 0))) [
  | inl same ↦
      let e =
        bool_eq-eq (is_set (bit_or n r.val) q.val) (is_set n q.val || (r.val == q.val))
          (ground arith) in
      (rw same (ground arith), rw same e)
  | inr other ↦
      let rest = parse_flag-bits q arg rows n h (ground arith) in (rw other rest.0, rw other rest.1)
]

-- Some argument selects the bit.
abbrev pub selected : List Bytes → ℕ → Bool
selected [] v = false
selected (arg ∷ argv) v = selects arg flags v || selected argv v

pub parse_loop-bits :
    (q : FlagRow)
    → all_below 512 (λ n. all_rows flags (bit_sets q n)) ≡ true
    → (argv : List Bytes) (n : ℕ) → n < 512
    → is_set (parse_loop argv n) q.val ≡ is_set n q.val || selected argv q.val
unfolding parse_loop
parse_loop-bits q all [] n h = ground arith
parse_loop-bits q all (arg ∷ argv) n h =
    let (small, bit) =
      parse_flag-bits q arg flags n h
        (all_below-elim 512 (λ x. all_rows flags (bit_sets q x)) all n h) in
    parse_loop-bits q all argv (parse_flag arg flags n) small
    ∙ ap (λ b. b || selected argv q.val) bit
    ∙ or_assoc (is_set n q.val) (selects arg flags q.val) (selected argv q.val)
  where
    or_assoc : (a b c : Bool) → (a || b) || c ≡ a || (b || c)
    or_assoc true b c = refl
    or_assoc false b c = refl
