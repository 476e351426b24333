-- ===== src/Conf/Output.antt =====
-- lua-ada-load-conf.c: what the program prints, by the names among its arguments.
use coreland_lua_ada_load.Base.{
  all_below, ℕ, Bool-cases, inl, inr, Bytes, Bool, true, false, none, List, [], ◌∷◌, ◌++◌, ◌==◌,
  ◌||◌, if◌then◌else◌, ◌≡◌, refl, sym, ◌∙◌, ap, arith, codes, int_eq, pos, bytes_eq, bytes_eq_iff,
  String, append-nil,
}
use coreland_lua_ada_load.Ctxt.{Ctxt}
use coreland_lua_ada_load.Conf.{
  FlagRow, main, help, flag_incdir, flag_cflags, flag_dlibdir, flag_slibdir, flag_ldflags,
  flag_version, flag_newline, flag_help, call_flags, flags, parse_loop, str_diff, is_set,
}
use coreland_lua_ada_load.Conf.StrDiff.{IsText}
use coreland_lua_ada_load.Conf.Rows.{
  shown, quietly, call_flags-nil, call_flags-shown, call_flags-unset, call_flags-none,
  call_flags-exits, call_flags-silent,
}
use coreland_lua_ada_load.Conf.Bits.{all_rows, bit_sets, selects, selected, parse_loop-bits}

-- On strings without a NUL the test of parse_flags is equality.
str_diff-bytes_eq :
    (s t : Bytes) → IsText s → IsText t → int_eq (str_diff s t) (pos 0) ≡ bytes_eq s t
unfolding str_diff bytes_eq
str_diff-bytes_eq [] [] a b = refl
str_diff-bytes_eq [] (d ∷ t) a b = ground arith
str_diff-bytes_eq (c ∷ s) [] a b = ground arith
str_diff-bytes_eq (c ∷ s) (d ∷ t) a b = ground (arith, str_diff-bytes_eq s t a.1 b.1)

abbrev pub AreTexts : List Bytes → Type 0
AreTexts [] = Unit
AreTexts (arg ∷ argv) = IsText arg × AreTexts argv

-- The name is among the arguments.
abbrev pub named : Bytes → List Bytes → Bool
named name [] = false
named name (arg ∷ argv) = bytes_eq arg name || named name argv

abbrev RowTexts : List FlagRow → Type 0
RowTexts [] = Unit
RowTexts (r ∷ rows) = IsText r.flag × RowTexts rows

abbrev picks : Bytes → List FlagRow → ℕ → Bool
picks arg [] v = false
picks arg (r ∷ rows) v = if bytes_eq arg r.flag then r.val == v else picks arg rows v

selects-picks :
    (arg : Bytes) (rows : List FlagRow) (v : ℕ)
    → IsText arg
    → RowTexts rows
    → selects arg rows v ≡ picks arg rows v
selects-picks arg [] v a b = refl
selects-picks arg (r ∷ rows) v a b =
    rw (str_diff-bytes_eq arg r.flag a b.0, selects-picks arg rows v a b.1) refl

-- In the table no other row has the row's name or its bit.
picks-named :
    (arg name : Bytes) (val : ℕ)
    → picks name flags val ≡ true
    → (bytes_eq arg name ≡ false → picks arg flags val ≡ false)
    → picks arg flags val ≡ bytes_eq arg name
picks-named arg name val here elsewhere = elim (Bool-cases (bytes_eq arg name)) [
  | inl same ↦ ap (λ a. picks a flags val) ((bytes_eq_iff arg name).0 same) ∙ here ∙ sym same
  | inr other ↦ elsewhere other ∙ sym other
]

module _ (name : Bytes) (val : ℕ) where
  abbrev the_row : FlagRow
  the_row = record { flag = name; func = none; val = val; desc = [] }

  selected-named :
      picks name flags val ≡ true
      → ((arg : Bytes) → bytes_eq arg name ≡ false → picks arg flags val ≡ false)
      → RowTexts flags
      → (argv : List Bytes) → AreTexts argv
      → selected argv val ≡ named name argv
  selected-named here elsewhere rows [] a = refl
  selected-named here elsewhere rows (arg ∷ argv) a =
      rw
        (
          selects-picks arg flags val a.0 rows,
          picks-named arg name val here (elsewhere arg),
          selected-named here elsewhere rows argv a.1,
        )
        refl

  bit-named :
      picks name flags val ≡ true
      → ((arg : Bytes) → bytes_eq arg name ≡ false → picks arg flags val ≡ false)
      → RowTexts flags
      → all_below 512 (λ n. all_rows flags (bit_sets the_row n)) ≡ true
      → is_set 0 val ≡ false
      → (argv : List Bytes) → AreTexts argv
      → is_set (parse_loop argv 0) val ≡ named name argv
  bit-named here elsewhere rows all unset argv a =
      parse_loop-bits the_row all argv 0 (omega arith)
      ∙ ap (λ b. b || selected argv val) unset
      ∙ selected-named here elsewhere rows argv a

-- What the names among the arguments ask for, in the order of the table.
abbrev pub asked : (String → Bool) → Ctxt → Bytes
asked has c =
    let flag : String → Bytes = λ t. shown (has "compile") (codes t) in
    shown (has "incdir") (flag "-I" ++ (c.incdir ++ codes " "))
    ++ (shown (has "dlibdir") (flag "-L" ++ (c.dlibdir ++ codes " "))
        ++ (shown (has "slibdir") (flag "-L" ++ (c.slibdir ++ codes " "))
            ++ (shown (has "ldflags") (codes "-llua-load ")
                ++ (shown (has "version") (c.version ++ codes " ")
                    ++ shown (has "newline") (codes "\n")))))

module _ (argv : List Bytes) (a : AreTexts argv) where
  abbrev has : String → Bool
  has name = named (codes name) argv

  abbrev bits : ℕ
  bits = parse_loop argv 0

  help_bit : is_set bits 0x0040 ≡ has "help"
  help_bit =
      bit-named (codes "help") 0x0040 (unfold bytes_eq in refl) (λ arg e. ground arith)
        (omega arith) (unfold all_below in refl) refl argv a

  compile_bit : is_set bits 0x0020 ≡ has "compile"
  compile_bit =
      bit-named (codes "compile") 0x0020 (unfold bytes_eq in refl) (λ arg e. ground arith)
        (omega arith) (unfold all_below in refl) refl argv a

  incdir_bit : is_set bits 0x0001 ≡ has "incdir"
  incdir_bit =
      bit-named (codes "incdir") 0x0001 (unfold bytes_eq in refl) (λ arg e. ground arith)
        (omega arith) (unfold all_below in refl) refl argv a

  dlibdir_bit : is_set bits 0x0002 ≡ has "dlibdir"
  dlibdir_bit =
      bit-named (codes "dlibdir") 0x0002 (unfold bytes_eq in refl) (λ arg e. ground arith)
        (omega arith) (unfold all_below in refl) refl argv a

  slibdir_bit : is_set bits 0x0004 ≡ has "slibdir"
  slibdir_bit =
      bit-named (codes "slibdir") 0x0004 (unfold bytes_eq in refl) (λ arg e. ground arith)
        (omega arith) (unfold all_below in refl) refl argv a

  ldflags_bit : is_set bits 0x0100 ≡ has "ldflags"
  ldflags_bit =
      bit-named (codes "ldflags") 0x0100 (unfold bytes_eq in refl) (λ arg e. ground arith)
        (omega arith) (unfold all_below in refl) refl argv a

  version_bit : is_set bits 0x0010 ≡ has "version"
  version_bit =
      bit-named (codes "version") 0x0010 (unfold bytes_eq in refl) (λ arg e. ground arith)
        (omega arith) (unfold all_below in refl) refl argv a

  newline_bit : is_set bits 0x0008 ≡ has "newline"
  newline_bit =
      bit-named (codes "newline") 0x0008 (unfold bytes_eq in refl) (λ arg e. ground arith)
        (omega arith) (unfold all_below in refl) refl argv a

  module _ (c : Ctxt) where
    incdir-shown :
        flag_incdir bits c ≡ quietly (shown (has "compile") (codes "-I") ++ (c.incdir ++ codes " "))
    unfolding flag_incdir
    incdir-shown = ground (arith, compile_bit)

    dlibdir-shown :
        flag_dlibdir bits c
        ≡ quietly (shown (has "compile") (codes "-L") ++ (c.dlibdir ++ codes " "))
    unfolding flag_dlibdir
    dlibdir-shown = ground (arith, compile_bit)

    slibdir-shown :
        flag_slibdir bits c
        ≡ quietly (shown (has "compile") (codes "-L") ++ (c.slibdir ++ codes " "))
    unfolding flag_slibdir
    slibdir-shown = ground (arith, compile_bit)

    -- Without "help" the table prints what is asked for.
    call_flags-asked : has "help" ≡ false → call_flags flags bits c ≡ quietly (asked has c)
    unfolding flag_cflags flag_ldflags flag_version flag_newline
    call_flags-asked no_help =
        call_flags-unset _ _ bits c (help_bit ∙ no_help)
        ∙ call_flags-none _ _ bits c refl
        ∙ call_flags-shown _ _ bits c flag_incdir (has "incdir") _ _ refl incdir_bit incdir-shown (
            call_flags-silent _ _ bits c flag_cflags refl refl
            ∙ call_flags-shown _ _ bits c flag_dlibdir (has "dlibdir") _ _ refl dlibdir_bit
                dlibdir-shown
                (call_flags-shown _ _ bits c flag_slibdir (has "slibdir") _ _ refl slibdir_bit
                  slibdir-shown
                  (call_flags-shown _ _ bits c flag_ldflags (has "ldflags") _ _ refl ldflags_bit
                    refl
                    (call_flags-shown _ _ bits c flag_version (has "version") _ _ refl version_bit
                      refl
                      (call_flags-shown _ _ bits c flag_newline (has "newline") _ [] refl
                          newline_bit refl (call_flags-nil bits c)
                        ∙ ap quietly (append-nil _))))))

    call_flags-help :
        has "help" ≡ true → call_flags flags bits c ≡ record { text = help; exits = true }
    unfolding flag_help
    call_flags-help with_help =
        call_flags-exits _ _ bits c flag_help refl (help_bit ∙ with_help) refl

-- On one argument or more, and none with a NUL in it, the program prints its help, if "help" is
-- among the arguments, and otherwise what is asked for, in the order of the table. Its exit
-- status is 0, unless there is no "help" and the last flush fails.
pub main-asked :
    (arg : Bytes) (argv : List Bytes) (flushes : Bool) (c : Ctxt)
    → AreTexts (arg ∷ argv)
    → let has : String → Bool = λ name. named (codes name) (arg ∷ argv) in
      main (arg ∷ argv) flushes c ≡ record {
        output = if has "help" then help else asked has c;
        status = if has "help" || flushes then 0 else 112;
      }
unfolding main
main-asked arg argv flushes c a = elim (Bool-cases (named (codes "help") (arg ∷ argv))) [
  | inl with_help ↦ rw (call_flags-help (arg ∷ argv) a c with_help, with_help) refl
  | inr without ↦ rw (call_flags-asked (arg ∷ argv) a c without, without) refl
]
