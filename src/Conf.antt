-- ===== src/Conf.antt =====
-- lua-ada-load-conf.c: the program that prints directories and compiler flags.
pub mod StrDiff
pub mod Bits
pub mod Rows
pub mod Output
use coreland_lua_ada_load.Base.{
  ℕ, suc, ◌-◌, Bytes, Bool, true, false, Option, none, some, List, [], ◌∷◌, ◌++◌, ◌==◌, leb, not,
  ◌||◌, if◌then◌else◌, String, codes, bit_and, bit_or, ℤ, pos, negsuc, int_eq,
}
use coreland_lua_ada_load.Ctxt.{Ctxt}

abbrev flag_compile : ℕ
flag_compile = 0x0020

-- (int) a - (int) b
abbrev pub byte_difference : ℕ → ℕ → ℤ
byte_difference a b = if leb b a then pos (a - b) else negsuc (b - a - 1)

-- The strings up to their NUL: the end of one is read as the byte 0.
unfoldable pub str_diff : Bytes → Bytes → ℤ
str_diff [] [] = pos 0
str_diff [] (d ∷ t) = byte_difference 0 d
str_diff (c ∷ s) [] = byte_difference c 0
str_diff (c ∷ s) (d ∷ t) = if c == d then str_diff s t else byte_difference c d

-- What a function of the table prints, and whether it then calls exit (0).
pub record Printed : Type 0 where
  pub text : Bytes
  pub exits : Bool

-- A row of `flags`; the function reads the flags that are set.
pub record FlagRow : Type 0 where
  pub flag : Bytes
  pub func : Option (ℕ → Ctxt → Printed)
  pub val : ℕ
  pub desc : Bytes

abbrev prints : Bytes → Printed
prints text = record { text = text; exits = false }

abbrev pub is_set : ℕ → ℕ → Bool
is_set flag val = not (bit_and flag val == 0)

unfoldable pub flag_incdir : ℕ → Ctxt → Printed
flag_incdir flag c = prints (
    if is_set flag flag_compile
    then codes "-I" ++ (c.incdir ++ codes " ")
    else c.incdir ++ codes " ")

unfoldable pub flag_cflags : ℕ → Ctxt → Printed
flag_cflags flag c = prints []

unfoldable pub flag_dlibdir : ℕ → Ctxt → Printed
flag_dlibdir flag c =
    prints ((if is_set flag flag_compile then codes "-L" else []) ++ (c.dlibdir ++ codes " "))

unfoldable pub flag_slibdir : ℕ → Ctxt → Printed
flag_slibdir flag c =
    prints ((if is_set flag flag_compile then codes "-L" else []) ++ (c.slibdir ++ codes " "))

unfoldable pub flag_ldflags : ℕ → Ctxt → Printed
flag_ldflags flag c = prints (codes "-llua-load ")

unfoldable pub flag_version : ℕ → Ctxt → Printed
flag_version flag c = prints (c.version ++ codes " ")

unfoldable pub flag_newline : ℕ → Ctxt → Printed
flag_newline flag c = prints (codes "\n")

abbrev row : String → Option (ℕ → Ctxt → Printed) → ℕ → String → FlagRow
row flag func val desc = record { flag = codes flag; func = func; val = val; desc = codes desc }

-- The table but for its first row, whose function prints the whole table.
abbrev later_flags : List FlagRow
later_flags =
    row "compile" none flag_compile "modify output for use as compiler flags"
    ∷ row "incdir" (some flag_incdir) 0x0001 "print include directory"
    ∷ row "cflags" (some flag_cflags) 0x0080 "output required compiler flags"
    ∷ row "dlibdir" (some flag_dlibdir) 0x0002 "print dynamic library directory"
    ∷ row "slibdir" (some flag_slibdir) 0x0004 "print static library directory"
    ∷ row "ldflags" (some flag_ldflags) 0x0100 "output required linker flags"
    ∷ row "version" (some flag_version) 0x0010 "print library version"
    ∷ row "newline" (some flag_newline) 0x0008 "print trailing newline"
    ∷ []

unfoldable pub usage : Bytes
usage = codes "lua-load-conf: [help] ops ...\n"

unfoldable pub help_lines : List FlagRow → Bytes
help_lines [] = []
help_lines (r ∷ rows) = r.flag ++ (codes " - " ++ (r.desc ++ (codes "\n" ++ help_lines rows)))

abbrev help_description : String
help_description = "this message"

unfoldable pub help : Bytes
unfolding usage help_lines
help =
    usage
    ++ (codes "possible operators:\n"
        ++ help_lines (row "help" none 0x0040 help_description ∷ later_flags))

unfoldable pub flag_help : ℕ → Ctxt → Printed
unfolding help
flag_help flag c = record { text = help; exits = true }

abbrev pub flags : List FlagRow
flags = row "help" (some flag_help) 0x0040 help_description ∷ later_flags

-- The inner loop of parse_flags: the first row with the argument's name sets its bit.
unfoldable pub parse_flag : Bytes → List FlagRow → ℕ → ℕ
unfolding str_diff
parse_flag arg [] flag = flag
parse_flag arg (r ∷ rows) flag =
    if int_eq (str_diff arg r.flag) (pos 0) then bit_or flag r.val else parse_flag arg rows flag

unfoldable pub parse_loop : List Bytes → ℕ → ℕ
unfolding parse_flag
parse_loop [] flag = flag
parse_loop (arg ∷ argv) flag = parse_loop argv (parse_flag arg flags flag)

-- What a run prints, and its exit status.
pub record Run : Type 0 where
  pub output : Bytes
  pub status : ℕ

-- A row's function is called, if its bit is set and it has one.
abbrev pub call_flag : FlagRow → ℕ → Ctxt → Printed
call_flag r flag c =
    if is_set flag r.val then elim r.func [ none ↦ prints [] | some f ↦ f flag c ] else prints []

-- exit (0) ends the loop.
unfoldable pub call_flags : List FlagRow → ℕ → Ctxt → Printed
call_flags [] flag c = prints []
call_flags (r ∷ rows) flag c =
    let p = call_flag r flag c in
    let rest = call_flags rows flag c in
    if p.exits then p else record { text = p.text ++ rest.text; exits = rest.exits }

-- main, on the arguments behind the program's name; the last call flushes the output.
unfoldable pub main : List Bytes → Bool → Ctxt → Run
unfolding usage parse_loop call_flags flag_help flag_incdir flag_cflags flag_dlibdir flag_slibdir
    flag_ldflags flag_version flag_newline
main [] flushes c = record { output = usage; status = 111 }
main (arg ∷ argv) flushes c =
    let p = call_flags flags (parse_loop (arg ∷ argv) 0) c in
    record { output = p.text; status = if p.exits || flushes then 0 else 112 }
