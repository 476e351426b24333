-- ===== src/Locker/Reader.antt =====
-- SYSDEPS/sd-locker_win32.c: a reader of the shell's syntax, and what it finds in the command line.
use coreland_lua_ada_load.Base.{
  ℕ, Bytes, Bool, true, false, Option, none, some, List, [], ◌∷◌, ◌++◌, ◌==◌, if◌then◌else◌, All,
  All-append, append_assoc, codes, append-nil, ◌≡◌, ◌≢◌, refl, ◌∙◌, ap, arith,
}
use coreland_lua_ada_load.Locker.Command.{length_total, no_storage, converts, convert_command}
use coreland_lua_ada_load.Locker.Quoting.{quoted, command_line, convert_command-converts}

-- A reader of the shell's syntax for words of quoted parts. Between two words is a space: parts
-- that touch are one word. Anything else outside quotes it does not read.
pub data Reading : Type 0 where
  between : Reading
  -- in a word, behind a quoted part of it, or inside one; with what is read of it
  behind quoting : Bytes → Reading

abbrev pub word_then : Bytes → Option (List Bytes) → Option (List Bytes)
word_then word none = none
word_then word (some more) = some (word ∷ more)

abbrev pub words : Reading → Bytes → Option (List Bytes)
words between [] = some []
words (behind word) [] = some (word ∷ [])
words (quoting word) [] = none
words between (c ∷ cs) = elim (c == 32) [
  | true ↦ words between cs
  | false ↦ elim (c == 39) [ true ↦ words (quoting []) cs | false ↦ none ]
]
words (behind word) (c ∷ cs) = elim (c == 32) [
  | true ↦ word_then word (words between cs)
  | false ↦ elim (c == 39) [ true ↦ words (quoting word) cs | false ↦ none ]
]
words (quoting word) (c ∷ cs) = elim (c == 39) [
  | true ↦ words (behind word) cs
  | false ↦ words (quoting (word ++ c ∷ [])) cs
]

-- The text up to a byte, and the text behind it.
abbrev pub until : ℕ → Bytes → Option (Bytes × Bytes)
until stop [] = none
until stop (c ∷ cs) =
    if c == stop
    then some ([], cs)
    else elim (until stop cs) [ none ↦ none | some (text, rest) ↦ some (c ∷ text, rest) ]

-- The text behind a prefix, if the text starts with it.
abbrev pub behind_prefix : Bytes → Bytes → Option Bytes
behind_prefix [] text = some text
behind_prefix (p ∷ ps) [] = none
behind_prefix (p ∷ ps) (c ∷ cs) = elim (p == c) [ true ↦ behind_prefix ps cs | false ↦ none ]

abbrev pub is_end : Bytes → Bool
is_end (c ∷ []) = c == 0
is_end _ = false

-- Of the part in double quotes, which is the last of the line, the words.
abbrev pub quoted_words : Option (Bytes × Bytes) → Option (List Bytes)
quoted_words none = none
quoted_words (some (inner, rest)) = if is_end rest then words between inner else none

-- A line of `sh -c` and one argument in double quotes, with the zero byte behind it: the words that
-- the shell finds in the argument.
abbrev pub read_command : Bytes → Option (List Bytes)
read_command line = elim (behind_prefix (codes "sh -c \"") line) [
  | none ↦ none
  | some text ↦ quoted_words (until 34 text)
]

-- The argument has neither quote in it.
abbrev pub IsPlain : Bytes → Type 0
IsPlain = All (λ c. (c ≢ 34) × (c ≢ 39))

until-append :
    (text rest : Bytes) → All (λ c. c ≢ 34) text → until 34 (text ++ 34 ∷ rest) ≡ some (text, rest)
until-append [] rest h = refl
until-append (c ∷ text) rest h = ground (arith, until-append text rest h.1, h.0)

words-argument :
    (argument word rest : Bytes)
    → IsPlain argument
    → words (quoting word) (argument ++ 39 ∷ rest) ≡ words (behind (word ++ argument)) rest
words-argument [] word rest h = ground (arith, append-nil word)
words-argument (c ∷ argument) word rest h = ground (
  arith,
  words-argument argument (word ++ c ∷ []) rest h.1,
  append_assoc word (c ∷ []) argument,
  h.0,
)

words-quoted : (argv : List Bytes) → All IsPlain argv → words between (quoted argv) ≡ some argv
words-quoted [] h = refl
words-quoted (argument ∷ argv) h =
    words-argument argument [] (32 ∷ quoted argv) h.0
    ∙ ap (word_then argument) (words-quoted argv h.1)

plain-All : (argument : Bytes) → IsPlain argument → All (λ c. c ≢ 34) argument
plain-All [] h = tt
plain-All (c ∷ argument) h = (h.0.0, plain-All argument h.1)

quoted-All : (argv : List Bytes) → All IsPlain argv → All (λ c. c ≢ 34) (quoted argv)
quoted-All [] h = tt
quoted-All (argument ∷ argv) h = (
  ground arith,
  All-append (λ c. c ≢ 34) argument (39 ∷ 32 ∷ quoted argv) (plain-All argument h.0)
      (ground arith, (ground arith, quoted-All argv h.1)),
)

-- Where there is storage and no argument has a quote in it, a reader of the shell's syntax, in which
-- quoted parts that touch are one word, finds in the command line that is built a line of `sh -c`
-- with one argument, and in that argument the words of the command and no others.
pub read_command-convert :
    (malloc : ℕ → Bool) (argv : List Bytes)
    → argv ≢ []
    → All IsPlain argv
    → malloc (length_total argv) ≡ true
    → (line : Bytes) × ((convert_command malloc argv ≡ converts line)
        × (read_command line ≡ some argv))
read_command-convert malloc argv ne plain given = (
  command_line argv,
  (
    convert_command-converts malloc argv ne
        ∙ ap (λ b. if b then converts (command_line argv) else no_storage) given,
    ap quoted_words (until-append (quoted argv) (0 ∷ []) (quoted-All argv plain))
        ∙ words-quoted argv plain,
  ),
)
