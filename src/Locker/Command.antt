-- ===== src/Locker/Command.antt =====
-- SYSDEPS/sd-locker_win32.c: the command line for the shell, built in a buffer whose size is
-- computed first. A write that does not fit the buffer is an overrun.
use coreland_lua_ada_load.Base.{
  ℕ, ◌+◌, Bytes, Bool, List, [], ◌∷◌, ◌++◌, if◌then◌else◌, leb, length, codes,
}

-- SD_LOCKER_WIN32_POSIX_SHELL_PREFIX and _QUOTE, and the characters behind an argument and behind
-- all of them.
abbrev pub prefix : Bytes
prefix = codes "sh -c " ++ 34 ∷ []

abbrev pub quote : Bytes
quote = 39 ∷ []

abbrev pub space : Bytes
space = 32 ∷ []

abbrev pub ending : Bytes
ending = 34 ∷ []

-- sizeof (' '), which C takes of an int.
abbrev pub int_size : ℕ
int_size = 4

abbrev pub argument_length : Bytes → ℕ
argument_length argument = length quote + length argument + length quote + int_size

abbrev pub arguments_length : List Bytes → ℕ
arguments_length [] = 0
arguments_length (argument ∷ argv) = argument_length argument + arguments_length argv

abbrev pub length_total : List Bytes → ℕ
length_total argv = length prefix + length quote + arguments_length argv

pub data Conversion : Type 0 where
  no_storage overruns : Conversion
  converts : Bytes → Conversion

-- A write at ptr, with what is in the buffer before it.
abbrev pub write : ℕ → Bytes → (Bytes → Conversion) → Bytes → Conversion
write size text k buffer =
    let written = buffer ++ text in if leb (length written) size then k written else overruns

abbrev pub write_arguments : ℕ → List Bytes → (Bytes → Conversion) → Bytes → Conversion
write_arguments size [] k buffer = k buffer
write_arguments size (argument ∷ argv) k buffer =
    write size quote
      (write size argument (write size quote (write size space (write_arguments size argv k))))
      buffer

-- sd_locker_win32_convert_command, where malloc gives storage of the size or does not.
unfoldable pub convert_command : (ℕ → Bool) → List Bytes → Conversion
convert_command malloc argv =
    let size = length_total argv in
    if malloc size
    then write size prefix
        (write_arguments size argv (write size ending (write size (0 ∷ []) converts))) []
    else no_storage
