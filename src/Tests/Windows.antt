-- ===== src/Tests/Windows.antt =====
-- A Windows system in which every call succeeds, and the locker's command line.
use coreland_lua_ada_load.Base.{
  ℕ, suc, Bytes, Bool, true, false, none, some, List, [], ◌∷◌, if◌then◌else◌, codes, All, ◌==◌, ◌≡◌,
  ◌≢◌, refl, arith,
}
use coreland_lua_ada_load.Locker.Command.{no_storage, converts, length_total, convert_command}
use coreland_lua_ada_load.Locker.Quoting.{command_line, convert_command-converts}
use coreland_lua_ada_load.Locker.Reader.{IsPlain, read_command, read_command-convert}
use coreland_lua_ada_load.Locker.Windows.{WindowsCalls, win32_main}
use coreland_lua_ada_load.Locker.Ends.{Ends}
use coreland_lua_ada_load.Locker.WindowsRun.{win32_main-Exits}

abbrev make_all : List Bytes
make_all = codes "make" ∷ codes "all" ∷ []

abbrev storage : ℕ → Bool
storage size = true

make_all-full : make_all ≢ []
make_all-full = ground arith

convert_command-converts_example :
    convert_command storage make_all
    ≡ (if storage (length_total make_all) then converts (command_line make_all) else no_storage)
convert_command-converts_example = convert_command-converts storage make_all make_all-full

abbrev is_plain : Bytes → Bool
is_plain [] = true
is_plain (c ∷ cs) = if c == 34 then false else if c == 39 then false else is_plain cs

is_plain-IsPlain : (argument : Bytes) → is_plain argument ≡ true → IsPlain argument
is_plain-IsPlain [] h = tt
is_plain-IsPlain (c ∷ cs) h = ((ground arith, ground arith), is_plain-IsPlain cs (ground arith))

make_all-All : All IsPlain make_all
make_all-All = (is_plain-IsPlain (codes "make") refl, (is_plain-IsPlain (codes "all") refl, tt))

read_command-convert_example :
    (line : Bytes) × ((convert_command storage make_all ≡ converts line)
      × (read_command line ≡ some make_all))
read_command-convert_example = read_command-convert storage make_all make_all-full make_all-All refl

-- The world counts the processes.
abbrev windows : WindowsCalls ℕ
windows = record {
  create_file = λ f w. (some 3, w);
  lock_file_ex = λ h w. (true, w);
  unlock_file_ex = λ h w. (true, w);
  close_handle = λ h w. (true, w);
  create_process = λ command w. (some (4, 5), suc w);
  wait_for_single_object = λ p w. w;
  get_exit_code_process = λ p w. (some 2, w);
  format_message = λ w. some (codes "error");
  malloc = storage;
  atoi = λ text. 1;
}

windows-told : (w : ℕ) → windows.format_message w ≢ none
windows-told w = ground arith

win32_main-Exits_example :
    Ends (λ w. Unit) (λ s. ⊥) (win32_main windows (codes "1" ∷ codes "lock" ∷ make_all) 0)
win32_main-Exits_example =
    win32_main-Exits windows windows-told (codes "1" ∷ codes "lock" ∷ make_all) 0
