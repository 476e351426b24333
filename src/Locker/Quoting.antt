-- ===== src/Locker/Quoting.antt =====
-- SYSDEPS/sd-locker_win32.c: the command line fits its buffer.
use coreland_lua_ada_load.Base.{
  ℕ, ◌+◌, ◌*◌, ◌≤◌, Bytes, Bool, List, [], ◌∷◌, ◌++◌, if◌then◌else◌, length, append_assoc,
  append-nil, length-append, ◌≡◌, ◌≢◌, refl, sym, ◌∙◌, ap, arith,
}
use coreland_lua_ada_load.Locker.Command.{
  prefix, quote, space, ending, length_total, Conversion, no_storage, converts, write,
  write_arguments, convert_command,
}

-- The arguments in quotes, each with a space behind it.
abbrev pub quoted : List Bytes → Bytes
quoted [] = []
quoted (argument ∷ argv) = quote ++ (argument ++ (quote ++ (space ++ quoted argv)))

abbrev pub command_line : List Bytes → Bytes
command_line argv = prefix ++ (quoted argv ++ (ending ++ 0 ∷ []))

write-fits :
    (size : ℕ) (text buffer : Bytes) (k : Bytes → Conversion)
    → length buffer + length text ≤ size
    → write size text k buffer ≡ k (buffer ++ text)
write-fits size text buffer k h = ground (arith, length-append buffer text)

length-quoted :
    (argument : Bytes) (argv : List Bytes)
    → length (quoted (argument ∷ argv)) ≡ length argument + length (quoted argv) + 3
length-quoted argument argv =
    omega (arith, length-append argument (quote ++ (space ++ quoted argv)))

write_arguments-fits :
    (size : ℕ) (argv : List Bytes) (k : Bytes → Conversion) (buffer : Bytes)
    → length buffer + length (quoted argv) ≤ size
    → write_arguments size argv k buffer ≡ k (buffer ++ quoted argv)
write_arguments-fits size [] k buffer h = ap k (sym (append-nil buffer))
write_arguments-fits size (argument ∷ argv) k b h =
    let n = length-quoted argument argv in
    let last = write_arguments size argv k in
    let b1 = b ++ quote in
    let b2 = b1 ++ argument in
    let b3 = b2 ++ quote in
    let b4 = b3 ++ space in
    let n1 = length-append b quote in
    let n2 = length-append b1 argument in
    let n3 = length-append b2 quote in
    let n4 = length-append b3 space in
    write-fits size quote b (write size argument (write size quote (write size space last)))
      (omega arith)
    ∙ write-fits size argument b1 (write size quote (write size space last)) (omega arith)
    ∙ write-fits size quote b2 (write size space last) (omega arith)
    ∙ write-fits size space b3 last (omega arith)
    ∙ write_arguments-fits size argv k b4 (omega arith)
    ∙ ap k (simp append_assoc)

length_total-quoted :
    (argv : List Bytes) → length_total argv ≡ length (quoted argv) + 3 * length argv + 8
length_total-quoted [] = refl
length_total-quoted (argument ∷ argv) =
    omega (arith, length_total-quoted argv, length-quoted argument argv)

-- For a command of one word or more, no write leaves the buffer: where there is storage of the
-- computed size, it holds the shell's prefix, the arguments in quotes, each with a space behind
-- it, the closing quote and the zero byte.
pub convert_command-converts :
    (malloc : ℕ → Bool) (argv : List Bytes)
    → argv ≢ []
    → convert_command malloc argv
      ≡ (if malloc (length_total argv) then converts (command_line argv) else no_storage)
unfolding convert_command
convert_command-converts malloc [] h = absurd (h refl)
convert_command-converts malloc (argument ∷ rest) h =
    let argv = argument ∷ rest in
    let size = length_total argv in
    let t = length_total-quoted argv in
    let last = write size ending (write size (0 ∷ []) converts) in
    let b1 = prefix ++ quoted argv in
    let n1 = length-append prefix (quoted argv) in
    let n2 = length-append b1 ending in
    ap (λ c. if malloc size then c else no_storage)
      (write-fits size prefix [] (write_arguments size argv last) (omega arith)
        ∙ write_arguments-fits size argv last prefix (omega arith)
        ∙ write-fits size ending b1 (write size (0 ∷ []) converts) (omega arith)
        ∙ write-fits size (0 ∷ []) (b1 ++ ending) converts (omega arith)
        ∙ ap converts (simp append_assoc))
