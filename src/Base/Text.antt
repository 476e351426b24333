-- ===== src/Base/Text.antt =====
-- C strings as lists of bytes: the bytes up to the terminating NUL. What the sources use of
-- printf and strcmp is here: the conversions %s (by ++), %d, %o and %lu, and the cut at a
-- buffer's end.
pub mod Scan
use Prim.Native.Nat.{ℕ, zero, suc, ◌+◌, ◌-◌, ◌/◌, ◌%◌, ◌^◌, ◌<◌}
use Prim.Native.Char.{code}
use Prim.Native.String.{String}
use mathlib.Core.Path.{◌≡◌}
use mathlib.Core.Logic.{◌↔◌, inl, inr}
use mathlib.Core.Bool.{Bool, true, false, ◌&&◌}
use mathlib.Core.Option.{Option, none, some}
use mathlib.Core.List.{List, [], ◌∷◌}
use native.Mathlib.Omega.{arith}
use coreland_lua_ada_load.Base.Tests.{Bool-cases, ltb, ◌==◌, if◌then◌else◌}
use coreland_lua_ada_load.Base.Lists.{length, take, All}

abbrev pub Bytes : Type 0
Bytes = List ℕ

abbrev pub codes : String → Bytes
codes String.[] = []
codes (String.◌∷◌ c s) = code c ∷ codes s

-- strcmp (a, b) == 0
unfoldable pub bytes_eq : Bytes → Bytes → Bool
bytes_eq [] [] = true
bytes_eq (x ∷ xs) (y ∷ ys) = x == y && bytes_eq xs ys
bytes_eq _ _ = false

pub bytes_eq_iff : (a b : Bytes) → (bytes_eq a b ≡ true) ↔ (a ≡ b)
unfolding bytes_eq
bytes_eq_iff (x ∷ a) (y ∷ b) = ground (arith, bytes_eq_iff a b)
bytes_eq_iff _ _ = ground arith

-- The string that starts a buffer: its bytes up to the first NUL.
unfoldable pub c_string : Bytes → Bytes
c_string [] = []
c_string (c ∷ cs) = if c == 0 then [] else c ∷ c_string cs

-- The digits of n in a base, at most `fuel` of them: 22 serve a 64-bit word in base 8.
digits_onto : ℕ → ℕ → ℕ → Bytes → Bytes
digits_onto base zero n out = out
digits_onto base (suc fuel) n out =
    let out' = (b'0' + n % base) ∷ out in
    let more = digits_onto base fuel (n / base) out' in if ltb n base then out' else more

-- What holds of every digit holds of all bytes.
digits_onto-All :
    (P : ℕ → Type 0)
    → ((d : ℕ) → d < 10 → P (b'0' + d))
    → (fuel n : ℕ) (out : Bytes) → All P out
    → All P (digits_onto 10 fuel n out)
unfolding digits_onto
digits_onto-All P digit zero n out h = h
digits_onto-All P digit (suc fuel) n out h =
    let now = digit (n % 10) (omega arith) in
    elim (Bool-cases (ltb n 10)) [
      | inl last ↦ rw last (now, h)
      | inr more ↦ rw more (digits_onto-All P digit fuel (n / 10) ((b'0' + n % 10) ∷ out) (now, h))
    ]

-- %lu and %o
unfoldable pub fmt_ulong : ℕ → Bytes
unfolding digits_onto
fmt_ulong n = digits_onto 10 22 n []

pub fmt_ulong-All :
    (P : ℕ → Type 0) → ((d : ℕ) → d < 10 → P (b'0' + d)) → (n : ℕ) → All P (fmt_ulong n)
unfolding fmt_ulong
fmt_ulong-All P digit n = digits_onto-All P digit 22 n [] tt

unfoldable pub fmt_octal : ℕ → Bytes
unfolding digits_onto
fmt_octal n = digits_onto 8 22 n []

-- %d of a 32-bit word, which stands for a negative number from 2^31 on.
unfoldable pub fmt_int : ℕ → Bytes
unfolding fmt_ulong
fmt_int n = if ltb n (2 ^ 31) then fmt_ulong n else b'-' ∷ fmt_ulong (2 ^ 32 - n)

-- snprintf (buffer, size, ...): the text that the buffer holds afterwards, cut to size - 1
-- bytes, or none if the result is negative, which is so when the whole length exceeds INT_MAX.
unfoldable pub snprintf : ℕ → Bytes → Option Bytes
snprintf size text = if ltb (2 ^ 31 - 1) (length text) then none else some (take (size - 1) text)

abbrev pub text_or : Option Bytes → Bytes → Bytes
text_or none d = d
text_or (some t) d = t
