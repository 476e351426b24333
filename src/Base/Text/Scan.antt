-- ===== src/Base/Text/Scan.antt =====
-- C's sscanf (..., "%d", ...), and that it reads what %d prints.
use Prim.Native.Nat.{ℕ, zero, suc, ◌+◌, ◌-◌, ◌*◌, ◌/◌, ◌%◌, ◌^◌, ◌<◌, ◌≤◌}
use mathlib.Core.Path.{◌≡◌, refl, ap, ◌∙◌}
use mathlib.Core.Logic.{inl, inr}
use mathlib.Core.Bool.{Bool, true, false}
use mathlib.Core.Option.{Option, none, some}
use mathlib.Core.List.{[], ◌∷◌}
use native.Mathlib.Omega.{arith}
use coreland_lua_ada_load.Base.Tests.{Bool-cases, ltb, ◌==◌, if◌then◌else◌}
use coreland_lua_ada_load.Base.Lists.{length, All}
use coreland_lua_ada_load.Base.Text.{Bytes, digits_onto, fmt_ulong, fmt_ulong-All, fmt_int}

abbrev pub is_digit : ℕ → Bool
is_digit c = if ltb c 48 then false else ltb c 58

-- The value of the digits at the start of a text, behind those with the value `n`.
unfoldable digits_value : ℕ → Bytes → ℕ
digits_value n [] = n
digits_value n (c ∷ cs) =
    let rest = digits_value (n * 10 + (c - 48)) cs in if is_digit c then rest else n

unfoldable scan_ulong : Bytes → Option ℕ
unfolding digits_value
scan_ulong [] = none
scan_ulong (c ∷ cs) = if is_digit c then some (digits_value 0 (c ∷ cs)) else none

-- The bytes that isspace accepts: space, and 9 to 13.
abbrev pub is_space : ℕ → Bool
is_space c = if c == 32 then true else if ltb c 9 then false else ltb c 14

unfoldable skip_spaces : Bytes → Bytes
skip_spaces [] = []
skip_spaces (c ∷ cs) = let rest = skip_spaces cs in if is_space c then rest else c ∷ cs

-- An optional sign and digits, as a 32-bit word.
unfoldable scan_signed : Bytes → Option ℕ
unfolding scan_ulong
scan_signed [] = none
scan_signed (c ∷ cs) =
    if c == 45
    then (elim (scan_ulong cs) [ none ↦ none | some n ↦ some ((2 ^ 32 - n % 2 ^ 32) % 2 ^ 32) ])
    else (elim (scan_ulong (if c == 43 then cs else c ∷ cs)) [
      | none ↦ none
      | some n ↦ some (n % 2 ^ 32)
    ])

-- sscanf (text, "%d", ...) for a word in range: what it stores, or none if nothing matches.
unfoldable scan_int : Bytes → Option ℕ
unfolding skip_spaces scan_signed
scan_int text = scan_signed (skip_spaces text)

-- The result of sscanf, which for an empty text is EOF, and the int behind the call.
unfoldable pub sscanf_int : Bytes → ℕ → ℕ × ℕ
unfolding scan_int skip_spaces
sscanf_int text old = elim (scan_int text) [
  | none ↦ (elim (skip_spaces text) [ [] ↦ 2 ^ 32 - 1 | c ∷ cs ↦ 0 ], old)
  | some n ↦ (1, n)
]

pow_suc : (fuel : ℕ) → 10 ^ suc fuel ≡ 10 ^ fuel * 10
pow_suc fuel = omega arith

digit-is_digit : (d : ℕ) → d < 10 → is_digit (48 + d) ≡ true
digit-is_digit d h = ground arith

digits_value-digit :
    (m d n : ℕ) (out : Bytes)
    → d < 10
    → m * 10 + d ≡ n
    → digits_value m ((48 + d) ∷ out) ≡ digits_value n out
unfolding digits_value
digits_value-digit m d n out h e =
    rw (digit-is_digit d h) (ap (λ k. digits_value k out) (omega arith))

digits_onto-value :
    (fuel n : ℕ) (out : Bytes)
    → n < 10 ^ fuel
    → digits_value 0 (digits_onto 10 fuel n out) ≡ digits_value n out
unfolding digits_onto
digits_onto-value zero n out h = ap (λ k. digits_value k out) (omega arith)
digits_onto-value (suc fuel) n out h =
    let p = pow_suc fuel in
    elim (Bool-cases (ltb n 10)) [
      | inl last ↦ rw last (digits_value-digit 0 (n % 10) n out (omega arith) (ground arith))
      | inr more ↦ rw more (
          digits_onto-value fuel (n / 10) ((48 + n % 10) ∷ out) (omega arith)
          ∙ digits_value-digit (n / 10) (n % 10) n out (omega arith) (omega arith))
    ]

digits_onto-length :
    (fuel n : ℕ) (out : Bytes) → length (digits_onto 10 fuel n out) ≤ fuel + length out
unfolding digits_onto
digits_onto-length zero n out = omega arith
digits_onto-length (suc fuel) n out =
    let more = digits_onto-length fuel (n / 10) ((48 + n % 10) ∷ out) in ground (arith, more)

digits_onto-full : (fuel n c : ℕ) (out : Bytes) → (digits_onto 10 fuel n (c ∷ out) ≡ []) → ⊥
unfolding digits_onto
digits_onto-full zero n c out e = ground arith
digits_onto-full (suc fuel) n c out e =
    ground (arith, digits_onto-full fuel (n / 10) (48 + n % 10) (c ∷ out))

fmt_ulong-full : (n : ℕ) → (fmt_ulong n ≡ []) → ⊥
unfolding fmt_ulong digits_onto
fmt_ulong-full n e = ground (arith, digits_onto-full 21 (n / 10) (48 + n % 10) [])

scan_ulong-digits :
    (text : Bytes)
    → All (λ c. is_digit c ≡ true) text
    → ((text ≡ []) → ⊥)
    → scan_ulong text ≡ some (digits_value 0 text)
unfolding scan_ulong
scan_ulong-digits [] h f = absurd (f refl)
scan_ulong-digits (c ∷ cs) h f = rw h.0 refl

-- Reading a number of a 64-bit word gives it back.
scan_ulong-fmt_ulong : (n : ℕ) → n < 2 ^ 64 → scan_ulong (fmt_ulong n) ≡ some n
unfolding fmt_ulong digits_value
scan_ulong-fmt_ulong n h =
    scan_ulong-digits (fmt_ulong n) (fmt_ulong-All (λ c. is_digit c ≡ true) digit-is_digit n)
      (fmt_ulong-full n)
    ∙ ap some (digits_onto-value 22 n [] (omega arith))

digit_first :
    (c : ℕ) → is_digit c ≡ true → (is_space c ≡ false) × (((c == 45) ≡ false) × ((c == 43) ≡ false))
digit_first c h = (ground arith, (ground arith, ground arith))

scan_int-digits :
    (text : Bytes) (n : ℕ)
    → All (λ c. is_digit c ≡ true) text
    → scan_ulong text ≡ some n
    → n < 2 ^ 32
    → scan_int text ≡ some n
unfolding scan_int skip_spaces scan_signed scan_ulong
scan_int-digits [] n h e b = absurd (ground arith)
scan_int-digits (c ∷ cs) n h e b =
    let d = digit_first c h.0 in rw (d.0, d.1.0, d.1.1, e) (ap some (omega arith))

scan_int-fmt_int : (n : ℕ) → n < 2 ^ 32 → scan_int (fmt_int n) ≡ some n
unfolding fmt_int scan_int skip_spaces scan_signed
scan_int-fmt_int n h = elim (Bool-cases (ltb n (2 ^ 31))) [
  | inl small ↦ rw small (
      scan_int-digits (fmt_ulong n) n (fmt_ulong-All (λ c. is_digit c ≡ true) digit-is_digit n)
        (scan_ulong-fmt_ulong n (omega arith)) h)
  | inr large ↦ rw (large, scan_ulong-fmt_ulong (2 ^ 32 - n) (omega arith)) (ap some (omega arith))
]

pub sscanf_int-fmt_int : (n old : ℕ) → n < 2 ^ 32 → sscanf_int (fmt_int n) old ≡ (1, n)
unfolding sscanf_int
sscanf_int-fmt_int n old h =
    ap
      (λ o. elim o [
        | none ↦ (elim (skip_spaces (fmt_int n)) [ [] ↦ 2 ^ 32 - 1 | c ∷ cs ↦ 0 ], old)
        | some k ↦ (1, k)
      ])
      (scan_int-fmt_int n h)

pub length-fmt_int : (n : ℕ) → length (fmt_int n) ≤ 23
unfolding fmt_int fmt_ulong
length-fmt_int n = ground (arith, digits_onto-length 22 n [], digits_onto-length 22 (2 ^ 32 - n) [])
