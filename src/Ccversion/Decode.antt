-- ===== src/Ccversion/Decode.antt =====
-- SYSDEPS/sd-ccversion.c: what the decoded numbers are.
use coreland_lua_ada_load.Base.{ℕ, ◌+◌, ◌*◌, ◌^◌, ◌<◌, ◌≡◌, subst, ◌↔◌, arith}
use coreland_lua_ada_load.Ccversion.Compilers.{Version, hex_decode_tri, dec_decode_tri}

-- The numbers are the digits of ver.
abbrev pub IsDigits : ℕ → ℕ → Version → Type 0
IsDigits base ver v =
    (ver ≡ v.major * (base * base) + v.minor * base + v.patch)
    × ((v.minor < base) × (v.patch < base))

pub Version-eq : (a b : Version) → a.major ≡ b.major → a.minor ≡ b.minor → a.patch ≡ b.patch → a ≡ b
Version-eq a b p q r = ground arith

IsDigits-hex : (ver : ℕ) (v : Version) → ver < 2 ^ 32 → IsDigits 16 ver v → hex_decode_tri ver ≡ v
unfolding hex_decode_tri
IsDigits-hex ver v h d = Version-eq (hex_decode_tri ver) v (omega arith) (omega arith) (omega arith)

IsDigits-dec : (ver : ℕ) (v : Version) → ver < 2 ^ 32 → IsDigits 10 ver v → dec_decode_tri ver ≡ v
unfolding dec_decode_tri
IsDigits-dec ver v h d = Version-eq (dec_decode_tri ver) v (omega arith) (omega arith) (omega arith)

hex-IsDigits : (ver : ℕ) → ver < 2 ^ 32 → IsDigits 16 ver (hex_decode_tri ver)
unfolding hex_decode_tri
hex-IsDigits ver h = (omega arith, (omega arith, omega arith))

dec-IsDigits : (ver : ℕ) → ver < 2 ^ 32 → IsDigits 10 ver (dec_decode_tri ver)
unfolding dec_decode_tri
dec-IsDigits ver h = (omega arith, (omega arith, omega arith))

-- For a number of unsigned int, hex_decode_tri gives the version, and no other, whose minor number
-- and patch are its two last hexadecimal digits and whose major number is what is above them;
-- dec_decode_tri does the same with decimal digits.
pub decode_tri-IsDigits :
    (ver : ℕ) (v : Version)
    → ver < 2 ^ 32
    → ((hex_decode_tri ver ≡ v) ↔ IsDigits 16 ver v)
      × ((dec_decode_tri ver ≡ v) ↔ IsDigits 10 ver v)
decode_tri-IsDigits ver v h = (
  (λ e. subst (IsDigits 16 ver) e (hex-IsDigits ver h), IsDigits-hex ver v h),
  (λ e. subst (IsDigits 10 ver) e (dec-IsDigits ver h), IsDigits-dec ver v h),
)
