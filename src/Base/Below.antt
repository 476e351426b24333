-- ===== src/Base/Below.antt =====
-- Facts about all numbers below a bound, checked one by one.
use Prim.Native.Nat.{ℕ, zero, suc, ◌<◌}
use mathlib.Core.Path.{◌≡◌, sym, ap, ◌∙◌}
use mathlib.Core.Logic.{inl, inr}
use mathlib.Core.Bool.{Bool, true, false, not, ◌&&◌}
use native.Mathlib.Omega.{arith}
use coreland_lua_ada_load.Base.Tests.{◌==◌, Bool-cases}

-- All numbers below a bound pass a test.
unfoldable pub all_below : ℕ → (ℕ → Bool) → Bool
all_below zero f = true
all_below (suc n) f = f n && all_below n f

pub all_below-elim : (m : ℕ) (f : ℕ → Bool) → all_below m f ≡ true → (n : ℕ) → n < m → f n ≡ true
unfolding all_below
all_below-elim zero f h n k = absurd (omega arith)
all_below-elim (suc m) f h n k = elim (Bool-cases (n == m)) [
  | inl same ↦ ap f (equal n m (ground arith)) ∙ ground arith
  | inr other ↦ all_below-elim m f (ground arith) n (ground arith)
]
  where
    equal : (a b : ℕ) → (a == b) ≡ true → a ≡ b
    equal a b e = ground arith

abbrev pub bool_eq : Bool → Bool → Bool
bool_eq true b = b
bool_eq false b = not b

pub bool_eq-eq : (a b : Bool) → bool_eq a b ≡ true → a ≡ b
bool_eq-eq true b h = sym h
bool_eq-eq false b h = ground arith
