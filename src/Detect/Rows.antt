-- ===== src/Detect/Rows.antt =====
-- SYSDEPS/sd-os.c, sd-arch.c and sd-cctype.c: a test for macros, and the run through the tests.
-- Which macros the compiler defines is a parameter.
use coreland_lua_ada_load.Base.{
  Bytes, Bool, false, ◌||◌, List, [], ◌∷◌, String, codes, if◌then◌else◌,
}

-- `#if defined(...) || ...` with `var = "..."`
pub record Row : Type 0 where
  pub macros : List Bytes
  pub name : Bytes

abbrev pub row : List Bytes → String → Row
row macros name = record { macros = macros; name = codes name }

module _ (defined : Bytes → Bool) where
  abbrev pub any_defined : List Bytes → Bool
  any_defined [] = false
  any_defined (m ∷ macros) = defined m || any_defined macros

  -- The tests from some point on, where `var` has a value.
  abbrev pub detect : List Row → Bytes → Bytes
  detect [] var = var
  detect (r ∷ rows) var = detect rows (if any_defined r.macros then r.name else var)
