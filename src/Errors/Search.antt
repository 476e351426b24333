-- ===== src/Errors/Search.antt =====
-- install-error.c: what install_error says of an errno value.
use coreland_lua_ada_load.Base.{
  ℕ, suc, Bytes, Option, none, some, List, [], ◌∷◌, ◌++◌, ◌==◌, if◌then◌else◌, String, codes, pos,
  ◌≡◌, refl, arith,
}
use coreland_lua_ada_load.Errors.{
  ErrorRow, constant, variable, guarded, find_row, first_rows, guarded_rows, install_error,
}

-- The macros of the rows with their texts, in order; the row of 0 has none.
abbrev pub macros : List ErrorRow → List (String × String)
macros [] = []
macros (constant n text ∷ rows) = macros rows
macros (variable macro fallback text ∷ rows) = (macro, text) ∷ macros rows
macros (guarded macro text ∷ rows) = (macro, text) ∷ macros rows

-- The text of the first macro that is defined as the number.
abbrev pub macro_text : (String → Option ℕ) → ℕ → List (String × String) → Bytes
macro_text defined n [] = codes "unknown error"
macro_text defined n ((macro, text) ∷ rest) = elim (defined macro) [
  | none ↦ macro_text defined n rest
  | some m ↦ if n == m then codes text else macro_text defined n rest
]

abbrev OnlyZero : List ErrorRow → Type 0
OnlyZero [] = Unit
OnlyZero (constant n text ∷ rows) = (n ≡ 0) × OnlyZero rows
OnlyZero (_ ∷ rows) = OnlyZero rows

module _ (defined : String → Option ℕ) where
  find_row-macro_text :
      (n : ℕ) (rows : List ErrorRow)
      → OnlyZero rows
      → find_row defined (pos (suc n)) rows ≡ macro_text defined (suc n) (macros rows)
  unfolding find_row
  find_row-macro_text n [] z = refl
  find_row-macro_text n (constant m text ∷ rows) z = ground (arith, find_row-macro_text n rows z.1)
  find_row-macro_text n (variable macro fallback text ∷ rows) z =
      ground (arith, find_row-macro_text n rows z)
  find_row-macro_text n (guarded macro text ∷ rows) z = ground (arith, find_row-macro_text n rows z)

  -- For a positive errno value install_error gives the text of the first macro of its list that is
  -- defined as that value, and "unknown error" if there is none: the negative numbers that stand
  -- in for undefined macros play no part.
  pub install_error-macro_text :
      (n : ℕ)
      → install_error defined (pos (suc n))
        ≡ macro_text defined (suc n) (macros (first_rows ++ guarded_rows))
  unfolding install_error
  install_error-macro_text n =
      find_row-macro_text n (first_rows ++ guarded_rows)
        (unfold first_rows guarded_rows in (refl, tt))
