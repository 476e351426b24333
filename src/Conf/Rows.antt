-- ===== src/Conf/Rows.antt =====
-- lua-ada-load-conf.c: call_flags, one row of the table after another.
use coreland_lua_ada_load.Base.{
  ℕ, Bytes, Bool, true, false, none, some, List, [], ◌∷◌, ◌++◌, ◌≡◌, refl, arith,
}
use coreland_lua_ada_load.Ctxt.{Ctxt}
use coreland_lua_ada_load.Conf.{FlagRow, Printed, call_flags, is_set}

abbrev pub shown : Bool → Bytes → Bytes
shown true text = text
shown false text = []

abbrev pub quietly : Bytes → Printed
quietly text = record { text = text; exits = false }

pub call_flags-nil : (F : ℕ) (c : Ctxt) → call_flags [] F c ≡ quietly []
unfolding call_flags
call_flags-nil F c = refl

module _ (r : FlagRow) (rows : List FlagRow) (F : ℕ) (c : Ctxt) where
  -- A row whose function does not exit prints before the rest.
  pub call_flags-shown :
      (f : ℕ → Ctxt → Printed) (b : Bool) (text rest : Bytes)
      → r.func ≡ some f
      → is_set F r.val ≡ b
      → f F c ≡ quietly text
      → call_flags rows F c ≡ quietly rest
      → call_flags (r ∷ rows) F c ≡ quietly (shown b text ++ rest)
  unfolding call_flags
  call_flags-shown f b text rest e x y h = ground arith

  pub call_flags-unset : is_set F r.val ≡ false → call_flags (r ∷ rows) F c ≡ call_flags rows F c
  unfolding call_flags
  call_flags-unset h = ground arith

  pub call_flags-none : r.func ≡ none → call_flags (r ∷ rows) F c ≡ call_flags rows F c
  unfolding call_flags
  call_flags-none h = ground arith

  pub call_flags-exits :
      (f : ℕ → Ctxt → Printed)
      → r.func ≡ some f
      → is_set F r.val ≡ true
      → (f F c).exits ≡ true
      → call_flags (r ∷ rows) F c ≡ f F c
  unfolding call_flags
  call_flags-exits f e x y = ground arith

  pub call_flags-silent :
      (f : ℕ → Ctxt → Printed)
      → r.func ≡ some f
      → f F c ≡ quietly []
      → call_flags (r ∷ rows) F c ≡ call_flags rows F c
  unfolding call_flags
  call_flags-silent f e y = ground arith
