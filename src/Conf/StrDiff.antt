-- ===== src/Conf/StrDiff.antt =====
-- lua-ada-load-conf.c, str_diff.
use coreland_lua_ada_load.Base.{◌<◌, Bytes, [], ◌∷◌, ◌≡◌, ◌↔◌, arith, pos}
use coreland_lua_ada_load.Conf.{str_diff}

-- The string has no NUL in it.
abbrev pub IsText : Bytes → Type 0
IsText [] = Unit
IsText (c ∷ cs) = (0 < c) × IsText cs

-- On strings without a NUL str_diff is 0 exactly if they are equal.
pub str_diff-zero_iff : (s t : Bytes) → IsText s → IsText t → (str_diff s t ≡ pos 0) ↔ (s ≡ t)
unfolding str_diff
str_diff-zero_iff [] [] a b = ground arith
str_diff-zero_iff [] (d ∷ t) a b = ground arith
str_diff-zero_iff (c ∷ s) [] a b = ground arith
str_diff-zero_iff (c ∷ s) (d ∷ t) a b = ground (arith, str_diff-zero_iff s t a.1 b.1)
