-- ===== src/Detect/Constants.antt =====
-- SYSDEPS/sd-os.c, sd-arch.c and sd-cctype.c print constants of sd-sysinfo.h.
use coreland_lua_ada_load.Base.{
  ℕ, Bytes, Bool, true, false, Option, none, some, List, [], ◌∷◌, ◌++◌, ◌==◌, if◌then◌else◌, codes,
  bytes_eq, bytes_eq_iff, Bool-cases, Option-cases, inl, inr, ◌≡◌, refl, arith,
}
use coreland_lua_ada_load.Detect.Rows.{Row, any_defined, detect}
use coreland_lua_ada_load.Detect.Os.{os_rows}
use coreland_lua_ada_load.Detect.Arch.{arch_rows}
use coreland_lua_ada_load.Detect.CcType.{cc_type_rows}
use coreland_lua_ada_load.Detect.Sysinfo.{os_constants, arch_constants, cc_type_constants}
use coreland_lua_ada_load.Detect.Programs.{unknown, os_main, arch_main, cc_type_main}

-- The value of a constant.
unfoldable pub value_of : Bytes → List (Bytes × ℕ) → Option ℕ
unfolding bytes_eq
value_of name [] = none
value_of name ((n, v) ∷ cs) = elim (bytes_eq name n) [ true ↦ some v | false ↦ value_of name cs ]

abbrev found : Bytes → Bytes → List (Bytes × ℕ) → Bool
found prefix name cs = elim (value_of (prefix ++ name) cs) [ none ↦ false | some v ↦ true ]

abbrev covers : Bytes → List (Bytes × ℕ) → List Row → Bool
covers prefix cs [] = true
covers prefix cs (r ∷ rows) = elim (found prefix r.name cs) [
  | true ↦ covers prefix cs rows
  | false ↦ false
]

detect-found :
    (defined : Bytes → Bool) (prefix : Bytes) (cs : List (Bytes × ℕ)) (rows : List Row)
    (var : Bytes)
    → covers prefix cs rows ≡ true
    → found prefix var cs ≡ true
    → found prefix (detect defined rows var) cs ≡ true
detect-found defined prefix cs [] var c f = f
detect-found defined prefix cs (r ∷ rows) var c f = elim (Bool-cases (found prefix r.name cs)) [
  | inl e ↦
      detect-found defined prefix cs rows (if any_defined defined r.macros then r.name else var)
        (ground (arith, c, e))
        (elim (Bool-cases (any_defined defined r.macros)) [ inl a ↦ rw a e | inr a ↦ rw a f ])
  | inr e ↦ absurd (ground (arith, c, e))
]

abbrev has : ℕ → List (Bytes × ℕ) → Bool
has v [] = false
has v ((n, k) ∷ cs) = elim (v == k) [ true ↦ true | false ↦ has v cs ]

abbrev distinct : List (Bytes × ℕ) → Bool
distinct [] = true
distinct ((n, k) ∷ cs) = elim (has k cs) [ true ↦ false | false ↦ distinct cs ]

value_of-has :
    (name : Bytes) (v : ℕ) (cs : List (Bytes × ℕ)) → value_of name cs ≡ some v → has v cs ≡ true
unfolding value_of
value_of-has name v [] e = absurd (ground arith)
value_of-has name v ((n, k) ∷ cs) e = ground (arith, value_of-has name v cs)

-- With distinct values a value has one name.
value_of_unique :
    (a b : Bytes) (v : ℕ) (cs : List (Bytes × ℕ))
    → distinct cs ≡ true
    → value_of a cs ≡ some v
    → value_of b cs ≡ some v
    → a ≡ b
unfolding value_of
value_of_unique a b v [] d p q = absurd (ground arith)
value_of_unique a b v ((n, k) ∷ cs) d p q = ground (
  arith,
  (bytes_eq_iff a n).0,
  (bytes_eq_iff b n).0,
  value_of-has a v cs,
  value_of-has b v cs,
  value_of_unique a b v cs,
)

-- The line is the name of a constant, which is the only one with its value.
pub record IsConstant (cs : List (Bytes × ℕ)) (line : Bytes) : Type 0 where
  pub name : Bytes
  pub value : ℕ
  pub is_line : line ≡ name ++ codes "\n"
  pub is_defined : value_of name cs ≡ some value
  pub is_only : (other : Bytes) → value_of other cs ≡ some value → other ≡ name

detect-IsConstant :
    (defined : Bytes → Bool) (prefix : Bytes) (cs : List (Bytes × ℕ)) (rows : List Row)
    → covers prefix cs rows ≡ true
    → found prefix unknown cs ≡ true
    → distinct cs ≡ true
    → IsConstant cs ((prefix ++ detect defined rows unknown) ++ codes "\n")
detect-IsConstant defined prefix cs rows c u d =
    elim (Option-cases (value_of (prefix ++ detect defined rows unknown) cs)) [
      | inl e ↦ absurd (ground (arith, detect-found defined prefix cs rows unknown c u, e))
      | inr (v, e) ↦ record {
        name = prefix ++ detect defined rows unknown;
        value = v;
        is_line = refl;
        is_defined = e;
        is_only =
            λ other q. value_of_unique other (prefix ++ detect defined rows unknown) v cs d q e;
      }
    ]

-- Whatever macros the compiler defines, each of the three programs prints the name of a constant
-- that sd-sysinfo.h defines for its kind, and no other constant of the kind has its value.
pub main-IsConstant :
    (defined : Bytes → Bool)
    → IsConstant os_constants (os_main defined)
      × (IsConstant arch_constants (arch_main defined)
          × IsConstant cc_type_constants (cc_type_main defined))
unfolding os_main arch_main cc_type_main value_of bytes_eq os_constants arch_constants
    cc_type_constants os_rows arch_rows cc_type_rows
main-IsConstant defined = (
  detect-IsConstant defined (codes "SD_SYSINFO_OS_") os_constants os_rows refl refl refl,
  (
    detect-IsConstant defined (codes "SD_SYSINFO_ARCH_") arch_constants arch_rows refl refl refl,
    detect-IsConstant defined (codes "SD_SYSINFO_CC_TYPE_") cc_type_constants cc_type_rows refl refl
        refl,
  ),
)
