-- ===== src/Ccversion/Known.antt =====
-- SYSDEPS/sd-ccversion.c: what is printed for compilers whose macros are known.
use coreland_lua_ada_load.Base.{
  ℕ, ◌+◌, ◌*◌, ◌^◌, ◌<◌, Bytes, true, false, Option, none, some, List, [], ◌∷◌, ◌++◌, codes,
  bytes_eq, fmt_ulong, ◌≡◌,
}
use coreland_lua_ada_load.Ccversion.Compilers.{Version}

-- Compilers that have their version in one macro of three parts.
pub data OneMacro : Type 0 where
  borland comeau digital_mars hp xl ibm_c ibm_cxx intel codewarrior pelles small_device sun_c
        sun_cxx :
      OneMacro

abbrev pub macro_name : OneMacro → Bytes
macro_name borland = codes "__BORLANDC__"
macro_name comeau = codes "__COMO_VERSION__"
macro_name digital_mars = codes "__DMC__"
macro_name hp = codes "__HP_aCC"
macro_name xl = codes "__xlC__"
macro_name ibm_c = codes "__IBMC__"
macro_name ibm_cxx = codes "__IBMCPP__"
macro_name intel = codes "__INTEL_COMPILER"
macro_name codewarrior = codes "__MWERKS__"
macro_name pelles = codes "__POCC__"
macro_name small_device = codes "SDCC"
macro_name sun_c = codes "__SUNPRO_C"
macro_name sun_cxx = codes "__SUNPRO_CC"

-- What a part of the major and of the minor number counts for.
abbrev pub scale : OneMacro → ℕ × ℕ
scale borland = (256, 16)
scale comeau = (100, 10)
scale digital_mars = (256, 16)
scale hp = (10000, 100)
scale xl = (256, 16)
scale ibm_c = (100, 10)
scale ibm_cxx = (100, 10)
scale intel = (100, 10)
scale codewarrior = (4096, 256)
scale pelles = (100, 10)
scale small_device = (100, 10)
scale sun_c = (256, 16)
scale sun_cxx = (256, 16)

-- What defines the macros: no compiler that is known, one of those above, Compaq's two with the
-- digit for the kind of the release, Keil's three, GNU C with a patch level and before it had one,
-- or Intel's, which calls itself GNU C 4.2.1 as well.
pub data Known : Type 0 where
  no_compiler : Known
  one_macro_of : OneMacro → Known
  compaq_c compaq_cxx : ℕ → Known
  keil_carm keil_c166 keil_c51 : Known
  gnu_c old_gnu_c intel_as_gnu : Known

abbrev pub three_parts : OneMacro → Version → ℕ
three_parts o v = v.major * (scale o).0 + v.minor * (scale o).1 + v.patch

abbrev pub compaq_number : ℕ → Version → ℕ
compaq_number kind v = v.major * 10000000 + v.minor * 100000 + kind * 10000 + v.patch

abbrev pub macros_of : Known → Version → List (Bytes × ℕ)
macros_of no_compiler v = []
macros_of (one_macro_of o) v = (macro_name o, three_parts o v) ∷ []
macros_of (compaq_c kind) v = (codes "__DECC_VER", compaq_number kind v) ∷ []
macros_of (compaq_cxx kind) v = (codes "__DECCXX_VER", compaq_number kind v) ∷ []
macros_of keil_carm v = (codes "__CA__", v.major * 100 + v.minor) ∷ []
macros_of keil_c166 v = (codes "__C166__", v.major * 100 + v.minor) ∷ []
macros_of keil_c51 v = (codes "__C51__", v.major * 100 + v.minor) ∷ []
macros_of gnu_c v =
    (codes "__GNUC__", v.major)
    ∷ (codes "__GNUC_MINOR__", v.minor)
    ∷ (codes "__GNUC_PATCHLEVEL__", v.patch)
    ∷ []
macros_of old_gnu_c v = (codes "__GNUC__", v.major) ∷ (codes "__GNUC_MINOR__", v.minor) ∷ []
macros_of intel_as_gnu v =
    (codes "__GNUC__", 4)
    ∷ (codes "__GNUC_MINOR__", 2)
    ∷ (codes "__GNUC_PATCHLEVEL__", 1)
    ∷ (codes "__INTEL_COMPILER", three_parts intel v)
    ∷ []

-- The parts fit their digits, and the macros an unsigned int.
abbrev pub FitsOne : OneMacro → Version → Type 0
FitsOne o v =
    (three_parts o v < 2 ^ 32)
    × (v.minor * (scale o).1 + v.patch < (scale o).0)
    × (v.patch < (scale o).1)

abbrev pub FitsCompaq : ℕ → Version → Type 0
FitsCompaq kind v =
    (compaq_number kind v < 2 ^ 32) × (v.minor < 100) × (kind < 10) × (v.patch < 10000)

abbrev pub FitsKeil : Version → Type 0
FitsKeil v = (v.major * 100 + v.minor < 2 ^ 32) × (v.minor < 100) × (v.patch ≡ 0)

abbrev pub Fits : Known → Version → Type 0
Fits no_compiler v = (v.major ≡ 0) × (v.minor ≡ 0) × (v.patch ≡ 0)
Fits (one_macro_of o) v = FitsOne o v
Fits (compaq_c kind) v = FitsCompaq kind v
Fits (compaq_cxx kind) v = FitsCompaq kind v
Fits keil_carm v = FitsKeil v
Fits keil_c166 v = FitsKeil v
Fits keil_c51 v = FitsKeil v
Fits gnu_c v = (v.major < 2 ^ 32) × (v.minor < 2 ^ 32) × (v.patch < 2 ^ 32)
Fits old_gnu_c v = (v.major < 2 ^ 32) × (v.minor < 2 ^ 32) × (v.patch ≡ 0)
Fits intel_as_gnu v = FitsOne intel v

-- The macros of a list, and no others.
unfoldable pub defined_by : List (Bytes × ℕ) → Bytes → Option ℕ
unfolding bytes_eq
defined_by [] name = none
defined_by ((n, k) ∷ macros) name = elim (bytes_eq n name) [
  | true ↦ some k
  | false ↦ defined_by macros name
]

abbrev pub dotted : Version → Bytes
dotted v =
    fmt_ulong v.major
    ++ (codes "." ++ (fmt_ulong v.minor ++ (codes "." ++ (fmt_ulong v.patch ++ codes "\n"))))
