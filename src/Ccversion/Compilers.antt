-- ===== src/Ccversion/Compilers.antt =====
-- SYSDEPS/sd-ccversion.c: the program. The macros that the compiler defines are a parameter.
use coreland_lua_ada_load.Base.{
  ℕ, ◌-◌, ◌*◌, ◌/◌, ◌%◌, ◌^◌, Bytes, Bool, true, false, ◌&&◌, ◌||◌, Option, none, some, List, [],
  ◌∷◌, ◌++◌, if◌then◌else◌, codes, fmt_ulong,
}

-- ver_major, ver_minor and ver_patch
pub record Version : Type 0 where
  pub major : ℕ
  pub minor : ℕ
  pub patch : ℕ

-- The parts of a number of unsigned int: above a, from b up to a, and below b.
abbrev pub decode_tri : ℕ → ℕ → ℕ → Version
decode_tri a b number =
    let ver = number % 2 ^ 32 in
    let major = ver / a in
    let below = ver - major * a in
    let minor = below / b in record { major = major; minor = minor; patch = below - minor * b }

unfoldable pub hex_decode_tri : ℕ → Version
hex_decode_tri number = decode_tri 256 16 number

unfoldable pub dec_decode_tri : ℕ → Version
dec_decode_tri number = decode_tri 100 10 number

-- Of Compaq's compilers: the patch has four digits.
abbrev pub compaq_decode : ℕ → Version
compaq_decode number =
    let v = decode_tri 10000000 100000 number in
    record v { patch = v.patch - v.patch / 10000 * 10000 }

-- Of IAR and Keil: two parts.
abbrev pub decode_two : ℕ → Version
decode_two number =
    let ver = number % 2 ^ 32 in
    let major = ver / 100 in record { major = major; minor = ver - major * 100; patch = 0 }

-- A part of main for one compiler: its `#if`, and what is done then. Without a macro that it uses,
-- the program does not compile.
pub record Compiler : Type 0 where
  pub guard : Bool
  pub decode : Version → Option Version

module _ (macro : Bytes → Option ℕ) where
  abbrev pub defined : Bytes → Bool
  defined name = elim (macro name) [ none ↦ false | some n ↦ true ]

  abbrev pub using : Bytes → (ℕ → Option Version) → Option Version
  using name k = elim (macro name) [ none ↦ none | some n ↦ k n ]

  -- A compiler whose version is in one macro.
  abbrev pub one_macro : Bytes → Bytes → (ℕ → Version) → Compiler
  one_macro name value decode = record {
    guard = defined name;
    decode = λ v. using value λ n. some (decode n);
  }

  -- A compiler whose major and minor number are macros of their own, and the patch stays or is 0.
  abbrev pub two_macros : Bytes → Bytes → Bytes → (Version → ℕ) → Compiler
  two_macros name major minor patch = record {
    guard = defined name;
    decode = λ v. using major λ n.
        using minor λ k. some (record { major = n % 2 ^ 32; minor = k % 2 ^ 32; patch = patch v });
  }

  abbrev pub three_macros : Bytes → Bytes → Bytes → Bytes → Compiler
  three_macros name major minor patch = record {
    guard = defined name;
    decode = λ v. using major λ n. using minor λ k.
        using patch
          λ p. some (record { major = n % 2 ^ 32; minor = k % 2 ^ 32; patch = p % 2 ^ 32 });
  }

  abbrev pub gnu : Compiler
  gnu =
      if defined (codes "__GNUC_PATCHLEVEL__")
      then three_macros (codes "__GNUC__") (codes "__GNUC__") (codes "__GNUC_MINOR__")
          (codes "__GNUC_PATCHLEVEL__")
      else two_macros (codes "__GNUC__") (codes "__GNUC__") (codes "__GNUC_MINOR__") (λ v. 0)

  abbrev pub mipspro : Bytes → Compiler
  mipspro name = record {
    guard = (defined (codes "__sgi") || defined (codes "sgi")) && defined name;
    decode = λ v. using name λ n. some (decode_tri 100 10 n);
  }

  abbrev pub mpw : Compiler
  mpw = record {
    guard = defined (codes "__MRC__") || defined (codes "MPW_C") || defined (codes "MPW_CPLUS");
    decode = λ v. using (codes "__MRC__") λ n. some (record (decode_tri 256 16 n) { patch = 0 });
  }

  -- The parts of main, in order.
  abbrev pub first_compilers : List Compiler
  first_compilers =
      one_macro (codes "__BORLANDC__") (codes "__BORLANDC__") hex_decode_tri
      ∷ one_macro (codes "__COMO_VERSION__") (codes "__COMO_VERSION__") dec_decode_tri
      ∷ one_macro (codes "__DECC_VER") (codes "__DECC_VER") compaq_decode
      ∷ one_macro (codes "__DECCXX_VER") (codes "__DECCXX_VER") compaq_decode
      ∷ two_macros (codes "_CRAY") (codes "_RELEASE") (codes "_RELEASE_MINOR") (λ v. v.patch)
      ∷ one_macro (codes "__DMC__") (codes "__DMC__") hex_decode_tri
      ∷ two_macros (codes "__DJGPP__") (codes "__DJGPP__") (codes "__DJGPP_MINOR__") (λ v. v.patch)
      ∷ three_macros (codes "__PATHCC__") (codes "__PATHCC__") (codes "__PATHCC_MINOR__")
          (codes "__PATHCC_PATCHLEVEL__")
      ∷ one_macro (codes "__EDG__") (codes "__EDG_VERSION__") dec_decode_tri
      ∷ gnu
      ∷ one_macro (codes "__ghs__") (codes "__GHS_VERSION_NUMBER__") dec_decode_tri
      ∷ one_macro (codes "__HP_aCC") (codes "__HP_aCC") (decode_tri 10000 100)
      ∷ one_macro (codes "__xlC__") (codes "__xlC__") hex_decode_tri
      ∷ one_macro (codes "__IBMC__") (codes "__IBMC__") dec_decode_tri
      ∷ one_macro (codes "__IBMCPP__") (codes "__IBMCPP__") dec_decode_tri
      ∷ one_macro (codes "__IAR_SYSTEMS_ICC__") (codes "__VER__") decode_two
      ∷ one_macro (codes "__INTEL_COMPILER") (codes "__INTEL_COMPILER") dec_decode_tri
      ∷ one_macro (codes "__KCC") (codes "__KCC_VERSION") (decode_tri 4096 256)
      ∷ one_macro (codes "__CA__") (codes "__CA__") decode_two
      ∷ one_macro (codes "__C166__") (codes "__C166__") decode_two
      ∷ []

  abbrev pub later_compilers : List Compiler
  later_compilers =
      one_macro (codes "__C51__") (codes "__C51__") decode_two
      ∷ one_macro (codes "__MWERKS__") (codes "__MWERKS__") (decode_tri 4096 256)
      ∷ two_macros (codes "__MINGW32__") (codes "__MINGW32_MAJOR_VERSION")
          (codes "__MINGW32_MINOR_VERSION") (λ v. 0)
      ∷ mipspro (codes "_SGI_COMPILER_VERSION")
      ∷ mipspro (codes "_COMPILER_VERSION")
      ∷ mpw
      ∷ one_macro (codes "_PACC_VER") (codes "_PACC_VER")
          (λ n. let v = decode_tri 16777216 1048576 n in record v { patch = v.patch / 4096 })
      ∷ one_macro (codes "__POCC__") (codes "__POCC__") dec_decode_tri
      ∷ three_macros (codes "__PCC__") (codes "__PCC__") (codes "__PCC_MINOR__")
          (codes "__PCC_MINORMINOR__")
      ∷ one_macro (codes "SDCC") (codes "SDCC") dec_decode_tri
      ∷ one_macro (codes "__SUNPRO_C") (codes "__SUNPRO_C") hex_decode_tri
      ∷ one_macro (codes "__SUNPRO_CC") (codes "__SUNPRO_CC") hex_decode_tri
      ∷ one_macro (codes "__SYSC__") (codes "__SYSC_VER__") (decode_tri 10000 1000)
      ∷ two_macros (codes "_UCC") (codes "_MAJOR_REV") (codes "_MINOR_REV") (λ v. 0)
      ∷ one_macro (codes "__WATCOMC__") (codes "__WATCOMC__")
          (λ n. record (decode_tri 100 10 n) { patch = 0 })
      ∷ []

  unfoldable pub compilers : List Compiler
  unfolding hex_decode_tri dec_decode_tri
  compilers = first_compilers ++ later_compilers

  abbrev pub run : List Compiler → Version → Option Version
  run [] v = some v
  run (c ∷ cs) v =
      let next = (if c.guard then c.decode v else some v) in
      elim next [ none ↦ none | some v' ↦ run cs v' ]

  abbrev pub nothing : Version
  nothing = record { major = 0; minor = 0; patch = 0 }

  unfoldable pub detected : Option Version
  unfolding compilers
  detected = run compilers nothing

  -- What main prints; none where the program does not compile.
  unfoldable pub ccversion_main : Option Bytes
  unfolding detected fmt_ulong
  ccversion_main = elim detected [
    | none ↦ none
    | some v ↦ some (
        fmt_ulong v.major
        ++ (codes "." ++ (fmt_ulong v.minor ++ (codes "." ++ (fmt_ulong v.patch ++ codes "\n")))))
  ]
