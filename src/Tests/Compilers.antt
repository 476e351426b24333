-- ===== src/Tests/Compilers.antt =====
-- Compilers that define one macro each, and the theorems about versions and constants at them.
use coreland_lua_ada_load.Base.{
  ℕ, Bytes, Bool, Option, none, some, if◌then◌else◌, codes, bytes_eq, ◌≡◌, ◌↔◌, refl, arith,
}
use coreland_lua_ada_load.Ccversion.Compilers.{
  Version, hex_decode_tri, dec_decode_tri, ccversion_main,
}
use coreland_lua_ada_load.Ccversion.Decode.{IsDigits, decode_tri-IsDigits}
use coreland_lua_ada_load.Detect.Sysinfo.{os_constants, arch_constants, cc_type_constants}
use coreland_lua_ada_load.Detect.Programs.{os_main, arch_main, cc_type_main}
use coreland_lua_ada_load.Detect.Constants.{IsConstant, main-IsConstant}

abbrev intel_macro : Bytes → Option ℕ
unfolding bytes_eq
intel_macro name = if bytes_eq name (codes "__INTEL_COMPILER") then some 1110 else none

-- Version 11.1.0 is printed.
intel_main : ccversion_main intel_macro ≡ some (codes "11.1.0\n")
unfolding ccversion_main intel_macro
intel_main = refl

abbrev intel_version : Version
intel_version = record { major = 11; minor = 1; patch = 0 }

abbrev borland_version : Version
borland_version = record { major = 5; minor = 8; patch = 2 }

decode_tri-IsDigits_example :
    ((hex_decode_tri 0x582 ≡ borland_version) ↔ IsDigits 16 0x582 borland_version)
    × ((dec_decode_tri 0x582 ≡ borland_version) ↔ IsDigits 10 0x582 borland_version)
decode_tri-IsDigits_example = decode_tri-IsDigits 0x582 borland_version (omega arith)

abbrev apple : Bytes → Bool
unfolding bytes_eq
apple name = bytes_eq name (codes "__APPLE__")

main-IsConstant_example :
    IsConstant os_constants (os_main apple)
    × (IsConstant arch_constants (arch_main apple)
        × IsConstant cc_type_constants (cc_type_main apple))
main-IsConstant_example = main-IsConstant apple
