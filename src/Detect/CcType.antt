-- ===== src/Detect/CcType.antt =====
-- SYSDEPS/sd-cctype.c: the tests for compilers, in order.
use coreland_lua_ada_load.Base.{List, [], ◌∷◌, codes}
use coreland_lua_ada_load.Detect.Rows.{Row, row}

unfoldable pub cc_type_rows : List Row
cc_type_rows =
    row (codes "__ACK__" ∷ []) "AMSTERDAM_KIT"
    ∷ row (codes "__BORLANDC__" ∷ []) "BORLAND_CXX"
    ∷ row (codes "__TURBOC__" ∷ []) "BORLAND_TURBO_C"
    ∷ row (codes "__MWERKS__" ∷ []) "CODEWARRIOR"
    ∷ row (codes "__COMO__" ∷ []) "COMEAU_CXX"
    ∷ row (codes "__DECC" ∷ codes "__VAXC" ∷ codes "VAXC" ∷ []) "COMPAQ_C"
    ∷ row (codes "__DECCXX" ∷ codes "__VAXC" ∷ codes "VAXC" ∷ []) "COMPAQ_CXX"
    ∷ row (codes "_CRAYC" ∷ []) "CRAY_C"
    ∷ row (codes "__DCC__" ∷ []) "DIAB"
    ∷ row (codes "__DMC__" ∷ codes "__SC__" ∷ codes "__ZTC__" ∷ []) "DIGITAL_MARS"
    ∷ row (codes "__DJGPP__" ∷ codes "__GO32__" ∷ []) "DJGPP"
    ∷ row (codes "__PATHCC__" ∷ []) "EKOPATH"
    ∷ row (codes "__GNUC__" ∷ []) "GCC"
    ∷ row (codes "__ghs__" ∷ []) "GREENHILL"
    ∷ row (codes "__HP_aCC" ∷ []) "HP_ACC"
    ∷ row (codes "__HP_cc" ∷ []) "HP_C"
    ∷ row (codes "__IAR_SYSTEMS_ICC__" ∷ []) "IAR"
    ∷ row (codes "__xlC__" ∷ codes "__IBMC__" ∷ codes "__IBMCPP__" ∷ []) "IBM_XL"
    ∷ row (codes "__INTEL_COMPILER" ∷ codes "__ICC" ∷ codes "__ECC" ∷ codes "__ICL" ∷ []) "INTEL"
    ∷ row (codes "__KCC" ∷ []) "KAI"
    ∷ row (codes "__C166__" ∷ []) "KEIL_C166"
    ∷ row (codes "__C51__" ∷ codes "__CX51__" ∷ []) "KEIL_C51"
    ∷ row (codes "__CA__" ∷ codes "__KEIL__" ∷ []) "KEIL_CARM"
    ∷ row (codes "__LCC__" ∷ []) "LCC"
    ∷ row (codes "__llvm__" ∷ []) "LLVM"
    ∷ row (codes "__HIGHC__" ∷ []) "METAWARE"
    ∷ row (codes "_MRI" ∷ []) "MICROTEC"
    ∷ row (codes "__MINGW32__" ∷ []) "MINGW32"
    ∷ row (codes "__sgi" ∷ codes "sgi" ∷ []) "MIPSPRO"
    ∷ row (codes "__MRC__" ∷ codes "MPW_C" ∷ codes "MPW_CPLUS" ∷ []) "MPW"
    ∷ row (codes "__CC_NORCROFT" ∷ []) "NORCROFT"
    ∷ row (codes "__PACIFIC__" ∷ []) "PACIFIC"
    ∷ row (codes "_PACC_VER" ∷ []) "PALM"
    ∷ row (codes "__PCC__" ∷ []) "PCC"
    ∷ row (codes "__POCC__" ∷ []) "PELLES"
    ∷ row (codes "__PGI" ∷ []) "PORTLAND"
    ∷ row (codes "__CC_ARM" ∷ []) "REALVIEW"
    ∷ row (codes "SASC" ∷ codes "__SASC" ∷ codes "__SASC__" ∷ []) "SAS"
    ∷ row (codes "_SCO_DS" ∷ []) "SCO"
    ∷ row (codes "SDCC" ∷ []) "SMALLDEV"
    ∷ row (codes "__SUNPRO_C" ∷ []) "SUN_C"
    ∷ row (codes "__SUNPRO_CC" ∷ []) "SUN_CXX"
    ∷ row (codes "__SYSC__" ∷ []) "SYSTEMS"
    ∷ row (codes "__TenDRA__" ∷ []) "TENDRA"
    ∷ row (codes "__TINYC__" ∷ []) "TINYC"
    ∷ row (codes "_UCC" ∷ []) "ULTIMATE"
    ∷ row (codes "__USLC__" ∷ []) "USL_C"
    ∷ row (codes "_MSC_VER" ∷ []) "VISUAL_CXX"
    ∷ row (codes "__WATCOMC__" ∷ []) "WATCOM"
    ∷ []
