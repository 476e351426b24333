-- ===== src/Detect/Arch.antt =====
-- SYSDEPS/sd-arch.c: the tests for processors, in order.
use coreland_lua_ada_load.Base.{List, [], ◌∷◌, codes}
use coreland_lua_ada_load.Detect.Rows.{Row, row}

unfoldable pub arch_rows : List Row
arch_rows =
    row (codes "__alpha__" ∷ codes "__alpha" ∷ codes "_M_ALPHA" ∷ []) "ALPHA"
    ∷ row (codes "__arm__" ∷ codes "__thumb__" ∷ codes "__TARGET_ARCH___TARGET_ARCH_THUMB" ∷ [])
        "ARM"
    ∷ row (codes "_CRAY" ∷ []) "CRAY"
    ∷ row (codes "_CRAY2" ∷ []) "CRAY_2"
    ∷ row (codes "_CRAY1" ∷ []) "CRAY_X_MP"
    ∷ row (codes "__ia64" ∷ codes "__ia64__" ∷ codes "___IA64__" ∷ codes "_M_IA64" ∷ []) "IA64"
    ∷ row (codes "__m68k__" ∷ codes "M68000" ∷ []) "M68K"
    ∷ row
        (codes "__mips__"
          ∷ codes "_MIPS_ISA"
          ∷ codes "_R3000"
          ∷ codes "_R4000"
          ∷ codes "__mips"
          ∷ codes "__MIPS__"
          ∷ [])
        "MIPS"
    ∷ row (codes "__hppa__" ∷ codes "__hppa" ∷ []) "PARISC"
    ∷ row
        (codes "__powerpc"
          ∷ codes "__powerpc__"
          ∷ codes "__POWERPC__"
          ∷ codes "__ppc__"
          ∷ codes "_M__ARCH_PPC"
          ∷ [])
        "PPC"
    ∷ row
        (codes "__powerpc64"
          ∷ codes "__powerpc64__"
          ∷ codes "__POWERPC64__"
          ∷ codes "__ppc64__"
          ∷ codes "_ARCH_PPC64"
          ∷ [])
        "PPC64"
    ∷ row (codes "__THW__IBMR2" ∷ codes "_POWER" ∷ codes "_ARCH_PWR" ∷ codes "_ARCH_PWR2" ∷ [])
        "RS6000"
    ∷ row (codes "__sparc__" ∷ codes "__sparc" ∷ codes "__sparcv8" ∷ codes "__sparcv9" ∷ []) "SPARC"
    ∷ row
        (codes "__sh__"
          ∷ codes "__sh1__"
          ∷ codes "__sh2__"
          ∷ codes "__sh3__"
          ∷ codes "__SH3__"
          ∷ codes "__SH4__"
          ∷ codes "__SH5__"
          ∷ [])
        "SUPERH"
    ∷ row (codes "__370__" ∷ codes "__THW_370__" ∷ []) "SYSTEM_370"
    ∷ row (codes "__s390__" ∷ codes "__s390x__" ∷ []) "SYSTEM_390"
    ∷ row
        (codes "__i386__"
          ∷ codes "__i386__"
          ∷ codes "__i486__"
          ∷ codes "__i586__"
          ∷ codes "__i686__"
          ∷ codes "__i386"
          ∷ codes "_M_I_X86_"
          ∷ codes "__THW_INTEL__"
          ∷ codes "__I86__"
          ∷ codes "__INTEL__"
          ∷ [])
        "X86"
    ∷ row (codes "__amd64__" ∷ codes "__amd64" ∷ codes "__x86_64__" ∷ codes "__x86_64" ∷ [])
        "X86_64"
    ∷ row (codes "__SYSC_ZARCH__" ∷ []) "Z_ARCHITECTURE"
    ∷ []
