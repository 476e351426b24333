-- ===== src/Detect/Os.antt =====
-- SYSDEPS/sd-os.c: the tests for operating systems, in order.
use coreland_lua_ada_load.Base.{List, [], ◌∷◌, codes}
use coreland_lua_ada_load.Detect.Rows.{Row, row}

unfoldable pub os_rows : List Row
os_rows =
    row (codes "___TOS_AIX__" ∷ []) "AIX"
    ∷ row (codes "AMIGA" ∷ codes "__amigaos__" ∷ []) "AMIGAOS"
    ∷ row (codes "__BEOS__" ∷ []) "BEOS"
    ∷ row (codes "__bsdi__" ∷ []) "BSD_OS"
    ∷ row (codes "_UNICOS" ∷ []) "CRAY_UNICOS"
    ∷ row (codes "__APPLE__" ∷ codes "__MACH__" ∷ []) "DARWIN"
    ∷ row (codes "DGUX" ∷ codes "__DGUX__" ∷ codes "__dgux__" ∷ []) "DG_UX"
    ∷ row (codes "__DragonFly__" ∷ []) "DRAGONFLY"
    ∷ row (codes "_SEQUENT_" ∷ codes "sequent" ∷ []) "DYNIX_PTX"
    ∷ row (codes "__FreeBSD__" ∷ []) "FREEBSD"
    ∷ row (codes "__GNU__" ∷ []) "GNU_HURD"
    ∷ row (codes "__HAIKU__" ∷ []) "HAIKU"
    ∷ row (codes "__hiuxmpp" ∷ []) "HI_UX_MPP"
    ∷ row (codes "_hpux" ∷ codes "hpux" ∷ codes "__hpux" ∷ []) "HPUX"
    ∷ row (codes "sgi" ∷ codes "__sgi" ∷ []) "IRIX"
    ∷ row (codes "linux" ∷ codes "__linux" ∷ []) "LINUX"
    ∷ row (codes "__Lynx__" ∷ []) "LYNXOS"
    ∷ row (codes "macintosh" ∷ codes "Macintosh" ∷ []) "MACOS"
    ∷ row (codes "__OS9000" ∷ codes "_OSK" ∷ []) "MICROWARE_OS_9"
    ∷ row (codes "__minix" ∷ []) "MINIX"
    ∷ row (codes "mpeix" ∷ codes "__mpexl" ∷ []) "MPE_IX"
    ∷ row (codes "__MSDOS__" ∷ codes "___DOS__" ∷ []) "MSDOS"
    ∷ row
        (codes "_WIN32"
          ∷ codes "_WIN64"
          ∷ codes "__WIN32__"
          ∷ codes "__WIN64__"
          ∷ codes "__TOS_WIN__"
          ∷ [])
        "MS_WINDOWS"
    ∷ row (codes "__NetBSD__" ∷ []) "NETBSD"
    ∷ row (codes "__OpenBSD__" ∷ []) "OPENBSD"
    ∷ row (codes "___OS2__" ∷ codes "__TOS_OS2__" ∷ []) "OS2"
    ∷ row (codes "pyr" ∷ []) "PYRAMID_DC_OS"
    ∷ row (codes "__QNX__" ∷ codes "__QNXNTO__" ∷ []) "QNX"
    ∷ row (codes "sinux" ∷ []) "RELIANT_UNIX"
    ∷ row (codes "M_XENIX" ∷ codes "_SCO_DS" ∷ []) "SCO_OPENSERVER"
    ∷ row (codes "sun" ∷ codes "__sun" ∷ []) "SUNOS"
    ∷ row (codes "__SYMBIAN32__" ∷ []) "SYMBIAN_OS"
    ∷ row (codes "__osf__" ∷ codes "__osf" ∷ []) "TRU64_OSF_1"
    ∷ row (codes "ultrix" ∷ codes "__ultrix" ∷ codes "__ultrix__" ∷ []) "ULTRIX"
    ∷ row (codes "sco" ∷ codes "_UNIXWARE7" ∷ []) "UNIXWARE"
    ∷ row (codes "____VMS_VER" ∷ []) "VMS"
    ∷ row (codes "__MVS__" ∷ codes "__HOS_MVS__" ∷ codes "__TOS_MVS__" ∷ []) "Z_OS_OS390"
    ∷ []
