-- ===== src/Lib.antt =====
-- lua-ada-load: the Ada library that reads Lua tables, the installer library and the programs over
-- it, the texts of errno values, the program that prints compiler flags, and programs of the build:
-- the lock around a command, the version of the compiler, the features of the processor, and the
-- constants for system, processor and compiler.
--
-- The repository is an Ada library that loads Lua tables (lua-load.adb), with C programs that
-- install it and build it. A client of the library opens a table by Table_Start, reads its
-- fields by name or index, or has each pair handed to a procedure by Table_Iterate, and closes
-- it by Table_End; the names of the open tables are kept for the message of a Load_Error.
-- insthier.c lists the items to install. installer.c and deinstaller.c hand each item to
-- install or deinstall, and instchk.c hands it to install_check. Each of the three finds the
-- row of its operator table (install_opers, deinst_opers, instchk_opers) that the item's number
-- selects, lets the row's translation (ntran_*) complete the item's names, and calls the row's
-- operator (inst_*, deinst_*, instchk_*). The operators call the portability functions of
-- install-core.c, and these the backend, install-posix.c. install_error gives the text of errno
-- for a message.
--
-- Which file models what:
--   * Base: C strings as lists of bytes without the NUL, snprintf with its cut, bytes, tests
--     and lists over the native numbers. A w-bit word has its wrap-around written out.
--   * Ctxt: the names that the build writes into ctxt_*.c (ctxt.h), a parameter.
--   * Errors: install-error.c. Which macros of <errno.h> are defined is a parameter.
--   * Install.Types: install.h. Install.Os: the system calls and stdio functions that the code
--     uses, as a record of operations on a state `W`; this record is a parameter of every
--     definition that needs it, and what a theorem relies on is a named hypothesis on it.
--   * Install.Machine: the global variables of install-core.c (callbacks, suffixes,
--     install_failed, callback data), errno, `W`, and the record of the callback calls and
--     printed lines. A function is a run from one such state to the next. It may leave early
--     with a status (return, goto) or end in a fault, which stands for undefined behaviour
--     (null pointer, write behind a buffer, fclose of what is no open stream) or for the fuel
--     of a loop used up.
--   * Install.Posix, Install.Files: install-posix.c and the dispatch of install-core.c to it.
--     Install.Windows: install-win32.c, with the Windows API as a parameter. The core over it is
--     not built: install_file_copy is an argument of iwin32_file_link.
--   * Install.FileTypes: install_file_type, its two lookups, install_file_size.
--   * Install.Copy: install_file_copy. Install.Check: install_uidgid_lookup and
--     install_file_check. Install.Rmkdir: install_rmkdir.
--   * Install.Names: base_name, str_same, str_ends, libname, install_suffix_sanitize.
--   * Install.Translate: ntran_*. Install.Operators: inst_*. Install.Verify: instchk_*.
--     Install.Deinstall: deinst_*. Install.Api: the tables, install_init, install,
--     install_check, deinstall, the setters of the callbacks.
--   * Install.Views, Install.DryRun: runs that do not show in a view of the files.
--   * Programs: insthier.c and the main functions of installer.c, deinstaller.c, instchk.c.
--   * Conf: lua-ada-load-conf.c.
--   * Cpu: SYSDEPS/sd-cpuidx86.c, its tables, the cache search, the vendors and main. The CPUID
--     instruction, with the state of the processor, is a parameter. What is printed on stderr
--     is left out.
--   * Loader: lua-load.adb and lua-load.ads. Loader.Binding is the Lua binding, which is another
--     repository: a record of operations on a Lua state, and what a theorem asks of them is the
--     documented behaviour of the stack and the tables (Loader.Stack.IsStack). Loader.State:
--     State_t, the exceptions, the name components and Type_Error. Loader.Values: the functions
--     that read a key or a value. Loader.Tables: Table_Start, Table_End and Table_Iterate.
--     Conversions of floating point numbers belong to the parameter.
--   * Locker: SYSDEPS/sd-locker.c with its two systems. Locker.Process: a process on POSIX, its
--     calls a parameter (Locker.Calls) with what POSIX says of one lock as laws. Locker.Processes:
--     several processes, whose calls interleave. Locker.Command: the command line on Windows in
--     its buffer. Locker.Reader: the shell's reading of it, for words of quoted parts.
--     Locker.Windows: a process on Windows. The announcements of a debugging build are left out.
--   * Ccversion: SYSDEPS/sd-ccversion.c. The macros of the compiler are a parameter; a macro that
--     is used and not defined is a program that does not compile.
--     Ccversion.Known: the compilers whose macros the theorem speaks of, by their own digits.
--   * Detect: SYSDEPS/sd-os.c, sd-arch.c and sd-cctype.c as tables of their tests, and the constants
--     of sd-sysinfo.h. Which macros are defined is a parameter.
--   * Tests: a small concrete system, and the theorems at it.
--
-- Conventions. A C result 0 or 1 is a Bool, an output parameter is an Option, `struct
-- install_status_t` is Status. Strings are values: each static buffer is read only until the
-- item it was written for has been handled. The code is the one compiled for POSIX with
-- symbolic links.
--
-- Fuel. The loops of install_file_copy, of install_rmkdir and of Table_Iterate run on fuel.
-- Table_Iterate needs more rounds than the table has pairs. A round of install_rmkdir consumes
-- a byte, and its fuel is the length of the path. The inner loop of a copy has the length of
-- its chunk as fuel, since each fwrite that reports no error writes a byte. The outer loop
-- needs more fuel than the source has bytes.
--
-- Not modelled: the upper bounds of Ada's unbounded strings, the version of the Ada
-- compiler (ver_gnat.adb), shell scripts and makefiles.
pub mod Base
pub mod Ctxt
pub mod Errors
pub mod Install
pub mod Loader
pub mod Locker
pub mod Programs
pub mod Conf
pub mod Cpu
pub mod Ccversion
pub mod Detect
pub mod Tests
