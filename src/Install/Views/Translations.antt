-- ===== src/Install/Views/Translations.antt =====
-- The translations of an item keep the view.
use coreland_lua_ada_load.Base.{Bytes, arith}
use coreland_lua_ada_load.Install.Types.{InstallItem}
use coreland_lua_ada_load.Install.Os.{Os}
use coreland_lua_ada_load.Install.Machine.{Machine}
use coreland_lua_ada_load.Install.Names.{libname}
use coreland_lua_ada_load.Install.Translate.{
  library_name, link_source, in_directory, ntran_copy, ntran_copy_exec, ntran_link, ntran_liblink,
  ntran_mkdir, ntran_chk_link, ntran_chk_liblink,
}
use coreland_lua_ada_load.Install.Views.{IsFileView, Shows}

module _ {W F : Type 0} (os : Os W) (view : W → F) (v : IsFileView os view) where
  libname-Shows : (name : Bytes) (s : Machine W) → Shows view (view s.world) (libname os name s)
  unfolding libname
  libname-Shows name s = grind (arith, v.view-fopen_rb, v.view-fread, v.view-fclose_rb)

  library_name-Shows :
      (name : Bytes) (s : Machine W) → Shows view (view s.world) (library_name os name s)
  unfolding library_name
  library_name-Shows name s = ground (arith, libname-Shows name s)

  pub ntran_copy-Shows :
      (ins : InstallItem) (s : Machine W) → Shows view (view s.world) (ntran_copy os ins s)
  unfolding ntran_copy
  ntran_copy-Shows ins s = grind (arith, library_name-Shows)

  pub ntran_copy_exec-Shows :
      (ins : InstallItem) (s : Machine W) → Shows view (view s.world) (ntran_copy_exec os ins s)
  unfolding ntran_copy_exec
  ntran_copy_exec-Shows ins s = ground (arith, ntran_copy-Shows ins s)

  pub ntran_link-Shows :
      (ins : InstallItem) (s : Machine W) → Shows view (view s.world) (ntran_link os ins s)
  unfolding ntran_link
  ntran_link-Shows ins s = ground arith

  link_source-Shows :
      (src : Bytes) (s : Machine W) → Shows view (view s.world) (link_source os src s)
  unfolding link_source
  link_source-Shows src s = ground (arith, library_name-Shows src s)

  pub ntran_liblink-Shows :
      (ins : InstallItem) (s : Machine W) → Shows view (view s.world) (ntran_liblink os ins s)
  unfolding ntran_liblink
  ntran_liblink-Shows ins s = grind (arith, link_source-Shows)

  pub ntran_mkdir-Shows :
      (ins : InstallItem) (s : Machine W) → Shows view (view s.world) (ntran_mkdir os ins s)
  unfolding ntran_mkdir
  ntran_mkdir-Shows ins s = ground arith

  in_directory-Shows :
      (ins : InstallItem) (s : Machine W) → Shows view (view s.world) (in_directory os ins s)
  unfolding in_directory
  in_directory-Shows ins s = ground arith

  pub ntran_chk_link-Shows :
      (ins : InstallItem) (s : Machine W) → Shows view (view s.world) (ntran_chk_link os ins s)
  unfolding ntran_chk_link
  ntran_chk_link-Shows ins s = grind (arith, ntran_link-Shows, in_directory-Shows)

  pub ntran_chk_liblink-Shows :
      (ins : InstallItem) (s : Machine W) → Shows view (view s.world) (ntran_chk_liblink os ins s)
  unfolding ntran_chk_liblink
  ntran_chk_liblink-Shows ins s = grind (arith, ntran_liblink-Shows, in_directory-Shows)
