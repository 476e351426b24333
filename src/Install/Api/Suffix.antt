-- ===== src/Install/Api/Suffix.antt =====
-- The suffix that install_init reads.
use coreland_lua_ada_load.Base.{
  ℕ, zero, suc, ◌-◌, ◌<◌, Bytes, [], ◌∷◌, ◌++◌, ◌≡◌, refl, ◌∙◌, ap, arith, length, replicate,
  c_string,
}
use coreland_lua_ada_load.Install.Types.{success}
use coreland_lua_ada_load.Install.Os.{Os, okay}
use coreland_lua_ada_load.Install.Machine.{Machine, done}
use coreland_lua_ada_load.Install.Names.{install_suffix_sanitize}
use coreland_lua_ada_load.Install.Names.Suffix.{suffix_prefix, c_string-sanitize}
use coreland_lua_ada_load.Install.Api.{suffix_size, suffix_buffer, install_init}

suffix_prefix-zeros : (b : Bytes) (n : ℕ) → suffix_prefix (b ++ replicate n 0) ≡ suffix_prefix b
suffix_prefix-zeros [] zero = refl
suffix_prefix-zeros [] (suc n) = refl
suffix_prefix-zeros (c ∷ cs) n = ground (arith, suffix_prefix-zeros cs n)

suffix_buffer-text :
    (b : Bytes) → c_string (install_suffix_sanitize (suffix_buffer b)) ≡ b'.' ∷ suffix_prefix b
suffix_buffer-text b =
    c_string-sanitize (suffix_buffer b)
    ∙ ap (◌∷◌ b'.') (suffix_prefix-zeros b (suffix_size - 1 - length b))

module _ {W : Type 0} (os : Os W) where
  -- If the file can be opened, read from and closed, then install_init succeeds, the suffix of
  -- libraries is a dot and the bytes before the first one that a suffix may not hold, and that
  -- of executables is empty.
  pub install_init_suffix :
      (suffix_file : Bytes) (fp : ℕ) (bytes : Bytes) (w : W) (s : Machine W)
      → (os.fopen_rb suffix_file s.world).0 ≡ okay fp
      → os.fread fp (suffix_size - 2) (os.fopen_rb suffix_file s.world).1 ≡ (bytes, w)
      → 0 < length bytes
      → (os.fclose_rb fp w).0 ≡ okay tt
      → (s' : Machine W) × (install_init os suffix_file s ≡ done success s')
        × (c_string s'.dlib_suffix ≡ b'.' ∷ suffix_prefix bytes)
        × (c_string s'.exec_suffix ≡ [])
  install_init_suffix suffix_file fp bytes w s opened read some_read closed = (
    record s {
      world = (os.fclose_rb fp w).1;
      exec_suffix = replicate suffix_size 0;
      dlib_suffix = install_suffix_sanitize (suffix_buffer bytes);
    },
    unfold install_init in ground arith,
    suffix_buffer-text bytes,
    unfold c_string in refl,
  )
