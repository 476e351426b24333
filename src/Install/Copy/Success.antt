-- ===== src/Install/Copy/Success.antt =====
-- install_file_copy where no call fails: the destination gets the source's bytes.
use coreland_lua_ada_load.Base.{
  ℕ, zero, suc, ◌+◌, ◌^◌, ◌<◌, ◌≤◌, Bytes, false, [], ◌∷◌, ◌++◌, ◌≡◌, refl, ◌∙◌, subst, arith,
  length, drop,
}
use coreland_lua_ada_load.Install.Types.{Status, success}
use coreland_lua_ada_load.Install.Os.{Os, okay}
use coreland_lua_ada_load.Install.Machine.{M, Machine, Out, done, early, fault}
use coreland_lua_ada_load.Install.Copy.{
  CopyEnd, copied, read_error, write_error, write_chunk, after_chunk, copy_loop, copy_data,
  copy_replace, copy_open, install_file_copy, copy_buf_size,
}
use coreland_lua_ada_load.Install.Copy.Streams.{AreStreams, copy_loop-Copied}
use coreland_lua_ada_load.Install.Copy.Atomic.{temp_name, temp_named, copy_both_open}

-- No call on the two streams and the temporary file fails, the calls behind the loops keep what
-- was written, and a rename makes it the contents of the destination.
pub record Works {W : Type 0} (os : Os W) (fd_src fd_dst : ℕ) (tmp dst : Bytes)
    (written contents : W → Bytes) : Type 0 where
  pub ferror_rb_false : (w : W) → os.ferror_rb fd_src w ≡ false
  pub ferror_wb_false : (w : W) → os.ferror_wb fd_dst w ≡ false
  pub fflush-okay : (w : W) → (os.fflush fd_dst w).0 ≡ okay tt
  pub fflush-written : (w : W) → written (os.fflush fd_dst w).1 ≡ written w
  pub chmod-okay : (mode : ℕ) (w : W) → (os.chmod tmp mode w).0 ≡ okay tt
  pub chmod-written : (mode : ℕ) (w : W) → written (os.chmod tmp mode w).1 ≡ written w
  pub chown-okay : (uid gid : ℕ) (w : W) → (os.chown tmp uid gid w).0 ≡ okay tt
  pub chown-written : (uid gid : ℕ) (w : W) → written (os.chown tmp uid gid w).1 ≡ written w
  pub fclose_wb-okay : (w : W) → (os.fclose_wb fd_dst w).0 ≡ okay tt
  pub fclose_wb-written : (w : W) → written (os.fclose_wb fd_dst w).1 ≡ written w
  pub fclose_rb-okay : (w : W) → (os.fclose_rb fd_src w).0 ≡ okay tt
  pub fclose_rb-written : (w : W) → written (os.fclose_rb fd_src w).1 ≡ written w
  pub rename-okay : (w : W) → (os.rename tmp dst w).0 ≡ okay tt
  pub rename-contents : (w : W) → contents (os.rename tmp dst w).1 ≡ written w

-- A run of the loops that does not end with an error.
abbrev NoError : {W : Type 0} → Out W CopyEnd → Type 0
NoError (done copied s) = Unit
NoError (done read_error s) = ⊥
NoError (done write_error s) = ⊥
NoError (early st s) = ⊥
NoError (fault e) = Unit

module _ {W : Type 0} (os : Os W) (fd_src fd_dst : ℕ) (tmp dst : Bytes)
    (unread written contents : W → Bytes) (laws : AreStreams os fd_src fd_dst unread written)
    (works : Works os fd_src fd_dst tmp dst written contents) where
  write_chunk-NoError :
      (fuel : ℕ) (b : Bytes) (s : Machine W) → NoError (write_chunk os fuel fd_dst b s)
  unfolding write_chunk
  write_chunk-NoError fuel [] s = tt
  write_chunk-NoError zero (c ∷ cs) s = tt
  write_chunk-NoError (suc fuel) (c ∷ cs) s =
      let s₁ : Machine W = record s { world = (os.fwrite fd_dst (c ∷ cs) s.world).1 } in
      ground (
        arith,
        works.ferror_wb_false s₁.world,
        write_chunk-NoError fuel (drop (os.fwrite fd_dst (c ∷ cs) s.world).0 (c ∷ cs)) s₁,
      )

  after_chunk-NoError :
      (more : M W CopyEnd) (o : Out W CopyEnd)
      → ((t : Machine W) → NoError (more t))
      → NoError o
      → NoError
          (elim o [ done e t ↦ after_chunk more e t | early st t ↦ early st t | fault x ↦ fault x ])
  after_chunk-NoError more (done copied t) h k = h t
  after_chunk-NoError more (done read_error t) h k = absurd k
  after_chunk-NoError more (done write_error t) h k = absurd k
  after_chunk-NoError more (early st t) h k = absurd k
  after_chunk-NoError more (fault x) h k = tt

  copy_loop-NoError : (fuel : ℕ) (s : Machine W) → NoError (copy_loop os fuel fd_src fd_dst s)
  unfolding copy_loop
  copy_loop-NoError zero s = tt
  copy_loop-NoError (suc fuel) s =
      let b = (os.fread fd_src copy_buf_size s.world).0 in
      let s₁ : Machine W = record s { world = (os.fread fd_src copy_buf_size s.world).1 } in
      let more = copy_loop os fuel fd_src fd_dst in
      let next =
        after_chunk-NoError more (write_chunk os (length b) fd_dst b s₁) (copy_loop-NoError fuel)
          (write_chunk-NoError (length b) b s₁) in
      ground (arith, works.ferror_rb_false s₁.world, copy_loop-NoError fuel s₁, next)

  ended : (o : Out W CopyEnd) (e : CopyEnd) (s : Machine W) → o ≡ done e s → NoError o → e ≡ copied
  ended o copied s h k = refl
  ended o read_error s h k = absurd (subst NoError h k)
  ended o write_error s h k = absurd (subst NoError h k)

  -- The rest of a copy: success, and the contents of the destination.
  record Installed (b : Bytes) (o : Out W Status) : Type 0 where
    last : Machine W
    runs : o ≡ done success last
    same_contents : contents last.world ≡ b

  copy_open-Installed :
      (fuel uid gid mode : ℕ) (s : Machine W)
      → length (unread s.world) < fuel
      → Installed
          (written s.world ++ unread s.world)
          (copy_open os fuel fd_src fd_dst tmp dst uid gid mode s)
  unfolding copy_open copy_data copy_replace
  copy_open-Installed fuel uid gid mode s h =
      let c = copy_loop-Copied os fd_src fd_dst unread written laws fuel s h in
      let e =
        ended (copy_loop os fuel fd_src fd_dst s) c.end c.last c.runs (copy_loop-NoError fuel s) in
      let w₁ = (os.fflush fd_dst c.last.world).1 in
      let w₂ = (os.chmod tmp mode w₁).1 in
      let w₃ = (os.chown tmp uid gid w₂).1 in
      let w₄ = (os.fclose_wb fd_dst w₃).1 in
      let w₅ = (os.fclose_rb fd_src w₄).1 in
      record {
        last = record c.last { world = (os.rename tmp dst w₅).1 };
        runs = ground (
          arith,
          c.runs,
          e,
          works.fflush-okay c.last.world,
          works.chmod-okay mode w₁,
          works.chown-okay uid gid w₂,
          works.fclose_wb-okay w₃,
          works.fclose_rb-okay w₄,
          works.rename-okay w₅,
        );
        same_contents =
            works.rename-contents w₅
            ∙ works.fclose_rb-written w₄
            ∙ works.fclose_wb-written w₃
            ∙ works.chown-written uid gid w₂
            ∙ works.chmod-written mode w₁
            ∙ works.fflush-written c.last.world
            ∙ c.all_copied e;
      }

  -- If both files can be opened, no later call fails, and the fuel is more than the bytes of the
  -- source, then a copy reports OK, and the destination's contents are what was in the temporary
  -- file after its creation (nothing, if fopen truncates) and the source's bytes.
  pub install_file_copy-contents :
      (fuel : ℕ) (src : Bytes) (uid gid mode : ℕ) (s : Machine W)
      → tmp ≡ temp_name dst
      → length dst + 5 ≤ 2 ^ 31
      → (os.fopen_rb src s.world).0 ≡ okay fd_src
      → (os.fopen_wb tmp (os.fopen_rb src s.world).1).0 ≡ okay fd_dst
      → let w = (os.fopen_wb tmp (os.fopen_rb src s.world).1).1 in
        length (unread w) < fuel
        → (s' : Machine W) × (install_file_copy os fuel src dst uid gid mode s ≡ done success s')
          × (contents s'.world ≡ written w ++ unread w)
  install_file_copy-contents fuel src uid gid mode s same short x y h =
      let named = temp_named os tmp fuel src dst uid gid mode s same short in
      let r =
        copy_open-Installed fuel uid gid mode
          (record s { world = (os.fopen_wb tmp (os.fopen_rb src s.world).1).1 }) h in
      (
        r.last,
        copy_both_open os tmp fuel src dst uid gid mode s fd_src fd_dst named x y
            ∙ ground (arith, r.runs),
        r.same_contents,
      )
