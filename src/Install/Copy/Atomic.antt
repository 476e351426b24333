-- ===== src/Install/Copy/Atomic.antt =====
-- install_file_copy and the file that it replaces.
use coreland_lua_ada_load.Base.{
  ℕ, zero, suc, ◌+◌, ◌-◌, ◌^◌, ◌<◌, ◌≤◌, Bytes, true, false, some, [], ◌∷◌, ◌++◌, ◌≡◌, ◌≢◌, refl,
  sym, ◌∙◌, ap, arith, length, take, drop, length-take, codes, snprintf, length-append, take-append,
  subst, ◌⊎◌, inl, inr,
}
use coreland_lua_ada_load.Install.Types.{
  Status, is_ok, error, install_max_pathlen, failure, success,
}
use coreland_lua_ada_load.Install.Os.{Os, Reply, okay, fails, Reply-cases}
use coreland_lua_ada_load.Install.Machine.{
  Machine, M, Out, done, early, fault, ◌>>◌, on_early, bad_close, function,
}
use coreland_lua_ada_load.Install.Views.{Shows, Keeps, >>=-Keeps}
use coreland_lua_ada_load.Install.Copy.{
  CopyEnd, copied, read_error, write_error, write_chunk, copy_loop, copy_data, copy_err,
  copy_replace, copy_open, install_file_copy, after_chunk, copy_buf_size,
}

abbrev temp_suffix : Bytes
temp_suffix = codes ".tmp"

-- The temporary file's name as it stands in dst_tmp: cut at 1023 bytes.
abbrev pub temp_name : Bytes → Bytes
temp_name dst = take (install_max_pathlen - 1) (dst ++ temp_suffix)

-- A destination of fewer than 1023 bytes has another name than its temporary file.
pub temp_name-ne : (dst : Bytes) → length dst + 1 < install_max_pathlen → temp_name dst ≢ dst
temp_name-ne dst short same = absurd (
    omega (
      arith,
      ap (λ (t : Bytes). length t) same,
      length-take (install_max_pathlen - 1) (dst ++ temp_suffix),
      length-append dst temp_suffix,
    ))

-- At 1023 bytes the temporary file is the destination itself.
pub temp_name-full : (dst : Bytes) → length dst + 1 ≡ install_max_pathlen → temp_name dst ≡ dst
temp_name-full dst full =
    ap (λ (n : ℕ). take n (dst ++ temp_suffix)) size ∙ take-append dst temp_suffix
  where
    size : install_max_pathlen - 1 ≡ length dst
    size = omega arith

module _ {W : Type 0} (os : Os W) (tmp : Bytes) (fuel : ℕ) (src dst : Bytes) (uid gid mode : ℕ)
    (s : Machine W) where
  abbrev pub opened : W
  opened = (os.fopen_rb src s.world).1

  abbrev pub created : W
  created = (os.fopen_wb tmp opened).1

  abbrev pub Named : Type 0
  Named = snprintf install_max_pathlen (dst ++ temp_suffix) ≡ some tmp

  copy_no_source :
      (e : ℕ)
      → Named
      → (os.fopen_rb src s.world).0 ≡ fails e
      → install_file_copy os fuel src dst uid gid mode s
        ≡ done (failure error "could not open source file") (record s { world = opened; errno = e })
  unfolding install_file_copy
  copy_no_source e named x = ground arith

  -- If the source is opened but the temporary file is not, the copy ends in the fault of closing
  -- what is no open stream.
  copy_no_destination :
      (fd_src e : ℕ)
      → Named
      → (os.fopen_rb src s.world).0 ≡ okay fd_src
      → (os.fopen_wb tmp opened).0 ≡ fails e
      → install_file_copy os fuel src dst uid gid mode s ≡ fault bad_close
  unfolding install_file_copy
  copy_no_destination fd_src e named x y = ground arith

  pub copy_both_open :
      (fd_src fd_dst : ℕ)
      → Named
      → (os.fopen_rb src s.world).0 ≡ okay fd_src
      → (os.fopen_wb tmp opened).0 ≡ okay fd_dst
      → install_file_copy os fuel src dst uid gid mode s
        ≡ function
            (copy_open os fuel fd_src fd_dst tmp dst uid gid mode)
            (record s { world = created })
  unfolding install_file_copy
  copy_both_open fd_src fd_dst named x y = ground arith

  pub temp_named : tmp ≡ temp_name dst → length dst + 5 ≤ 2 ^ 31 → Named
  unfolding snprintf
  temp_named same short = rw same (ground (arith, length-append dst temp_suffix))

-- For a destination of 1023 bytes the destination itself is opened for writing, and the rest of
-- the copy has it as the temporary file, which the error path unlinks.
pub install_file_copy_full :
    {W : Type 0} (os : Os W) (fuel : ℕ) (src dst : Bytes) (uid gid mode fd_src fd_dst : ℕ)
    (s : Machine W)
    → length dst + 1 ≡ install_max_pathlen
    → (os.fopen_rb src s.world).0 ≡ okay fd_src
    → (os.fopen_wb dst (os.fopen_rb src s.world).1).0 ≡ okay fd_dst
    → install_file_copy os fuel src dst uid gid mode s
      ≡ function
          (copy_open os fuel fd_src fd_dst dst dst uid gid mode)
          (record s { world = (os.fopen_wb dst (os.fopen_rb src s.world).1).1 })
install_file_copy_full os fuel src dst uid gid mode fd_src fd_dst s full x y =
    copy_both_open os dst fuel src dst uid gid mode s fd_src fd_dst
      (temp_named os dst fuel src dst uid gid mode s (sym (temp_name-full dst full)) (omega arith))
      x y

-- What another file than `tmp` looks like: reads, writes to streams, and changes of `tmp` do not
-- show in it.
pub record IsApart {W F : Type 0} (os : Os W) (view : W → F) (tmp : Bytes) : Type 0 where
  pub view-fopen_rb : (p : Bytes) (w : W) → view (os.fopen_rb p w).1 ≡ view w
  pub view-fread : (h n : ℕ) (w : W) → view (os.fread h n w).1 ≡ view w
  pub view-fclose_rb : (h : ℕ) (w : W) → view (os.fclose_rb h w).1 ≡ view w
  pub view-fopen_wb : (w : W) → view (os.fopen_wb tmp w).1 ≡ view w
  pub view-fwrite : (h : ℕ) (b : Bytes) (w : W) → view (os.fwrite h b w).1 ≡ view w
  pub view-fflush : (h : ℕ) (w : W) → view (os.fflush h w).1 ≡ view w
  pub view-fclose_wb : (h : ℕ) (w : W) → view (os.fclose_wb h w).1 ≡ view w
  pub view-chmod : (mode : ℕ) (w : W) → view (os.chmod tmp mode w).1 ≡ view w
  pub view-chown : (uid gid : ℕ) (w : W) → view (os.chown tmp uid gid w).1 ≡ view w
  pub view-unlink : (w : W) → view (os.unlink tmp w).1 ≡ view w

module _ {W F : Type 0} (os : Os W) (view : W → F) (tmp : Bytes) (v : IsApart os view tmp) where
  write_chunk-Keeps : (fuel fd_dst : ℕ) (b : Bytes) → Keeps view (write_chunk os fuel fd_dst b)
  unfolding write_chunk
  write_chunk-Keeps fuel fd_dst [] = λ s. refl
  write_chunk-Keeps zero fd_dst (c ∷ cs) = λ s. tt
  write_chunk-Keeps (suc fuel) fd_dst (c ∷ cs) = λ s.
      let s₁ : Machine W = record s { world = (os.fwrite fd_dst (c ∷ cs) s.world).1 } in
      ground (
        arith,
        v.view-fwrite fd_dst (c ∷ cs) s.world,
        write_chunk-Keeps fuel fd_dst (drop (os.fwrite fd_dst (c ∷ cs) s.world).0 (c ∷ cs)) s₁,
      )

  after_chunk-Keeps :
      (more : M W CopyEnd) → Keeps view more → (e : CopyEnd) → Keeps view (after_chunk more e)
  after_chunk-Keeps more h copied = h
  after_chunk-Keeps more h read_error = λ s. refl
  after_chunk-Keeps more h write_error = λ s. refl

  copy_loop-Keeps : (fuel fd_src fd_dst : ℕ) → Keeps view (copy_loop os fuel fd_src fd_dst)
  unfolding copy_loop
  copy_loop-Keeps zero fd_src fd_dst = λ s. tt
  copy_loop-Keeps (suc fuel) fd_src fd_dst = λ s.
      let b = (os.fread fd_src copy_buf_size s.world).0 in
      let s₁ : Machine W = record s { world = (os.fread fd_src copy_buf_size s.world).1 } in
      let more = copy_loop os fuel fd_src fd_dst in
      let next =
        >>=-Keeps view (write_chunk os (length b) fd_dst b) (after_chunk more)
          (write_chunk-Keeps (length b) fd_dst b)
          (after_chunk-Keeps more (copy_loop-Keeps fuel fd_src fd_dst)) s₁ in
      ground (
        arith,
        v.view-fread fd_src copy_buf_size s.world,
        next,
        copy_loop-Keeps fuel fd_src fd_dst s₁,
      )

  copy_data-Keeps :
      (fuel fd_src fd_dst uid gid mode : ℕ)
      → Keeps view (copy_data os fuel fd_src fd_dst tmp uid gid mode)
  unfolding copy_data
  copy_data-Keeps fuel fd_src fd_dst uid gid mode =
      >>=-Keeps view (copy_loop os fuel fd_src fd_dst) _ (copy_loop-Keeps fuel fd_src fd_dst)
        (λ end s. grind (arith, v.view-fflush, v.view-chmod, v.view-chown))

  copy_err-Keeps : (fd_src fd_dst : ℕ) → Keeps view (copy_err os fd_src fd_dst tmp)
  unfolding copy_err
  copy_err-Keeps fd_src fd_dst s = grind (arith, v.view-fclose_wb, v.view-fclose_rb, v.view-unlink)

  -- Either a failure and the view as it was, or OK and a rename of the temporary file as the
  -- last change; or a fault.
  abbrev pub Replaces : Bytes → F → Out W Status → Type 0
  Replaces dst f (done st s) =
      ((is_ok st ≡ false) × (view s.world ≡ f))
      ⊎ ((is_ok st ≡ true) × ((w : W) × (view w ≡ f) × (os.rename tmp dst w ≡ (okay tt, s.world))))
  Replaces dst f (early st s) = (is_ok st ≡ false) × (view s.world ≡ f)
  Replaces dst f (fault e) = Unit

  module _ (fd_src fd_dst : ℕ) (dst : Bytes) (s : Machine W) where
    closed_dst : W
    closed_dst = (os.fclose_wb fd_dst s.world).1

    closed : W
    closed = (os.fclose_rb fd_src closed_dst).1

    -- Either all three calls succeed, or a stream is closed twice.
    copy_replace_ends :
        (copy_replace os fd_src fd_dst tmp dst s ≡ fault bad_close)
        ⊎ ((copy_replace os fd_src fd_dst tmp dst s
              ≡ done success (record s { world = (os.rename tmp dst closed).1 }))
            × ((os.rename tmp dst closed).0 ≡ okay tt))
    unfolding copy_replace closed closed_dst
    copy_replace_ends = ground arith

    copy_replace-Replaces : Replaces dst (view s.world) (copy_replace os fd_src fd_dst tmp dst s)
    copy_replace-Replaces = elim copy_replace_ends [
      | inl e ↦ subst (Replaces dst (view s.world)) (sym e) tt
      | inr (e, renamed) ↦ subst (Replaces dst (view s.world)) (sym e) (
          inr (
            refl,
            (
              closed,
              closed_view,
              ap (λ (r : Reply (Unit {0})). (r, (os.rename tmp dst closed).1)) renamed,
            ),
          ))
    ]
      where
        closed_view : view closed ≡ view s.world
        closed_view =
            unfold closed closed_dst in v.view-fclose_rb fd_src _ ∙ v.view-fclose_wb fd_dst s.world

  copy_open-Replaces :
      (fuel fd_src fd_dst : ℕ) (dst : Bytes) (uid gid mode : ℕ) (s : Machine W)
      → Replaces dst (view s.world) (copy_open os fuel fd_src fd_dst tmp dst uid gid mode s)
  unfolding copy_open
  copy_open-Replaces fuel fd_src fd_dst dst uid gid mode s =
      at (copy_data os fuel fd_src fd_dst tmp uid gid mode s)
        (copy_data-Keeps fuel fd_src fd_dst uid gid mode s)
    where
      err : M W (Unit {0})
      err = copy_err os fd_src fd_dst tmp

      at :
          (o : Out W (Unit {0}))
          → Shows view (view s.world) o
          → Replaces dst
              (view s.world)
              ((on_early (λ _. err) (λ _. o) >> copy_replace os fd_src fd_dst tmp dst) s)
      at (done a s') e =
          subst (λ f. Replaces dst f (copy_replace os fd_src fd_dst tmp dst s')) e
            (copy_replace-Replaces fd_src fd_dst dst s')
      at (early st s') e = ground (arith, copy_err-Keeps fd_src fd_dst s')
      at (fault x) e = tt

  function-Replaces :
      (dst : Bytes) (m : M W Status) (f : F) (s : Machine W)
      → Replaces dst f (m s)
      → Replaces dst f (function m s)
  function-Replaces dst m f s h = at (m s) h
    where
      at : (o : Out W Status) → Replaces dst f o → Replaces dst f (function (λ _. o) s)
      at (done st s') e = e
      at (early st s') e = inl e
      at (fault x) e = tt

  module _ (fuel : ℕ) (src dst : Bytes) (uid gid mode : ℕ) (s : Machine W) where
    -- Let the path be short enough for snprintf, and take a view of the files in which reads,
    -- writes to streams and changes of the temporary file do not show: it can show the destination
    -- only where that is another file than the temporary one, which at 1023 bytes it is not. A copy then either fails with the view as it was, or reports OK and ends
    -- with a rename of the temporary file onto the destination, behind calls that do not show in
    -- the view, or it ends in a fault.
    pub install_file_copy-Replaces :
        tmp ≡ temp_name dst
        → length dst + 5 ≤ 2 ^ 31
        → Replaces dst (view s.world) (install_file_copy os fuel src dst uid gid mode s)
    install_file_copy-Replaces same short =
        let named = temp_named os tmp fuel src dst uid gid mode s same short in
        elim (Reply-cases (os.fopen_rb src s.world).0) [
          | inr (e, x) ↦
              subst ends (sym (copy_no_source os tmp fuel src dst uid gid mode s e named x))
                (inl (refl, opened_view))
          | inl (fd_src, x) ↦
              elim (Reply-cases (os.fopen_wb tmp (opened os tmp fuel src dst uid gid mode s)).0) [
                | inr (e, y) ↦
                    subst ends
                      (sym
                        (copy_no_destination os tmp fuel src dst uid gid mode s fd_src e named x y))
                      tt
                | inl (fd_dst, y) ↦
                    subst ends
                      (sym
                        (copy_both_open os tmp fuel src dst uid gid mode s fd_src fd_dst named x y))
                      (function-Replaces dst (copy_open os fuel fd_src fd_dst tmp dst uid gid mode)
                        (view s.world)
                        (record s { world = (created os tmp fuel src dst uid gid mode s) })
                        (subst
                          (λ f. Replaces dst f (
                            copy_open os fuel fd_src fd_dst tmp dst uid gid mode
                              (record s { world = (created os tmp fuel src dst uid gid mode s) })))
                          created_view
                          (copy_open-Replaces fuel fd_src fd_dst dst uid gid mode
                            (record s { world = (created os tmp fuel src dst uid gid mode s) }))))
              ]
        ]
      where
        ends : Out W Status → Type 0
        ends = Replaces dst (view s.world)

        opened_view : view (opened os tmp fuel src dst uid gid mode s) ≡ view s.world
        opened_view = v.view-fopen_rb src s.world

        created_view : view (created os tmp fuel src dst uid gid mode s) ≡ view s.world
        created_view = v.view-fopen_wb (opened os tmp fuel src dst uid gid mode s) ∙ opened_view
