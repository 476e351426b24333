-- ===== src/Install/Copy/Streams.antt =====
-- The loops of install_file_copy over streams that behave as stdio documents.
use coreland_lua_ada_load.Base.{
  ℕ, zero, suc, ◌<◌, ◌≤◌, Bytes, true, false, [], ◌∷◌, ◌++◌, ◌==◌, ◌≡◌, ◌≢◌, refl, sym, ◌∙◌, ap,
  arith, length, take, drop, length-append, length-drop, take-append-drop, append_assoc, append-nil,
  Bool-cases, inl, inr, ◌⊎◌,
}
use coreland_lua_ada_load.Install.Os.{Os}
use coreland_lua_ada_load.Install.Machine.{Machine, Out, done}
use coreland_lua_ada_load.Install.Copy.{
  CopyEnd, copied, read_error, write_error, write_chunk, copy_loop, copy_buf_size,
}

-- What is left to read from one stream, and what was written to the other, in a state of the
-- system; the laws are those of fread, fwrite, feof and ferror.
pub record AreStreams {W : Type 0} (os : Os W) (fd_src fd_dst : ℕ) (unread written : W → Bytes)
    : Type 0 where
  pub fread-unread :
      (n : ℕ) (w : W) → (os.fread fd_src n w).0 ++ unread (os.fread fd_src n w).1 ≡ unread w
  pub fread-written : (n : ℕ) (w : W) → written (os.fread fd_src n w).1 ≡ written w
  pub feof_rb-unread :
      (n : ℕ) (w : W)
      → (os.fread fd_src n w).0 ≡ []
      → os.feof_rb fd_src (os.fread fd_src n w).1 ≡ true
      → unread (os.fread fd_src n w).1 ≡ []
  pub fread_stops :
      (n : ℕ) (w : W)
      → 0 < n
      → (os.fread fd_src n w).0 ≡ []
      → (os.feof_rb fd_src (os.fread fd_src n w).1 ≡ true)
        ⊎ (os.ferror_rb fd_src (os.fread fd_src n w).1 ≡ true)
  pub fwrite-written :
      (b : Bytes) (w : W)
      → written (os.fwrite fd_dst b w).1 ≡ written w ++ take (os.fwrite fd_dst b w).0 b
  pub fwrite-unread : (b : Bytes) (w : W) → unread (os.fwrite fd_dst b w).1 ≡ unread w
  pub fwrite_stops :
      (b : Bytes) (w : W)
      → 0 < length b
      → (os.fwrite fd_dst b w).0 ≡ 0
      → os.ferror_wb fd_dst (os.fwrite fd_dst b w).1 ≡ true
  pub feof_wb_false : (w : W) → os.feof_wb fd_dst w ≡ false

module _ {W : Type 0} (os : Os W) (fd_src fd_dst : ℕ) (unread written : W → Bytes)
    (laws : AreStreams os fd_src fd_dst unread written) where
  -- The loop ends, with a write error or with the whole chunk written.
  record Written (b : Bytes) (s : Machine W) (o : Out W CopyEnd) : Type 0 where
    end : CopyEnd
    last : Machine W
    runs : o ≡ done end last
    no_read_error : end ≢ read_error
    unread_same : unread last.world ≡ unread s.world
    all_written : end ≡ copied → written last.world ≡ written s.world ++ b

  write_chunk-Written :
      (fuel : ℕ) (b : Bytes) (s : Machine W)
      → length b ≤ fuel
      → Written b s (write_chunk os fuel fd_dst b s)
  unfolding write_chunk
  write_chunk-Written fuel [] s h = record {
    end = copied;
    last = s;
    runs = refl;
    no_read_error = λ e. cc;
    unread_same = refl;
    all_written = λ e. sym (append-nil (written s.world));
  }
  write_chunk-Written zero (c ∷ cs) s h = absurd (omega arith)
  write_chunk-Written (suc fuel) (c ∷ cs) s h =
      let b : Bytes = c ∷ cs in
      let w = (os.fwrite fd_dst b s.world).0 in
      let s₁ : Machine W = record s { world = (os.fwrite fd_dst b s.world).1 } in
      elim (Bool-cases (w == 0)) [
        | inl none_written ↦ record {
          end = write_error;
          last = s₁;
          runs =
              ground
                (arith, laws.fwrite_stops b s.world (omega arith), laws.feof_wb_false s₁.world);
          no_read_error = λ e. cc;
          unread_same = laws.fwrite-unread b s.world;
          all_written = λ e. cc;
        }
        | inr some_written ↦
            let left = length-drop w b in
            let r = write_chunk-Written fuel (drop w b) s₁ (ground arith) in
            record {
              end = r.end;
              last = r.last;
              runs = ground (arith, r.runs);
              no_read_error = r.no_read_error;
              unread_same = r.unread_same ∙ laws.fwrite-unread b s.world;
              all_written = λ e.
                  r.all_written e
                  ∙ ap (λ (t : Bytes). t ++ drop w b) (laws.fwrite-written b s.world)
                  ∙ append_assoc (written s.world) (take w b) (drop w b)
                  ∙ ap (λ (t : Bytes). written s.world ++ t) (take-append-drop w b);
            }
      ]

  -- The copy ends, and if it ends with no error then all that was left to read is written.
  pub record Copied (s : Machine W) (o : Out W CopyEnd) : Type 0 where
    pub end : CopyEnd
    pub last : Machine W
    pub runs : o ≡ done end last
    pub all_copied : end ≡ copied → written last.world ≡ written s.world ++ unread s.world

  module _ (fuel : ℕ) (s : Machine W) where
    chunk : Bytes
    chunk = (os.fread fd_src copy_buf_size s.world).0

    after_read : Machine W
    after_read = record s { world = (os.fread fd_src copy_buf_size s.world).1 }

    chunk-unread : chunk ++ unread after_read.world ≡ unread s.world
    unfolding chunk after_read
    chunk-unread = laws.fread-unread copy_buf_size s.world

    copy_loop_end : chunk ≡ [] → Copied s (copy_loop os (suc fuel) fd_src fd_dst s)
    unfolding copy_loop chunk after_read
    copy_loop_end e = elim (Bool-cases (os.feof_rb fd_src after_read.world)) [
      | inl at_end ↦ record {
        end = copied;
        last = after_read;
        runs = ground arith;
        all_copied = λ _.
            laws.fread-written copy_buf_size s.world
            ∙ sym (append-nil (written s.world))
            ∙ ap (λ (t : Bytes). written s.world ++ t)
                (sym (laws.feof_rb-unread copy_buf_size s.world e at_end)
                  ∙ ap (λ (t : Bytes). t ++ unread after_read.world) (sym e)
                  ∙ laws.fread-unread copy_buf_size s.world);
      }
      | inr more ↦ record {
        end = read_error;
        last = after_read;
        runs = ground (arith, laws.fread_stops copy_buf_size s.world (omega arith) e);
        all_copied = λ x. cc;
      }
    ]

    copy_loop-chunk :
        (0 < length chunk)
        → ((t : Machine W)
            → unread t.world ≡ unread after_read.world
            → Copied t (copy_loop os fuel fd_src fd_dst t))
        → Copied s (copy_loop os (suc fuel) fd_src fd_dst s)
    unfolding copy_loop chunk after_read
    copy_loop-chunk nonempty rest =
        let w = write_chunk-Written (length chunk) chunk after_read (omega arith) in go w w.end refl
      where
        go :
            (w : Written chunk after_read (write_chunk os (length chunk) fd_dst chunk after_read))
            (e : CopyEnd)
            → w.end ≡ e
            → Copied s (copy_loop os (suc fuel) fd_src fd_dst s)
        go w copied e =
            let r = rest w.last w.unread_same in
            record {
              end = r.end;
              last = r.last;
              runs = ground (arith, w.runs, r.runs);
              all_copied = λ x.
                  r.all_copied x
                  ∙ ap (λ (t : Bytes). t ++ unread w.last.world) (w.all_written e)
                  ∙ append_assoc (written after_read.world) chunk (unread w.last.world)
                  ∙ ap (λ (t : Bytes). t ++ (chunk ++ unread w.last.world))
                      (laws.fread-written copy_buf_size s.world)
                  ∙ ap (λ (t : Bytes). written s.world ++ (chunk ++ t)) w.unread_same
                  ∙ ap (λ (t : Bytes). written s.world ++ t)
                      (laws.fread-unread copy_buf_size s.world);
            }
        go w read_error e = absurd (w.no_read_error e)
        go w write_error e = record {
          end = write_error;
          last = w.last;
          runs = ground (arith, w.runs);
          all_copied = λ x. cc;
        }

  -- With more fuel than bytes left to read the copy loop of install_file_copy ends, and unless
  -- it ends with an error the destination stream has got exactly those bytes, in order.
  pub copy_loop-Copied :
      (fuel : ℕ) (s : Machine W)
      → length (unread s.world) < fuel
      → Copied s (copy_loop os fuel fd_src fd_dst s)
  copy_loop-Copied zero s h = absurd (omega arith)
  copy_loop-Copied (suc fuel) s h = elim (Bool-cases (length (chunk fuel s) == 0)) [
    | inl none_read ↦ copy_loop_end fuel s (nil_of_length (chunk fuel s) none_read)
    | inr some_read ↦
        let total = length-append (chunk fuel s) (unread (after_read fuel s).world) in
        let whole = ap (λ (t : Bytes). length t) (chunk-unread fuel s) in
        copy_loop-chunk fuel s (ground arith) (λ t same. copy_loop-Copied fuel t (ground arith))
  ]
    where
      nil_of_length : (b : Bytes) → (length b == 0) ≡ true → b ≡ []
      nil_of_length [] e = refl
      nil_of_length (c ∷ cs) e = absurd (ground arith)
