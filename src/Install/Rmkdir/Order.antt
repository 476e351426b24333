-- ===== src/Install/Rmkdir/Order.antt =====
-- The directories that install_rmkdir asks for, and its result.
use coreland_lua_ada_load.Base.{
  ℕ, zero, suc, ◌+◌, ◌-◌, ◌<◌, ◌≤◌, Bytes, Bool, true, false, Option, none, some, List, [], ◌∷◌,
  ◌++◌, ◌==◌, ◌≡◌, refl, sym, ◌∙◌, ap, subst, if◌then◌else◌, length, take, drop, arith, length-drop,
  append_assoc, take_of_length_le, drop_of_length_le,
}
use coreland_lua_ada_load.Install.Types.{install_max_pathlen}
use coreland_lua_ada_load.Install.Os.{Os, okay, fails}
use coreland_lua_ada_load.Install.Machine.{Machine, Out, done}
use coreland_lua_ada_load.Install.Rmkdir.{
  slash_position, component_at, next_component, rmkdir_component, rmkdir_loop, install_rmkdir,
}

-- The paths to make for a path: one up to each of its slashes, and the whole of it with a
-- slash behind, if it does not end in one. The flag says that a component was begun.
abbrev pub directories : Bytes → Bool → Bytes → List Bytes
directories before false [] = []
directories before true [] = (before ++ (b'/' ∷ [])) ∷ []
directories before begun (c ∷ cs) =
    if c == b'/'
    then (before ++ (b'/' ∷ [])) ∷ directories (before ++ (b'/' ∷ [])) false cs
    else directories (before ++ (c ∷ [])) true cs

abbrev slash : Bytes
slash = b'/' ∷ []

directories_inner :
    (ptr : Bytes) (before : Bytes) (begun : Bool) (n : ℕ)
    → slash_position ptr ≡ some n
    → directories before begun ptr
      ≡ (before ++ (take n ptr ++ slash))
        ∷ directories (before ++ (take n ptr ++ slash)) false (drop (suc n) ptr)
unfolding slash_position
directories_inner [] before begun n h = ground arith
directories_inner (c ∷ cs) before begun zero h = ground arith
directories_inner (c ∷ cs) before begun (suc n) h = ground (
  arith,
  directories_inner cs (before ++ (c ∷ [])) true n,
  append_assoc before (c ∷ []) (take n cs ++ slash),
)

directories_last :
    (ptr : Bytes) (before : Bytes)
    → slash_position ptr ≡ none
    → directories before true ptr ≡ (before ++ (ptr ++ slash)) ∷ []
unfolding slash_position
directories_last [] before h = refl
directories_last (c ∷ cs) before h =
    ground
      (arith, directories_last cs (before ++ (c ∷ [])), append_assoc before (c ∷ []) (cs ++ slash))

module _ {W : Type 0} (os : Os W) (perm : ℕ) where
  -- The system's state after mkdir of each path, whatever the calls reply.
  abbrev pub make_all : List Bytes → W → W
  make_all [] w = w
  make_all (d ∷ ds) w = make_all ds (os.mkdir d perm w).1

  -- The state after one mkdir.
  abbrev after_mkdir : Bytes → Machine W → Machine W
  after_mkdir d s = elim (os.mkdir d perm s.world).0 [
    | okay _ ↦ record s { world = (os.mkdir d perm s.world).1 }
    | fails e ↦ record s { world = (os.mkdir d perm s.world).1; errno = e }
  ]

  after_mkdir-world :
      (d : Bytes) (s : Machine W) → (after_mkdir d s).world ≡ (os.mkdir d perm s.world).1
  after_mkdir-world d s = ground arith

  rmkdir_component_lem :
      (d : Bytes) (end : Bool) (rest : Machine W → Out W Bool) (s : Machine W)
      → rmkdir_component os perm d end rest s ≡ rest (after_mkdir d s)
  unfolding rmkdir_component
  rmkdir_component_lem d end rest s = ground arith

slash_position-lt : (ptr : Bytes) (n : ℕ) → slash_position ptr ≡ some n → n < length ptr
unfolding slash_position
slash_position-lt [] n h = ground arith
slash_position-lt (c ∷ cs) zero h = omega arith
slash_position-lt (c ∷ cs) (suc n) h = ground (arith, slash_position-lt cs n)

next_component-le : (ptr : Bytes) → (next_component ptr).0 ≤ length ptr
unfolding next_component
next_component-le ptr = at (slash_position ptr) refl
  where
    at : (o : Option ℕ) → slash_position ptr ≡ o → (component_at (length ptr) o).0 ≤ length ptr
    at none e = omega arith
    at (some n) e = omega (arith, slash_position-lt ptr n e)

module _ (before : Bytes) (c : ℕ) (cs : Bytes) where
  -- What a round of that length takes from the path.
  abbrev Takes : ℕ → Type 0
  Takes pos =
      directories before false (c ∷ cs)
      ≡ (before ++ (take pos (c ∷ cs) ++ slash))
        ∷ directories (before ++ (take pos (c ∷ cs) ++ slash)) false (drop (pos + 1) (c ∷ cs))

  directories_at :
      (o : Option ℕ) → slash_position (c ∷ cs) ≡ o → Takes (component_at (length (c ∷ cs)) o).0
  directories_at none e =
      rw
        (
          take_of_length_le (length cs) cs (omega arith),
          drop_of_length_le (length (c ∷ cs) + 1) (c ∷ cs) (omega arith),
        )
        (unfold slash_position in
          ground (
            arith,
            directories_last cs (before ++ (c ∷ [])),
            append_assoc before (c ∷ []) (cs ++ slash),
          ))
  directories_at (some n) e =
      subst
        (λ k.
          directories before false (c ∷ cs)
          ≡ (before ++ (take n (c ∷ cs) ++ slash))
            ∷ directories (before ++ (take n (c ∷ cs) ++ slash)) false (drop k (c ∷ cs)))
        next (directories_inner (c ∷ cs) before false n e)
    where
      next : suc n ≡ n + 1
      next = omega arith

  directories_next : Takes (next_component (c ∷ cs)).0
  directories_next = unfold next_component in directories_at (slash_position (c ∷ cs)) refl

module _ {W : Type 0} (os : Os W) (perm : ℕ) where
  rmkdir_loop_lem :
      (fuel buflen : ℕ) (path_buf ptr : Bytes) (s : Machine W)
      → length ptr ≤ fuel
      → (0 < length ptr → length ptr + 2 ≤ buflen)
      → (s' : Machine W) × (rmkdir_loop os perm fuel path_buf buflen ptr s ≡ done true s')
        × (s'.world ≡ make_all os perm (directories path_buf false ptr) s.world)
  unfolding rmkdir_loop
  rmkdir_loop_lem fuel buflen path_buf [] s enough room = (s, refl, refl)
  rmkdir_loop_lem zero buflen path_buf (c ∷ cs) s enough room = absurd (omega arith)
  rmkdir_loop_lem (suc fuel) buflen path_buf (c ∷ cs) s enough room =
      let pos = (next_component (c ∷ cs)).0 in
      let d = path_buf ++ (take pos (c ∷ cs) ++ slash) in
      let within = next_component-le (c ∷ cs) in
      let left = length-drop (pos + 1) (c ∷ cs) in
      let big : length (c ∷ cs) + 2 ≤ buflen = room (omega arith) in
      let (s', run, made) =
        rmkdir_loop_lem fuel (buflen - pos - 1) d (drop (pos + 1) (c ∷ cs))
          (after_mkdir os perm d s) (omega arith) (λ nonempty. omega arith) in
      (
        s',
        ground (
          arith,
          rmkdir_component_lem os perm d (next_component (c ∷ cs)).1
              (rmkdir_loop os perm fuel d (buflen - pos - 1) (drop (pos + 1) (c ∷ cs))) s,
        ),
        made
            ∙ ap (make_all os perm (directories d false (drop (pos + 1) (c ∷ cs))))
                (after_mkdir-world os perm d s)
            ∙ ap (λ (ds : List Bytes). make_all os perm ds s.world)
                (sym (directories_next path_buf c cs)),
      )

  -- For a path of at most 1022 bytes install_rmkdir makes the directories up to each slash, in
  -- that order, and reports success whatever the system replies to the calls of mkdir.
  pub install_rmkdir_lem :
      (dir : Bytes) (s : Machine W)
      → length dir + 2 ≤ install_max_pathlen
      → (s' : Machine W) × (install_rmkdir os perm dir s ≡ done true s')
        × (s'.world ≡ make_all os perm (directories [] false dir) s.world)
  install_rmkdir_lem dir s short =
      let (s', run, made) =
        rmkdir_loop_lem (length dir) install_max_pathlen [] dir s (omega arith) (λ _. short) in
      (s', unfold install_rmkdir in ground arith, made)

  -- A path of 1024 bytes or more is refused with ENAMETOOLONG, and nothing is made.
  pub install_rmkdir_long :
      (dir : Bytes) (s : Machine W)
      → install_max_pathlen ≤ length dir
      → install_rmkdir os perm dir s ≡ done false (record s { errno = os.enametoolong })
  unfolding install_rmkdir
  install_rmkdir_long dir s long = ground arith

  -- A path of 1023 bytes without a slash is reported as made, and mkdir is not called.
  pub install_rmkdir_full :
      (dir : Bytes) (s : Machine W)
      → length dir + 1 ≡ install_max_pathlen
      → slash_position dir ≡ none
      → install_rmkdir os perm dir s ≡ done true s
  install_rmkdir_full [] s full whole = absurd (omega arith)
  install_rmkdir_full (c ∷ cs) s full whole =
      let next : (next_component (c ∷ cs)).0 ≡ length (c ∷ cs) =
        unfold next_component in rw whole in
      unfold install_rmkdir rmkdir_loop in ground arith
