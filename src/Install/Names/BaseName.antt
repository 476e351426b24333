-- ===== src/Install/Names/BaseName.antt =====
-- base_name on a path with a last component.
use coreland_lua_ada_load.Base.{
  ℕ, zero, suc, ◌+◌, ◌-◌, ◌<◌, Bytes, false, some, [], ◌∷◌, ◌++◌, ◌==◌, ◌≡◌, refl, ◌∙◌, ap, length,
  get_or, take, drop, replicate, arith, length-append, length-replicate, get_or-append_lt,
  get_or-append_add, drop-append, take-append, append_assoc,
}
use coreland_lua_ada_load.Install.Types.{install_max_pathlen}
use coreland_lua_ada_load.Install.Names.{skip_slashes, name_start, base_name}

-- No byte is a slash.
abbrev pub NoSlash : Bytes → Type 0
NoSlash [] = Unit
NoSlash (c ∷ cs) = ((c == b'/') ≡ false) × NoSlash cs

-- What may stand in front of a component: nothing, or a path that ends in a slash.
pub data IsDirPrefix : Bytes → Type 0 where
  bare : IsDirPrefix []
  below : (q : Bytes) → IsDirPrefix (q ++ (b'/' ∷ []))

NoSlash-get_or :
    (name : Bytes) (j : ℕ) → NoSlash name → j < length name → (get_or name j 0 == b'/') ≡ false
NoSlash-get_or [] j h l = absurd (omega arith)
NoSlash-get_or (c ∷ cs) zero h l = h.0
NoSlash-get_or (c ∷ cs) (suc j) h l = NoSlash-get_or cs j h.1 (omega arith)

get_or-replicate : (k j : ℕ) → j < k → get_or {A = ℕ} (replicate k b'/') j 0 ≡ b'/'
get_or-replicate zero j h = absurd (omega arith)
get_or-replicate (suc k) zero h = refl
get_or-replicate (suc k) (suc j) h = get_or-replicate k j (omega arith)

module _ (s : Bytes) where
  skip_slashes_over :
      (m k : ℕ)
      → ((j : ℕ) → j < k → get_or s (suc (m + j)) 0 ≡ b'/')
      → skip_slashes s (m + k) ≡ skip_slashes s m
  unfolding skip_slashes
  skip_slashes_over m zero h = ap (skip_slashes s) (omega arith)
  skip_slashes_over m (suc k) h =
      ap (skip_slashes s) (next k)
      ∙ rw (h k (omega arith)) (skip_slashes_over m k (λ j l. h j (omega arith)))
    where
      next : (k : ℕ) → m + suc k ≡ suc (m + k)
      next k = omega arith

  skip_slashes_stop : (m : ℕ) → (get_or s m 0 == b'/') ≡ false → skip_slashes s m ≡ m
  unfolding skip_slashes
  skip_slashes_stop zero h = refl
  skip_slashes_stop (suc m) h = rw h

  name_start_over :
      (a k : ℕ)
      → ((j : ℕ) → j < k → (get_or s (a + j) 0 == b'/') ≡ false)
      → name_start s (a + k) ≡ name_start s a
  unfolding name_start
  name_start_over a zero h = ap (name_start s) (omega arith)
  name_start_over a (suc k) h =
      ap (name_start s) (next k)
      ∙ rw (h k (omega arith)) (name_start_over a k (λ j l. h j (omega arith)))
    where
      next : (k : ℕ) → a + suc k ≡ suc (a + k)
      next k = omega arith

name_start_below :
    (q rest : Bytes) → name_start (q ++ (b'/' ∷ rest)) (suc (length q)) ≡ suc (length q)
unfolding name_start
name_start_below q rest = ground (arith, get_or-append_add q (b'/' ∷ rest) 0 0, zero_add (length q))
  where
    zero_add : (n : ℕ) → n + 0 ≡ n
    zero_add n = omega arith

name_start_prefix :
    (pre rest : Bytes) → IsDirPrefix pre → name_start (pre ++ rest) (length pre) ≡ length pre
unfolding name_start
name_start_prefix pre rest bare = refl
name_start_prefix pre rest (below q) =
    rw (append_assoc q (b'/' ∷ []) rest, snoc) (name_start_below q rest)
  where
    snoc : length (q ++ (b'/' ∷ [])) ≡ suc (length q)
    snoc = omega (arith, length-append q (b'/' ∷ []))

base_name_at :
    (dir : Bytes) (t u : ℕ)
    → skip_slashes dir (length dir - 1) ≡ t
    → name_start dir t ≡ u
    → 0 < length dir
    → length dir < install_max_pathlen
    → (get_or dir t 0 == b'/') ≡ false
    → base_name dir ≡ some (take (t - u + 1) (drop u dir))
unfolding base_name
base_name_at dir t u e f nonempty short name = rw (e, f) (ground arith)

module _ (pre name : Bytes) (k : ℕ) where
  abbrev path : Bytes
  path = pre ++ (name ++ replicate k b'/')

  in_name :
      (j : ℕ) → NoSlash name → j < length name → (get_or path (length pre + j) 0 == b'/') ≡ false
  in_name j h l =
      rw
        (
          get_or-append_add pre (name ++ replicate k b'/') j 0,
          get_or-append_lt name (replicate k b'/') j 0 l,
        )
        (NoSlash-get_or name j h l)

  in_tail : (j : ℕ) → j < k → get_or path (length pre + (length name + j)) 0 ≡ b'/'
  in_tail j l =
      get_or-append_add pre (name ++ replicate k b'/') (length name + j) 0
      ∙ get_or-append_add name (replicate k b'/') j 0
      ∙ get_or-replicate k j l

  path-length : length path ≡ length pre + (length name + k)
  path-length = omega (
    arith,
    length-append pre (name ++ replicate k b'/'),
    length-append name (replicate k b'/'),
    length-replicate {A = ℕ} k b'/',
  )

  -- The end of the name, and its start, as the loops find them.
  name_end :
      (n : ℕ)
      → length name ≡ suc n
      → NoSlash name
      → skip_slashes path (length path - 1) ≡ length pre + n
  name_end n e h =
      ap (skip_slashes path) (omega (arith, path-length))
      ∙ skip_slashes_over path (length pre + n) k
          (λ j l. ap (λ (i : ℕ). get_or path i 0) (omega arith) ∙ in_tail j l)
      ∙ skip_slashes_stop path (length pre + n) (in_name n h (omega arith))

  name_begin :
      (n : ℕ)
      → length name ≡ suc n
      → IsDirPrefix pre
      → NoSlash name
      → name_start path (length pre + n) ≡ length pre
  name_begin n e p h =
      name_start_over path (length pre) n (λ j l. in_name j h (omega arith))
      ∙ name_start_prefix pre (name ++ replicate k b'/') p

  -- base_name of a path of fewer than 1024 bytes gives its last component, if it is not empty,
  -- whatever path, ended by a slash, stands in front of it and however many slashes behind.
  pub base_name_component :
      IsDirPrefix pre
      → NoSlash name
      → 0 < length name
      → length path < install_max_pathlen
      → base_name path ≡ some name
  base_name_component p h nonempty short =
      let n = length name - 1 in
      let e : length name ≡ suc n = omega arith in
      let last = name_end n e h in
      let first = name_begin n e p h in
      let size : length pre + n - length pre + 1 ≡ length name = omega arith in
      base_name_at path (length pre + n) (length pre) last first (omega (arith, path-length)) short
        (in_name n h (omega arith))
      ∙ ap (λ (l : ℕ). some (take l (drop (length pre) path))) size
      ∙ rw (drop-append pre (name ++ replicate k b'/'), take-append name (replicate k b'/'))
