-- ===== src/Cpu/Search.antt =====
-- SYSDEPS/sd-cpuidx86.c: the search of a table of cache descriptors.
use coreland_lua_ada_load.Base.{
  ℕ, Bool, true, false, some, List, [], ◌∷◌, ◌==◌, ◌&&◌, not, ◌≡◌, ◌≢◌, ◌↔◌, ◌⊎◌, inl, inr, arith,
  Bool-cases,
}
use coreland_lua_ada_load.Cpu.Tables.{CacheDescription}
use coreland_lua_ada_load.Cpu.Caches.{search_caches, cpu_check_cache_list}

-- No row has the descriptor.
abbrev fresh : ℕ → List CacheDescription → Bool
fresh v [] = true
fresh v (r ∷ rows) = not (r.val == v) && fresh v rows

-- The descriptors are distinct, and the zero row is the last.
abbrev pub is_table : List CacheDescription → Bool
is_table [] = false
is_table (r ∷ []) = r.val == 0
is_table (r ∷ s ∷ rows) = not (r.val == 0) && (fresh r.val (s ∷ rows) && is_table (s ∷ rows))

-- A row of the table has the descriptor, the size and the line.
abbrev pub Lists : List CacheDescription → ℕ → ℕ → ℕ → Type 0
Lists [] v size line = ⊥
Lists (r ∷ rows) v size line =
    ((r.val ≡ v) × (r.size ≡ size) × (r.line ≡ line)) ⊎ Lists rows v size line

fresh-Lists :
    (rows : List CacheDescription) (v size line : ℕ)
    → fresh v rows ≡ true
    → Lists rows v size line
    → ⊥
fresh-Lists [] v size line f m = m
fresh-Lists (r ∷ rows) v size line f (inl m) = absurd (ground arith)
fresh-Lists (r ∷ rows) v size line f (inr m) = fresh-Lists rows v size line (ground arith) m

search_caches-Lists :
    (table : List CacheDescription) (v size line : ℕ)
    → is_table table ≡ true
    → v ≢ 0
    → Lists table v size line
    → search_caches table v ≡ some (size, line)
unfolding search_caches
search_caches-Lists [] v size line t n m = absurd m
search_caches-Lists (r ∷ []) v size line t n (inl m) = absurd (n (ground arith))
search_caches-Lists (r ∷ []) v size line t n (inr m) = absurd m
search_caches-Lists (r ∷ s ∷ rows) v size line t n (inl m) = ground arith
search_caches-Lists (r ∷ s ∷ rows) v size line t n (inr m) =
    let rest = search_caches-Lists (s ∷ rows) v size line (ground arith) n m in
    elim (Bool-cases (r.val == v)) [
      | inl same ↦ absurd (fresh-Lists (s ∷ rows) v size line (ground arith) m)
      | inr other ↦ ground (arith, rest)
    ]

Lists-search_caches :
    (table : List CacheDescription) (v size line : ℕ)
    → search_caches table v ≡ some (size, line)
    → Lists table v size line
unfolding search_caches
Lists-search_caches [] v size line h = absurd (ground arith)
Lists-search_caches (r ∷ rows) v size line h = elim (Bool-cases (r.val == v)) [
  | inl same ↦ inl (ground arith)
  | inr other ↦ inr (Lists-search_caches rows v size line (ground arith))
]

-- In a table whose descriptors are distinct and whose only zero row is the last, a descriptor
-- that is not 0 is found, with a size and a line, exactly if a row lists the three.
pub cpu_check_cache_list_iff :
    (table : List CacheDescription) (v size line : ℕ)
    → is_table table ≡ true
    → v ≢ 0
    → (cpu_check_cache_list table v ≡ some (size, line)) ↔ Lists table v size line
unfolding cpu_check_cache_list
cpu_check_cache_list_iff table v size line t n = (
  (λ h. Lists-search_caches table v size line (ground arith)),
  (λ m. ground (arith, search_caches-Lists table v size line t n m)),
)
