-- ===== src/Cpu/Caches.antt =====
-- SYSDEPS/sd-cpuidx86.c: the CPUID instruction, and the search for cache descriptors in the
-- registers that it fills.
use coreland_lua_ada_load.Base.{
  ℕ, zero, suc, ◌/◌, ◌%◌, ◌^◌, Option, none, some, List, [], ◌∷◌, ◌==◌, if◌then◌else◌, bit_and,
}
use coreland_lua_ada_load.Cpu.Tables.{CacheDescription}

pub record Registers : Type 0 where
  pub eax : ℕ
  pub ebx : ℕ
  pub ecx : ℕ
  pub edx : ℕ

-- The loop over a list that ends with a zero row.
unfoldable pub search_caches : List CacheDescription → ℕ → Option (ℕ × ℕ)
search_caches [] descriptor_id = none
search_caches (cdesc ∷ cache_list) descriptor_id =
    if cdesc.val == 0
    then none
    else if cdesc.val == descriptor_id
    then some (cdesc.size, cdesc.line)
    else search_caches cache_list descriptor_id

-- The size and the line of a cache, if the descriptor is known.
unfoldable pub cpu_check_cache_list : List CacheDescription → ℕ → Option (ℕ × ℕ)
unfolding search_caches
cpu_check_cache_list cache_list descriptor_id =
    if descriptor_id == 0 then none else search_caches cache_list descriptor_id

-- `if (f (...)) return 1;` and then the rest.
abbrev pub or_else : {A : Type 0} → Option A → Option A → Option A
or_else (some a) rest = some a
or_else none rest = rest

unfoldable pub cpu_check_cache_list_by_register : List CacheDescription → ℕ → Option (ℕ × ℕ)
unfolding cpu_check_cache_list
cpu_check_cache_list_by_register cache_list reg_value =
    or_else (cpu_check_cache_list cache_list (reg_value / 2 ^ 24 % 256)) (
      or_else (cpu_check_cache_list cache_list (reg_value / 2 ^ 16 % 256)) (
        or_else (cpu_check_cache_list cache_list (reg_value / 2 ^ 8 % 256))
          (cpu_check_cache_list cache_list (reg_value % 256))))

-- A register whose top bit is set holds no descriptors.
abbrev pub descriptors : ℕ → ℕ
descriptors reg = if bit_and reg 0x80000000 == 0 then reg else 0

-- The four registers, one after another.
unfoldable pub check_registers : List CacheDescription → Registers → Option (ℕ × ℕ)
unfolding cpu_check_cache_list_by_register
check_registers ctab r = or_else (cpu_check_cache_list_by_register ctab (descriptors r.eax)) (
    or_else (cpu_check_cache_list_by_register ctab (descriptors r.ebx)) (
      or_else (cpu_check_cache_list_by_register ctab (descriptors r.ecx))
        (cpu_check_cache_list_by_register ctab (descriptors r.edx))))

module _ {W : Type 0} (cpuid_exec : ℕ → W → Registers × W) where
  -- The loop of cpu_cache_size, with the rounds that are left.
  unfoldable pub cache_rounds : ℕ → List CacheDescription → W → Option (ℕ × ℕ) × W
  unfolding check_registers
  cache_rounds zero ctab w = (none, w)
  cache_rounds (suc max) ctab w =
      let (r, w') = cpuid_exec 2 w in
      let rest = cache_rounds max ctab w' in
      elim (check_registers ctab r) [ none ↦ rest | some found ↦ (some found, w') ]

  -- The registers are local: only the processor's state changes.
  unfoldable pub cpu_cache_size : List CacheDescription → W → Option (ℕ × ℕ) × W
  unfolding cache_rounds
  cpu_cache_size ctab w = let (r, w') = cpuid_exec 2 w in cache_rounds (r.eax % 256) ctab w'
