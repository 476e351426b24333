-- ===== src/Tests/Processor.antt =====
-- The theorems on the processor's program at a small processor.
use coreland_lua_ada_load.Base.{
  ℕ, true, some, [], ◌∷◌, ◌==◌, if◌then◌else◌, ◌≡◌, ◌↔◌, refl, arith, codes, bytes_eq,
}
use coreland_lua_ada_load.Cpu.Tables.{features, intel_l2_caches}
use coreland_lua_ada_load.Cpu.Caches.{Registers, cpu_check_cache_list}
use coreland_lua_ada_load.Cpu.Vendors.{intel_flags}
use coreland_lua_ada_load.Cpu.Program.{main, exits, common_flags, cpu_check_features}
use coreland_lua_ada_load.Cpu.Told.{told, told_of, cpu_check_features-told}
use coreland_lua_ada_load.Cpu.Search.{Lists, cpu_check_cache_list_iff}
use coreland_lua_ada_load.Cpu.Answers.{main-told}

abbrev registers : ℕ → ℕ → ℕ → ℕ → Registers
registers a b c d = record { eax = a; ebx = b; ecx = c; edx = d }

abbrev leaf : ℕ → Registers
leaf val =
    if val == 0
    then registers 2 0x756e6547 0 0
    else if val == 0x80000000
    then registers 0x80000001 0 0 0
    else registers 0 0 1 0x04000000

abbrev cpuid_exec : ℕ → ℕ → Registers × ℕ
cpuid_exec val w = (leaf val, w)

cpu_check_features-told_example :
    cpu_check_features
      (common_flags (leaf 0x80000001) (intel_flags (leaf 1) 0))
      (codes "sse2")
      features
    ≡ told_of (codes "sse2") (told (leaf 1) (leaf 0x80000001))
cpu_check_features-told_example = cpu_check_features-told (leaf 1) (leaf 0x80000001) (codes "sse2")

main-told_example : main cpuid_exec true (codes "sse2" ∷ []) 0 ≡ exits (codes "1\n") 0
unfolding bytes_eq
main-told_example =
    main-told cpuid_exec leaf (λ val w. refl) (codes "sse2") [] (codes "1\n") 0 refl (omega arith)
      refl

cpu_check_cache_list_iff_example :
    (cpu_check_cache_list intel_l2_caches 0x44 ≡ some (1024, 32))
    ↔ Lists intel_l2_caches 0x44 1024 32
cpu_check_cache_list_iff_example =
    cpu_check_cache_list_iff intel_l2_caches 0x44 1024 32 refl (λ e. absurd (omega arith))
