-- ===== src/Cpu/Answers.antt =====
-- SYSDEPS/sd-cpuidx86.c: the program's answer on an Intel processor.
use coreland_lua_ada_load.Base.{
  ℕ, ◌≤◌, Bytes, true, Option, none, some, List, ◌∷◌, ◌≡◌, refl, ◌∙◌, ap, arith,
}
use coreland_lua_ada_load.Cpu.Tables.{intel, unknown, vendors, features}
use coreland_lua_ada_load.Cpu.Caches.{Registers}
use coreland_lua_ada_load.Cpu.Vendors.{
  CpuInfo, set_l1i, set_l1d, set_l2, set_l3, select_vendor, intel_flags, cpu_vendor_intel,
}
use coreland_lua_ada_load.Cpu.Program.{
  vendor_info, main, exits, collect, answer, common_features, common_flags, cpu_check_features,
}
use coreland_lua_ada_load.Cpu.Told.{told, told_of, cpu_check_features-told}

set_l1i-flags : (o : Option (ℕ × ℕ)) (cpu : CpuInfo) → (set_l1i o cpu).flags ≡ cpu.flags
set_l1i-flags none cpu = refl
set_l1i-flags (some (size, line)) cpu = refl

set_l1d-flags : (o : Option (ℕ × ℕ)) (cpu : CpuInfo) → (set_l1d o cpu).flags ≡ cpu.flags
set_l1d-flags none cpu = refl
set_l1d-flags (some (size, line)) cpu = refl

set_l2-flags : (o : Option (ℕ × ℕ)) (cpu : CpuInfo) → (set_l2 o cpu).flags ≡ cpu.flags
set_l2-flags none cpu = refl
set_l2-flags (some (size, line)) cpu = refl

set_l3-flags : (o : Option (ℕ × ℕ)) (cpu : CpuInfo) → (set_l3 o cpu).flags ≡ cpu.flags
set_l3-flags none cpu = refl
set_l3-flags (some (size, line)) cpu = refl

vendor_found : (ebx : ℕ) → ebx ≡ 0x756e6547 → select_vendor ebx vendors unknown ≡ intel
unfolding select_vendor
vendor_found ebx e = rw e refl

answer-some :
    (cpu : CpuInfo) (name text : Bytes)
    → cpu_check_features cpu.flags name features ≡ some text
    → answer cpu name ≡ exits text 0
unfolding answer
answer-some cpu name text h = ground arith

module _ {W : Type 0} (cpuid_exec : ℕ → W → Registers × W) (leaf : ℕ → Registers)
    (stable : (val : ℕ) (w : W) → (cpuid_exec val w).0 ≡ leaf val) where
  cpu_vendor_intel-flags :
      (cpu : CpuInfo) (w : W)
      → (cpu_vendor_intel cpuid_exec cpu w).0.flags ≡ intel_flags (leaf 1) cpu.flags
  unfolding cpu_vendor_intel
  cpu_vendor_intel-flags cpu w =
      set_l3-flags _ _
      ∙ set_l2-flags _ _
      ∙ set_l1d-flags _ _
      ∙ set_l1i-flags _ _
      ∙ ap (λ r. intel_flags r cpu.flags) (stable 1 w)

  common_features-flags :
      (cpu : CpuInfo) (w : W)
      → 0x80000001 ≤ (leaf 0x80000000).eax
      → (common_features cpuid_exec cpu w).flags ≡ common_flags (leaf 0x80000001) cpu.flags
  unfolding common_features
  common_features-flags cpu w h = rw (stable 0x80000000 w, stable 0x80000001) (ground arith)

  intel_features-flags :
      (cpu : CpuInfo) (w : W)
      → cpu.vendor ≡ intel
      → cpu.flags ≡ 0
      → 0x80000001 ≤ (leaf 0x80000000).eax
      → let found = vendor_info cpuid_exec cpu.vendor cpu w in
        (common_features cpuid_exec found.0 found.1).flags
        ≡ common_flags (leaf 0x80000001) (intel_flags (leaf 1) 0)
  intel_features-flags cpu w v f h =
      ap
        (λ vendor.
          (common_features cpuid_exec (vendor_info cpuid_exec vendor cpu w).0
            (vendor_info cpuid_exec vendor cpu w).1).flags)
        v
      ∙ common_features-flags (cpu_vendor_intel cpuid_exec cpu w).0
          (cpu_vendor_intel cpuid_exec cpu w).1 h
      ∙ ap (common_flags (leaf 0x80000001))
          (cpu_vendor_intel-flags cpu w ∙ ap (intel_flags (leaf 1)) f)

  collect-flags :
      (w : W)
      → (leaf 0).ebx ≡ 0x756e6547
      → 0x80000001 ≤ (leaf 0x80000000).eax
      → (collect cpuid_exec w).flags ≡ common_flags (leaf 0x80000001) (intel_flags (leaf 1) 0)
  unfolding collect
  collect-flags w v h =
      intel_features-flags _ _ (vendor_found _ (ap (λ r. r.ebx) (stable 0 _) ∙ v)) refl h

  -- Where a leaf always gives the same registers, the vendor id is Intel's and the extended leaf
  -- is there, the program called with the name of a feature prints what the bits of the two leaves
  -- tell, and exits with 0.
  pub main-told :
      (name : Bytes) (names : List Bytes) (text : Bytes) (w : W)
      → (leaf 0).ebx ≡ 0x756e6547
      → 0x80000001 ≤ (leaf 0x80000000).eax
      → told_of name (told (leaf 1) (leaf 0x80000001)) ≡ some text
      → main cpuid_exec true (name ∷ names) w ≡ exits text 0
  unfolding main
  main-told name names text w vendor extended known = answer-some (collect cpuid_exec w) name text (
      ap (λ flags. cpu_check_features flags name features) (collect-flags w vendor extended)
      ∙ cpu_check_features-told (leaf 1) (leaf 0x80000001) name
      ∙ known)
