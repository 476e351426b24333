-- ===== src/Cpu/Vendors.antt =====
-- SYSDEPS/sd-cpuidx86.c: the vendor of the processor, and what its vendor's leaves tell.
use coreland_lua_ada_load.Base.{
  ℕ, ◌/◌, ◌%◌, ◌^◌, Option, none, some, List, [], ◌∷◌, ◌==◌, leb, if◌then◌else◌, bit_and, bit_or,
}
use coreland_lua_ada_load.Cpu.Tables.{
  CpuVendor, unknown, VendorDescription, intel_l1i_caches, intel_l1d_caches, intel_l2_caches,
  intel_l3_caches,
}
use coreland_lua_ada_load.Cpu.Caches.{Registers, cpu_cache_size}

-- The members of struct cpu_info that the program sets.
pub record CpuInfo : Type 0 where
  pub vendor : CpuVendor
  pub ext_family : ℕ
  pub family : ℕ
  pub model : ℕ
  pub ext_model : ℕ
  pub step : ℕ
  pub type : ℕ
  pub brand : ℕ
  pub cache_l1_instruction : ℕ
  pub cache_l1_data : ℕ
  pub cache_l2 : ℕ
  pub cache_l3 : ℕ
  pub cacheline : ℕ
  pub flags : ℕ
  pub max_basic_param : ℕ
  pub max_extended_param : ℕ
  pub max_alt_extended_param : ℕ

-- The static variables before main.
abbrev pub no_info : CpuInfo
no_info = record {
  vendor = unknown;
  ext_family = 0;
  family = 0;
  model = 0;
  ext_model = 0;
  step = 0;
  type = 0;
  brand = 0;
  cache_l1_instruction = 0;
  cache_l1_data = 0;
  cache_l2 = 0;
  cache_l3 = 0;
  cacheline = 0;
  flags = 0;
  max_basic_param = 0;
  max_extended_param = 0;
  max_alt_extended_param = 0;
}

-- The loop has no break: the last row with the id counts.
unfoldable pub select_vendor : ℕ → List VendorDescription → CpuVendor → CpuVendor
select_vendor ebx [] vendor = vendor
select_vendor ebx (row ∷ rows) vendor =
    select_vendor ebx rows (if ebx == row.id then row.vendor else vendor)

-- `if (reg & mask) cpu.flags |= bit;`
unfoldable pub flag_if : ℕ → ℕ → ℕ → ℕ → ℕ
flag_if reg mask bit flags = if bit_and reg mask == 0 then flags else bit_or flags bit

unfoldable pub intel_flags : Registers → ℕ → ℕ
intel_flags r flags = flag_if r.ecx 0x00100000 0x0100 (
    flag_if r.ecx 0x00080000 0x0080 (
      flag_if r.ecx 0x00000001 0x0040 (
        flag_if r.edx 0x04000000 0x0020 (
          flag_if r.edx 0x02000000 0x0010
            (flag_if r.edx 0x02000000 0x0002 (flag_if r.edx 0x00800000 0x0001 flags))))))

-- A found cache sets its size and the line.
abbrev pub set_l1i : Option (ℕ × ℕ) → CpuInfo → CpuInfo
set_l1i none cpu = cpu
set_l1i (some (size, line)) cpu = record cpu { cache_l1_instruction = size; cacheline = line }

abbrev pub set_l1d : Option (ℕ × ℕ) → CpuInfo → CpuInfo
set_l1d none cpu = cpu
set_l1d (some (size, line)) cpu = record cpu { cache_l1_data = size; cacheline = line }

abbrev pub set_l2 : Option (ℕ × ℕ) → CpuInfo → CpuInfo
set_l2 none cpu = cpu
set_l2 (some (size, line)) cpu = record cpu { cache_l2 = size; cacheline = line }

abbrev pub set_l3 : Option (ℕ × ℕ) → CpuInfo → CpuInfo
set_l3 none cpu = cpu
set_l3 (some (size, line)) cpu = record cpu { cache_l3 = size; cacheline = line }

module _ {W : Type 0} (cpuid_exec : ℕ → W → Registers × W) where
  unfoldable pub cpu_vendor_intel : CpuInfo → W → CpuInfo × W
  unfolding intel_flags cpu_cache_size
  cpu_vendor_intel cpu w =
      let (r, w₀) = cpuid_exec 1 w in
      let info : CpuInfo = record cpu {
        step = r.eax % 16;
        model = r.eax / 2 ^ 4 % 16;
        family = r.eax / 2 ^ 8 % 16;
        type = r.eax / 2 ^ 12 % 4;
        brand = r.ebx % 16;
        flags = intel_flags r cpu.flags;
      } in
      let (l1i, w₁) = cpu_cache_size cpuid_exec intel_l1i_caches w₀ in
      let (l1d, w₂) = cpu_cache_size cpuid_exec intel_l1d_caches w₁ in
      let (l2, w₃) = cpu_cache_size cpuid_exec intel_l2_caches w₂ in
      let (l3, w₄) = cpu_cache_size cpuid_exec intel_l3_caches w₃ in
      (set_l3 l3 (set_l2 l2 (set_l1d l1d (set_l1i l1i info))), w₄)

  -- Check for L1 cache information, if supported.
  unfoldable pub amd_l1 : CpuInfo → W → CpuInfo × W
  amd_l1 cpu w =
      let (r, w') = cpuid_exec 0x80000005 w in
      if leb 0x80000005 cpu.max_extended_param
      then (
        record cpu {
          cache_l1_data = r.ecx / 2 ^ 24;
          cacheline = r.ecx % 256;
          cache_l1_instruction = r.edx / 2 ^ 24;
        },
        w',
      )
      else (cpu, w)

  -- Check for L2 cache information, if supported.
  unfoldable pub amd_l2 : CpuInfo → W → CpuInfo × W
  amd_l2 cpu w =
      let (r, w') = cpuid_exec 0x80000006 w in
      if leb 0x80000006 cpu.max_extended_param
      then (record cpu { cache_l2 = r.ecx / 2 ^ 24 }, w')
      else (cpu, w)

  unfoldable pub cpu_vendor_amd : CpuInfo → W → CpuInfo × W
  unfolding amd_l1 amd_l2
  cpu_vendor_amd cpu w =
      let (r, w₀) = cpuid_exec 1 w in
      let info : CpuInfo = record cpu {
        step = r.eax % 16;
        model = r.eax / 2 ^ 4 % 16;
        family = r.eax / 2 ^ 8 % 16;
        ext_model = r.eax / 2 ^ 16 % 256;
        ext_family = r.eax / 2 ^ 20 % 16;
      } in
      let (l1, w₁) = amd_l1 info w₀ in amd_l2 l1 w₁
