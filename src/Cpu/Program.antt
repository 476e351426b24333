-- ===== src/Cpu/Program.antt =====
-- SYSDEPS/sd-cpuidx86.c: main, and the features by name. What goes to stderr is left out.
use coreland_lua_ada_load.Base.{
  ℕ, ◌*◌, ◌%◌, ◌^◌, Bytes, Bool, Option, none, some, List, [], ◌∷◌, ◌++◌, ◌==◌, leb, if◌then◌else◌,
  bytes_eq, codes, fmt_ulong, bit_and,
}
use coreland_lua_ada_load.Cpu.Tables.{CpuVendor, amd, intel, Feature, features, vendors}
use coreland_lua_ada_load.Cpu.Caches.{Registers}
use coreland_lua_ada_load.Cpu.Vendors.{
  CpuInfo, no_info, select_vendor, flag_if, cpu_vendor_intel, cpu_vendor_amd,
}

-- What a run prints on stdout, and its exit status.
pub record CpuRun : Type 0 where
  pub output : Bytes
  pub status : ℕ

abbrev pub exits : Bytes → ℕ → CpuRun
exits output status = record { output = output; status = status }

-- What is printed for a name, if it is a feature's.
unfoldable pub cpu_check_features : ℕ → Bytes → List Feature → Option Bytes
unfolding bytes_eq
cpu_check_features flags name [] = none
cpu_check_features flags name (f ∷ rest) =
    if bytes_eq f.name name
    then some (if bit_and flags f.bit == 0 then codes "0\n" else codes "1\n")
    else cpu_check_features flags name rest

-- The size is shifted to bytes; `!!printf (...)` is 1, as printf gives no 0 here.
unfoldable pub cache_answer : CpuInfo → Bytes → CpuRun
unfolding bytes_eq fmt_ulong
cache_answer cpu name =
    if bytes_eq name (codes "l1icachesize")
    then exits (fmt_ulong (cpu.cache_l1_instruction * 1024) ++ codes "\n") 1
    else if bytes_eq name (codes "l1dcachesize")
    then exits (fmt_ulong (cpu.cache_l1_data * 1024) ++ codes "\n") 1
    else if bytes_eq name (codes "l2cachesize")
    then exits (fmt_ulong (cpu.cache_l2 * 1024) ++ codes "\n") 1
    else if bytes_eq name (codes "l3cachesize")
    then exits (fmt_ulong (cpu.cache_l3 * 1024) ++ codes "\n") 1
    else if bytes_eq name (codes "cacheline")
    then exits (fmt_ulong cpu.cacheline ++ codes "\n") 1
    else exits (codes "0\n") 0

unfoldable pub answer : CpuInfo → Bytes → CpuRun
unfolding cpu_check_features cache_answer
answer cpu name = elim (cpu_check_features cpu.flags name features) [
  | some text ↦ exits text 0
  | none ↦ cache_answer cpu name
]

-- The flags of the extended leaf, which all vendors share.
unfoldable pub common_flags : Registers → ℕ → ℕ
common_flags r flags = flag_if r.edx 0x40000000 0x0008 (
    flag_if r.edx 0x80000000 0x0004
      (flag_if r.edx 0x00400000 0x0002 (flag_if r.edx 0x00800000 0x0001 flags)))

module _ {W : Type 0} (cpuid_exec : ℕ → W → Registers × W) where
  abbrev pub vendor_info : CpuVendor → CpuInfo → W → CpuInfo × W
  vendor_info amd cpu w = cpu_vendor_amd cpuid_exec cpu w
  vendor_info intel cpu w = cpu_vendor_intel cpuid_exec cpu w
  vendor_info _ cpu w = (cpu, w)

  -- Common features.
  unfoldable pub common_features : CpuInfo → W → CpuInfo
  unfolding common_flags
  common_features cpu w =
      let (r, w') = cpuid_exec 0x80000000 w in
      if leb 0x80000001 r.eax
      then record cpu { flags = common_flags (cpuid_exec 0x80000001 w').0 cpu.flags }
      else cpu

  -- What the program finds out before it looks at its argument.
  unfoldable pub collect : W → CpuInfo
  unfolding select_vendor cpu_vendor_intel cpu_vendor_amd common_features
  collect w =
      let (basic, w₁) = cpuid_exec 0 w in
      let (extended, w₂) = cpuid_exec 0x80000000 w₁ in
      let (alternative, w₃) = cpuid_exec 0xC0000000 w₂ in
      let (id, w₄) = cpuid_exec 0 w₃ in
      let cpu : CpuInfo = record no_info {
        max_basic_param = basic.eax % 2 ^ 16;
        max_extended_param = extended.eax;
        max_alt_extended_param = alternative.eax;
        vendor = select_vendor id.ebx vendors no_info.vendor;
      } in
      let (cpu', w₅) = vendor_info cpu.vendor cpu w₄ in common_features cpu' w₅

  -- main, on the arguments behind the program's name and what cpuid_check_support finds.
  unfoldable pub main : Bool → List Bytes → W → CpuRun
  unfolding collect answer
  main supported [] w = exits [] 1
  main supported (name ∷ names) w =
      if supported then answer (collect w) name else exits (codes "0\n") 0
