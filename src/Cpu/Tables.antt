-- ===== src/Cpu/Tables.antt =====
-- SYSDEPS/sd-cpuidx86.c: the tables of cache descriptors, vendors and features.
use coreland_lua_ada_load.Base.{ℕ, Bytes, List, [], ◌∷◌, String, codes}

pub record CacheDescription : Type 0 where
  pub val : ℕ
  pub size : ℕ
  pub line : ℕ

abbrev pub cache : ℕ → ℕ → ℕ → CacheDescription
cache val size line = record { val = val; size = size; line = line }

abbrev pub intel_l1i_caches : List CacheDescription
intel_l1i_caches =
    cache 0x06 8 32
    ∷ cache 0x08 16 32
    ∷ cache 0x09 32 64
    ∷ cache 0x15 16 32
    ∷ cache 0x30 32 64
    ∷ cache 0x77 16 64
    ∷ cache 0 0 0
    ∷ []

abbrev pub intel_l1d_caches : List CacheDescription
intel_l1d_caches =
    cache 0x0a 8 32
    ∷ cache 0x0c 16 32
    ∷ cache 0x0d 16 64
    ∷ cache 0x10 16 32
    ∷ cache 0x2c 32 64
    ∷ cache 0x60 16 64
    ∷ cache 0x66 8 64
    ∷ cache 0x67 16 64
    ∷ cache 0x68 32 64
    ∷ cache 0 0 0
    ∷ []

abbrev pub intel_l2_caches : List CacheDescription
intel_l2_caches =
    cache 0x21 256 64
    ∷ cache 0x39 128 64
    ∷ cache 0x3a 192 64
    ∷ cache 0x3b 128 64
    ∷ cache 0x3c 256 64
    ∷ cache 0x3d 384 64
    ∷ cache 0x3e 512 64
    ∷ cache 0x41 128 32
    ∷ cache 0x42 256 32
    ∷ cache 0x43 512 32
    ∷ cache 0x44 1024 32
    ∷ cache 0x45 2048 32
    ∷ cache 0x48 3072 64
    ∷ cache 0x49 4096 64
    ∷ cache 0x4e 6144 64
    ∷ cache 0x78 1024 64
    ∷ cache 0x79 128 64
    ∷ cache 0x7a 256 64
    ∷ cache 0x7b 512 64
    ∷ cache 0x7c 1024 64
    ∷ cache 0x7d 2048 64
    ∷ cache 0x7f 512 64
    ∷ cache 0x82 256 32
    ∷ cache 0x83 512 32
    ∷ cache 0x84 1024 32
    ∷ cache 0x85 2048 32
    ∷ cache 0x86 512 64
    ∷ cache 0x87 1024 64
    ∷ cache 0 0 0
    ∷ []

abbrev pub intel_l3_caches : List CacheDescription
intel_l3_caches =
    cache 0x22 512 64
    ∷ cache 0x23 1024 64
    ∷ cache 0x25 2048 64
    ∷ cache 0x29 4096 64
    ∷ cache 0xd0 524288 64
    ∷ cache 0xd1 1048576 64
    ∷ cache 0xd2 2097152 64
    ∷ cache 0xd6 1048576 64
    ∷ cache 0xd7 2097152 64
    ∷ cache 0xd8 8388608 64
    ∷ cache 0xdc 1572864 64
    ∷ cache 0xdd 3145728 64
    ∷ cache 0xde 6291456 64
    ∷ cache 0xe2 2097152 64
    ∷ cache 0xe3 4194304 64
    ∷ cache 0xe4 8388608 64
    ∷ cache 0xea 12582912 64
    ∷ cache 0xeb 18874368 64
    ∷ cache 0xec 25165824 64
    ∷ cache 0 0 0
    ∷ []

-- CPU_VENDOR_*
pub data CpuVendor : Type 0 where
  unknown amd centaur cyrix intel natsemi rise transmeta sis : CpuVendor

pub record VendorDescription : Type 0 where
  pub id : ℕ
  pub vendor : CpuVendor

abbrev vendor_row : ℕ → CpuVendor → VendorDescription
vendor_row id vendor = record { id = id; vendor = vendor }

abbrev pub vendors : List VendorDescription
vendors =
    vendor_row 0x756e6547 intel
    ∷ vendor_row 0x68747541 amd
    ∷ vendor_row 0x69727943 cyrix
    ∷ vendor_row 0x746e6543 centaur
    ∷ vendor_row 0x646f6547 natsemi
    ∷ vendor_row 0x52697365 rise
    ∷ vendor_row 0x65736952 rise
    ∷ vendor_row 0x20536953 sis
    ∷ []

pub record Feature : Type 0 where
  pub name : Bytes
  pub bit : ℕ

abbrev feature : String → ℕ → Feature
feature name bit = record { name = codes name; bit = bit }

-- The bits are SD_SYSINFO_CPU_EXT_*.
abbrev pub features : List Feature
features =
    feature "mmx" 0x0001
    ∷ feature "mmx2" 0x0002
    ∷ feature "3dnow" 0x0004
    ∷ feature "3dnowext" 0x0008
    ∷ feature "sse" 0x0010
    ∷ feature "sse2" 0x0020
    ∷ feature "sse3" 0x0040
    ∷ feature "sse4.1" 0x0080
    ∷ feature "sse4.2" 0x0100
    ∷ []
