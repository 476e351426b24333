-- ===== src/Cpu/Told.antt =====
-- SYSDEPS/sd-cpuidx86.c: which feature is told from which bits of the registers.
use coreland_lua_ada_load.Base.{
  ℕ, ◌<◌, Bytes, Bool, true, false, Option, none, some, List, [], ◌∷◌, ◌==◌, ltb, ◌&&◌, ◌||◌, not,
  if◌then◌else◌, ◌≡◌, refl, ◌∙◌, ap, arith, codes, bytes_eq, bit_and, bit_or, all_below,
  all_below-elim, bool_eq, bool_eq-eq,
}
use coreland_lua_ada_load.Cpu.Tables.{features}
use coreland_lua_ada_load.Cpu.Caches.{Registers}
use coreland_lua_ada_load.Cpu.Vendors.{flag_if, intel_flags}
use coreland_lua_ada_load.Cpu.Program.{cpu_check_features, common_flags}

abbrev pub has_bit : ℕ → ℕ → Bool
has_bit reg mask = not (bit_and reg mask == 0)

-- A row of what is told: the feature, and whether the processor has it.
abbrev Row : Type 0
Row = Bytes × Bool

-- What the processor has by leaf 1 and by the extended leaf.
abbrev pub told : Registers → Registers → List (Bytes × Bool)
told r e =
    (codes "mmx", has_bit r.edx 0x00800000 || has_bit e.edx 0x00800000)
    ∷ (codes "mmx2", has_bit r.edx 0x02000000 || has_bit e.edx 0x00400000)
    ∷ (codes "3dnow", has_bit e.edx 0x80000000)
    ∷ (codes "3dnowext", has_bit e.edx 0x40000000)
    ∷ (codes "sse", has_bit r.edx 0x02000000)
    ∷ (codes "sse2", has_bit r.edx 0x04000000)
    ∷ (codes "sse3", has_bit r.ecx 0x00000001)
    ∷ (codes "sse4.1", has_bit r.ecx 0x00080000)
    ∷ (codes "sse4.2", has_bit r.ecx 0x00100000)
    ∷ []

-- The answer to a name.
abbrev pub told_of : Bytes → List (Bytes × Bool) → Option Bytes
told_of name [] = none
told_of name ((known, present) ∷ rows) =
    if bytes_eq known name
    then some (if present then codes "1\n" else codes "0\n")
    else told_of name rows

-- `if (reg & mask) cpu.flags |= bit;`
record Assignment : Type 0 where
  reg : ℕ
  mask : ℕ
  bit : ℕ

abbrev when : ℕ → ℕ → ℕ → Assignment
when reg mask bit = record { reg = reg; mask = mask; bit = bit }

abbrev assign : List Assignment → ℕ → ℕ
assign [] n = n
assign (a ∷ later) n = assign later (flag_if a.reg a.mask a.bit n)

abbrev assigned : ℕ → List Assignment → Bool
assigned q [] = false
assigned q (a ∷ later) = (has_bit a.reg a.mask && a.bit == q) || assigned q later

abbrev keeps_apart : ℕ → ℕ → ℕ → Bool
keeps_apart q bit n =
    ltb (bit_or n bit) 512 && bool_eq (has_bit (bit_or n bit) q) (has_bit n q || bit == q)

abbrev all_apart : ℕ → List Assignment → Bool
all_apart q [] = true
all_apart q (a ∷ later) = all_below 512 (keeps_apart q a.bit) && all_apart q later

-- One assignment on a number below 512 sets its bit or none.
flag_if-has_bit :
    (q reg mask bit n : ℕ)
    → n < 512
    → all_below 512 (keeps_apart q bit) ≡ true
    → (flag_if reg mask bit n < 512)
      × (has_bit (flag_if reg mask bit n) q ≡ has_bit n q || (has_bit reg mask && bit == q))
unfolding flag_if
flag_if-has_bit q reg mask bit n h all =
    let good = all_below-elim 512 (keeps_apart q bit) all n h in
    let same = bool_eq-eq (has_bit (bit_or n bit) q) (has_bit n q || bit == q) (ground arith) in
    ground arith

or_assoc : (a b c : Bool) → (a || b) || c ≡ a || (b || c)
or_assoc true b c = refl
or_assoc false b c = refl

assign-assigned :
    (q : ℕ) (steps : List Assignment) (n : ℕ)
    → n < 512
    → all_apart q steps ≡ true
    → has_bit (assign steps n) q ≡ has_bit n q || assigned q steps
assign-assigned q [] n h a = ground arith
assign-assigned q (s ∷ later) n h a =
    let (small, bits) = flag_if-has_bit q s.reg s.mask s.bit n h (ground arith) in
    assign-assigned q later (flag_if s.reg s.mask s.bit n) small (ground arith)
    ∙ ap (λ b. b || assigned q later) bits
    ∙ or_assoc (has_bit n q) (has_bit s.reg s.mask && s.bit == q) (assigned q later)

module _ (r e : Registers) where
  abbrev steps : List Assignment
  steps =
      when r.edx 0x00800000 0x0001
      ∷ when r.edx 0x02000000 0x0002
      ∷ when r.edx 0x02000000 0x0010
      ∷ when r.edx 0x04000000 0x0020
      ∷ when r.ecx 0x00000001 0x0040
      ∷ when r.ecx 0x00080000 0x0080
      ∷ when r.ecx 0x00100000 0x0100
      ∷ when e.edx 0x00800000 0x0001
      ∷ when e.edx 0x00400000 0x0002
      ∷ when e.edx 0x80000000 0x0004
      ∷ when e.edx 0x40000000 0x0008
      ∷ []

  abbrev intel_common : ℕ
  intel_common = common_flags e (intel_flags r 0)

  intel_common-assign : intel_common ≡ assign steps 0
  unfolding common_flags intel_flags
  intel_common-assign = refl

  bit_told :
      (q : ℕ)
      → all_apart q steps ≡ true
      → has_bit 0 q ≡ false
      → has_bit intel_common q ≡ assigned q steps
  bit_told q a unset =
      ap (λ n. has_bit n q) intel_common-assign
      ∙ assign-assigned q steps 0 (omega arith) a
      ∙ ap (λ b. b || assigned q steps) unset

  mmx_told : has_bit intel_common 0x0001 ≡ has_bit r.edx 0x00800000 || has_bit e.edx 0x00800000
  mmx_told = bit_told 0x0001 (unfold all_below in refl) refl ∙ ground arith

  mmx2_told : has_bit intel_common 0x0002 ≡ has_bit r.edx 0x02000000 || has_bit e.edx 0x00400000
  mmx2_told = bit_told 0x0002 (unfold all_below in refl) refl ∙ ground arith

  amd3dnow_told : has_bit intel_common 0x0004 ≡ has_bit e.edx 0x80000000
  amd3dnow_told = bit_told 0x0004 (unfold all_below in refl) refl ∙ ground arith

  amd3dnowext_told : has_bit intel_common 0x0008 ≡ has_bit e.edx 0x40000000
  amd3dnowext_told = bit_told 0x0008 (unfold all_below in refl) refl ∙ ground arith

  sse_told : has_bit intel_common 0x0010 ≡ has_bit r.edx 0x02000000
  sse_told = bit_told 0x0010 (unfold all_below in refl) refl ∙ ground arith

  sse2_told : has_bit intel_common 0x0020 ≡ has_bit r.edx 0x04000000
  sse2_told = bit_told 0x0020 (unfold all_below in refl) refl ∙ ground arith

  sse3_told : has_bit intel_common 0x0040 ≡ has_bit r.ecx 0x00000001
  sse3_told = bit_told 0x0040 (unfold all_below in refl) refl ∙ ground arith

  sse4_1_told : has_bit intel_common 0x0080 ≡ has_bit r.ecx 0x00080000
  sse4_1_told = bit_told 0x0080 (unfold all_below in refl) refl ∙ ground arith

  sse4_2_told : has_bit intel_common 0x0100 ≡ has_bit r.ecx 0x00100000
  sse4_2_told = bit_told 0x0100 (unfold all_below in refl) refl ∙ ground arith

  by_bit :
      (flags bit : ℕ) {present : Bool}
      → has_bit flags bit ≡ present
      → (if bit_and flags bit == 0 then codes "0\n" else codes "1\n")
        ≡ (if present then codes "1\n" else codes "0\n")
  by_bit flags bit h = ground arith

  -- Behind leaf 1 and the extended leaf of an Intel processor, the answer to each name is what
  -- the bits of the two leaves tell, and only the nine names have one.
  pub cpu_check_features-told :
      (name : Bytes)
      → cpu_check_features (common_flags e (intel_flags r 0)) name features
        ≡ told_of name (told r e)
  unfolding cpu_check_features
  cpu_check_features-told name =
      rw
        (
          by_bit intel_common 0x0001 mmx_told,
          by_bit intel_common 0x0002 mmx2_told,
          by_bit intel_common 0x0004 amd3dnow_told,
          by_bit intel_common 0x0008 amd3dnowext_told,
          by_bit intel_common 0x0010 sse_told,
          by_bit intel_common 0x0020 sse2_told,
          by_bit intel_common 0x0040 sse3_told,
          by_bit intel_common 0x0080 sse4_1_told,
          by_bit intel_common 0x0100 sse4_2_told,
        )
        refl
