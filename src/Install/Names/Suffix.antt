-- ===== src/Install/Names/Suffix.antt =====
-- str_ends and install_suffix_sanitize.
use coreland_lua_ada_load.Base.{
  ℕ, ◌-◌, Bytes, true, [], ◌∷◌, ◌++◌, ◌≡◌, refl, sym, ◌∙◌, ◌↔◌, ap, ltb, if◌then◌else◌, length,
  take, arith, bytes_eq_iff, length-append, drop-append, take-append-drop, c_string,
}
use coreland_lua_ada_load.Install.Names.{str_ends, is_suffix_byte, install_suffix_sanitize}

-- How far into the first string the comparison starts.
abbrev cut : Bytes → Bytes → ℕ
cut s end = length s - (if ltb (length s) (length end) then length s else length end)

cut-append : (p end : Bytes) → cut (p ++ end) end ≡ length p
cut-append p end = ground (arith, length-append p end)

str_ends-append : (p end : Bytes) → str_ends (p ++ end) end ≡ true
unfolding str_ends
str_ends-append p end = rw (cut-append p end, drop-append p end) ((bytes_eq_iff end end).1 refl)

-- str_ends holds exactly when the first string is some string followed by the second.
pub str_ends_iff : (s end : Bytes) → (str_ends s end ≡ true) ↔ ((p : Bytes) × (s ≡ p ++ end))
str_ends_iff s end = (
  (λ h. (
    take (cut s end) s,
    unfold str_ends in
        sym (take-append-drop (cut s end) s)
        ∙ ap (◌++◌ (take (cut s end) s)) ((bytes_eq_iff _ end).0 h),
  )),
  (λ (p, e). rw e (str_ends-append p end)),
)

-- The bytes in front of the first one that a suffix may not hold.
abbrev pub suffix_prefix : Bytes → Bytes
suffix_prefix [] = []
suffix_prefix (c ∷ cs) = if is_suffix_byte c then c ∷ suffix_prefix cs else []

abbrev pub AllSuffixBytes : Bytes → Type 0
AllSuffixBytes [] = Unit
AllSuffixBytes (c ∷ cs) = (is_suffix_byte c ≡ true) × AllSuffixBytes cs

-- The sanitised suffix, read up to its NUL, is the longest prefix of bytes that a suffix may
-- hold.
pub c_string-sanitize : (b : Bytes) → c_string (install_suffix_sanitize b) ≡ suffix_prefix b
unfolding c_string install_suffix_sanitize
c_string-sanitize [] = refl
c_string-sanitize (c ∷ cs) = ground (arith, c_string-sanitize cs)

suffix_prefix-all : (b : Bytes) → AllSuffixBytes (suffix_prefix b)
suffix_prefix-all [] = tt
suffix_prefix-all (c ∷ cs) = ground (arith, suffix_prefix-all cs)
