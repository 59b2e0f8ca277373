-- ===== src/DataConvert/Atoi/RoundTrip.antt =====
-- Printing a number and reading the text back.
use native.Mathlib.Numerals.{add-one}
use zrsocket.Base.{
  ℕ, zero, suc, ◌+◌, ◌-◌, ◌^◌, ◌≤◌, ◌<◌, ◌≡◌, refl, sym, subst, ap, ◌∙◌, inl, Option, ℤ, pos,
  negsuc, some, List, [], ◌∷◌, ◌++◌, All, ltb, if_intro, tests, lt→ltb, Memory, slice, slice-add,
  arith,
}
use zrsocket.DataConvert.Digits.{digits10_u32, digits10_u64}
use zrsocket.DataConvert.Itoa.{uitoa, ulltoa, itoa, lltoa, next_cell, behind}
use zrsocket.DataConvert.Itoa.Text.{
  IsDigit, spelled, Prints, HasWidth-pos, uitoa_lem, ulltoa_lem, uitoa_short, ulltoa_short,
}
use zrsocket.DataConvert.Atoi.{atoi, atoll, atoui, atoull}
use zrsocket.DataConvert.Atoi.Numerals.{Sign, unsigned, minus, numeral}
use zrsocket.DataConvert.Atoi.Results.{
  signed, InRange, pattern_of, atoi_lem, atoll_lem, atoui_lem, atoull_lem,
}

-- The text that a conversion leaves, split at its first digit.
record Leads (value : ℕ) (text : List ℕ) : Type 0 where
  d : ℕ
  ds : List ℕ
  same : text ≡ d ∷ ds
  numeral_d : IsDigit d
  numeral_ds : All IsDigit ds
  spells : spelled 0 (d ∷ ds) ≡ value

Prints-Leads :
    {value : ℕ} {str : Memory} (n : ℕ) (m : Memory)
    → Prints value str (n, m)
    → Leads value (slice m 0 n)
Prints-Leads zero m p = absurd (omega (arith, HasWidth-pos _ 0 p.shortest))
Prints-Leads (suc n) m p = record {
  d = m 0;
  ds = slice m 1 n;
  same = refl;
  numeral_d = p.numerals.0;
  numeral_ds = p.numerals.1;
  spells = p.spells;
}

-- The text with its NUL.
slice_nul : (m : Memory) (i n : ℕ) → m (i + n) ≡ 0 → slice m i (n + 1) ≡ slice m i n ++ 0 ∷ []
slice_nul m i n e = slice-add m i n 1 ∙ ap (λ c. slice m i n ++ c ∷ []) e

nul_at :
    {value : ℕ} {str : Memory} (r : ℕ × Memory)
    → Prints value str r
    → slice r.1 0 (r.0 + 1) ≡ slice r.1 0 r.0 ++ 0 ∷ []
nul_at (n, m) p = slice_nul m 0 n (ap m {x = 0 + n} {y = n} (omega arith) ∙ p.terminated)

-- A reader of unsigned numerals reads a printed text back.
read_unsigned :
    (w : ℕ) (read : List ℕ → Option (ℕ × List ℕ))
    → ((d : ℕ) (ds : List ℕ)
        → IsDigit d
        → All IsDigit ds
        → spelled 0 (d ∷ ds) < 2 ^ w
        → read (d ∷ ds ++ 0 ∷ []) ≡ some (spelled 0 (d ∷ ds), 0 ∷ []))
    → {value : ℕ} {str : Memory} {r : ℕ × Memory} → Prints value str r
    → value < 2 ^ w
    → read (slice r.1 0 (r.0 + 1)) ≡ some (value, 0 ∷ [])
read_unsigned w read reads {r = r} p b =
    let t = Prints-Leads r.0 r.1 p in
    ap read (nul_at r p ∙ ap (λ x. x ++ 0 ∷ []) t.same)
    ∙ reads t.d t.ds t.numeral_d t.numeral_ds (subst (λ n. n < 2 ^ w) (sym t.spells) b)
    ∙ ap (λ n. some (n, 0 ∷ [])) t.spells

-- Every uint32_t whose text fits in the buffer is read back from it, and the read stops at the NUL.
pub uitoa-atoui :
    (value str_len : ℕ) (str : Memory)
    → value < 2 ^ 32
    → digits10_u32 value ≤ str_len
    → let r = uitoa value str str_len in atoui (slice r.1 0 (r.0 + 1)) ≡ some (value, 0 ∷ [])
uitoa-atoui value str_len str b fits =
    read_unsigned 32 atoui
      (λ d ds hd hs. atoui_lem 0 unsigned d ds 0 [] refl hd hs (inl (omega arith)))
      (uitoa_lem value str_len str b fits).1 b

-- Every uint64_t whose text fits in the buffer is read back from it, and the read stops at the NUL.
pub ulltoa-atoull :
    (value str_len : ℕ) (str : Memory)
    → value < 2 ^ 64
    → digits10_u64 value ≤ str_len
    → let r = ulltoa value str str_len in atoull (slice r.1 0 (r.0 + 1)) ≡ some (value, 0 ∷ [])
ulltoa-atoull value str_len str b fits =
    read_unsigned 64 atoull
      (λ d ds hd hs. atoull_lem 0 unsigned d ds 0 [] refl hd hs (inl (omega arith)))
      (ulltoa_lem value str_len str b fits).1 b

-- The integers of a signed type of m + 1 bits, and a buffer that has room for the text of one.
abbrev pub FitsIn : ℕ → ℤ → Type 0
FitsIn m (pos n) = n < 2 ^ m
FitsIn m (negsuc n) = n + 1 ≤ 2 ^ m

abbrev pub HasRoom : (ℕ → ℕ) → ℤ → ℕ → Type 0
HasRoom width (pos n) len = width n ≤ len
HasRoom width (negsuc n) len = width (n + 1) + 1 ≤ len

slice-behind : (c : ℕ) (m : Memory) (i n : ℕ) → slice (behind c m) (suc i) n ≡ slice m i n
slice-behind c m i zero = refl
slice-behind c m i (suc n) = ap (λ t. m i ∷ t) (slice-behind c m (suc i) n)

-- A minus sign in front of a printed text.
slice_minus :
    {value : ℕ} {str : Memory} (r : ℕ × Memory)
    → Prints value str r
    → slice (behind 45 r.1) 0 (r.0 + 1 + 1) ≡ 45 ∷ slice r.1 0 r.0 ++ 0 ∷ []
slice_minus (n, m) p =
    ap (λ k. slice (behind 45 m) 0 k) {x = n + 1 + 1} {y = suc (n + 1)} (omega arith)
    ∙ ap (λ t. 45 ∷ t) (slice-behind 45 m 0 (n + 1) ∙ nul_at (n, m) p)

-- The result of a signed conversion: the text of a magnitude, behind a minus sign if need be.
data PrintsSigned (str : Memory) : ℤ → ℕ × Memory → Type 0 where
  nonnegative : (n : ℕ) (r : ℕ × Memory) → Prints n str r → PrintsSigned str (pos n) r
  negative :
      (n : ℕ) (r : ℕ × Memory)
      → Prints (n + 1) (next_cell str) r
      → PrintsSigned str (negsuc n) (r.0 + 1, behind 45 r.1)

itoa-PrintsSigned :
    (value : ℤ) (str_len : ℕ) (str : Memory)
    → FitsIn 31 value
    → HasRoom digits10_u32 value str_len
    → PrintsSigned str value (itoa value str str_len)
unfolding itoa
itoa-PrintsSigned (pos n) str_len str b fits =
    nonnegative n _ (uitoa_lem n str_len str (omega arith) fits).1
itoa-PrintsSigned (negsuc n) str_len str b fits =
    if_intro (PrintsSigned str (negsuc n)) (ltb 0 str_len)
      (λ _.
        negative n _
          (uitoa_lem (n + 1) (str_len - 1) (next_cell str) (omega arith) (omega arith)).1)
      (λ short. absurd (omega tests))

lltoa-PrintsSigned :
    (value : ℤ) (str_len : ℕ) (str : Memory)
    → FitsIn 63 value
    → HasRoom digits10_u64 value str_len
    → PrintsSigned str value (lltoa value str str_len)
unfolding lltoa
lltoa-PrintsSigned (pos n) str_len str b fits =
    nonnegative n _ (ulltoa_lem n str_len str (omega arith) fits).1
lltoa-PrintsSigned (negsuc n) str_len str b fits =
    if_intro (PrintsSigned str (negsuc n)) (ltb 0 str_len)
      (λ _.
        negative n _
          (ulltoa_lem (n + 1) (str_len - 1) (next_cell str) (omega arith) (omega arith)).1)
      (λ short. absurd (omega tests))

-- A reader of numerals reads such a text back.
module _ (w m : ℕ) (read : List ℕ → Option (ℕ × List ℕ))
    (reads : (sg : Sign) (d : ℕ) (ds : List ℕ)
      → IsDigit d
      → All IsDigit ds
      → InRange m sg (spelled 0 (d ∷ ds))
      → read (numeral 0 sg (d ∷ ds) ++ 0 ∷ [])
        ≡ some (pattern_of w (signed sg (spelled 0 (d ∷ ds))), 0 ∷ [])) where
  read_back :
      {str : Memory} {value : ℤ} {r : ℕ × Memory}
      → PrintsSigned str value r
      → FitsIn m value
      → read (slice r.1 0 (r.0 + 1)) ≡ some (pattern_of w value, 0 ∷ [])
  read_back (nonnegative n r p) b =
      let t = Prints-Leads r.0 r.1 p in
      ap read (nul_at r p ∙ ap (λ x. x ++ 0 ∷ []) t.same)
      ∙ reads unsigned t.d t.ds t.numeral_d t.numeral_ds (subst (λ k. k < 2 ^ m) (sym t.spells) b)
      ∙ ap (λ k. some (k, 0 ∷ [])) t.spells
  read_back (negative n r p) b =
      let t = Prints-Leads r.0 r.1 p in
      ap read (slice_minus r p ∙ ap (λ x. 45 ∷ x ++ 0 ∷ []) t.same)
      ∙ reads minus t.d t.ds t.numeral_d t.numeral_ds (subst (λ k. k ≤ 2 ^ m) (sym t.spells) b)
      ∙ ap (λ k. some (pattern_of w (signed minus k), 0 ∷ [])) (t.spells ∙ add-one n)

-- Every int32_t, the least one included, is read back from its text, if the buffer had room for
-- it, and the read stops at the NUL.
pub itoa-atoi :
    (value : ℤ) (str_len : ℕ) (str : Memory)
    → FitsIn 31 value
    → HasRoom digits10_u32 value str_len
    → let r = itoa value str str_len in
      atoi (slice r.1 0 (r.0 + 1)) ≡ some (pattern_of 32 value, 0 ∷ [])
itoa-atoi value str_len str b fits =
    read_back 32 31 atoi (λ sg d ds hd hs. atoi_lem 0 sg d ds 0 [] hd hs (inl (omega arith)))
      (itoa-PrintsSigned value str_len str b fits) b

-- Every int64_t, the least one included, is read back from its text, if the buffer had room for
-- it, and the read stops at the NUL.
pub lltoa-atoll :
    (value : ℤ) (str_len : ℕ) (str : Memory)
    → FitsIn 63 value
    → HasRoom digits10_u64 value str_len
    → let r = lltoa value str str_len in
      atoll (slice r.1 0 (r.0 + 1)) ≡ some (pattern_of 64 value, 0 ∷ [])
lltoa-atoll value str_len str b fits =
    read_back 64 63 atoll (λ sg d ds hd hs. atoll_lem 0 sg d ds 0 [] hd hs (inl (omega arith)))
      (lltoa-PrintsSigned value str_len str b fits) b

-- A negative int32_t whose sign fits in the buffer and whose digits do not: `itoa` reports 1, not
-- 0, and leaves the sign with no digit behind it.
pub itoa_no_room :
    (n str_len : ℕ) (str : Memory)
    → 0 < str_len
    → str_len ≤ digits10_u32 (n + 1)
    → itoa (negsuc n) str str_len ≡ (1, behind 45 (next_cell str))
unfolding itoa
itoa_no_room n str_len str p h =
    rw (lt→ltb 0 str_len p, uitoa_short (n + 1) (str_len - 1) (next_cell str) (omega arith))

-- A negative int64_t whose sign fits in the buffer and whose digits do not: `lltoa` reports 1, not
-- 0, and leaves the sign with no digit behind it.
pub lltoa_no_room :
    (n str_len : ℕ) (str : Memory)
    → 0 < str_len
    → str_len ≤ digits10_u64 (n + 1)
    → lltoa (negsuc n) str str_len ≡ (1, behind 45 (next_cell str))
unfolding lltoa
lltoa_no_room n str_len str p h =
    rw (lt→ltb 0 str_len p, ulltoa_short (n + 1) (str_len - 1) (next_cell str) (omega arith))
