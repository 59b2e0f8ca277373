-- ===== src/DataConvert/Atoi/Results.antt =====
-- What the conversions of src/data_convert.cpp return for a numeral.
use native.Mathlib.Nat.{mod-eq_of_lt, mod_self}
use zrsocket.Base.{
  ℤ, pos, negsuc, ℕ, zero, suc, ◌+◌, ◌-◌, ◌*◌, ◌%◌, ◌^◌, ◌≤◌, ◌<◌, ◌≡◌, refl, ap, ◌∙◌, true, false,
  Option, some, List, ◌∷◌, ◌++◌, All, length, arith,
}
use zrsocket.DataConvert.Itoa.Text.{IsDigit, spelled}
use zrsocket.DataConvert.Atoi.{
  Scan, fresh, char_convert_integer, char_convert_unsigned_integer, scan_text, scan_len, scan_for,
  exit_signed, exit_unsigned, signed_result, atoi, atoll, atoui, atoull, atoi_len, atoui_len,
  atoll_len, atoull_len,
}
use zrsocket.DataConvert.Atoi.Numerals.{
  Sign, Stops, integer-IsNumeric, integer-Reads, is_minus, numeral, scan_len-numeral,
  scan_text-numeral, unsigned-IsNumeric, unsigned-Reads, unsigned, plus, minus,
}

numeral_pos : (k : ℕ) (sg : Sign) (d : ℕ) (ds : List ℕ) → 0 < length (numeral k sg (d ∷ ds))
numeral_pos zero unsigned d ds = omega arith
numeral_pos zero plus d ds = omega arith
numeral_pos zero minus d ds = omega arith
numeral_pos (suc k) sg d ds = omega arith

scan_for_len :
    (convert : ℕ → Scan → Option Scan) (str : List ℕ) (len : ℕ)
    → 0 < len
    → scan_for convert str len ≡ scan_len convert len str fresh
unfolding scan_for
scan_for_len convert str len h = ground arith

-- The integer that a signed number stands for, and its w-bit pattern.
abbrev pub signed : Sign → ℕ → ℤ
signed minus zero = pos 0
signed minus (suc n) = negsuc n
signed unsigned n = pos n
signed plus n = pos n

abbrev pub pattern_of : ℕ → ℤ → ℕ
pattern_of w (pos n) = n
pattern_of w (negsuc n) = 2 ^ w - (n + 1)

-- A magnitude in the range of a signed type of m + 1 bits.
abbrev pub InRange : ℕ → Sign → ℕ → Type 0
InRange m minus n = n ≤ 2 ^ m
InRange m _ n = n < 2 ^ m

signed_result_lem :
    (w m n : ℕ) (sg : Sign)
    → 2 ^ w ≡ 2 * 2 ^ m
    → 0 < 2 ^ m
    → InRange m sg n
    → signed_result w (record { ret = n; negative_flag = is_minus sg; first_num_flag = true })
      ≡ pattern_of w (signed sg n)
unfolding signed_result
signed_result_lem w m n unsigned e p h = refl
signed_result_lem w m n plus e p h = refl
signed_result_lem w m zero minus e p h =
    ap (λ k. k % 2 ^ w) {x = 2 ^ w - 0} {y = 2 ^ w} (omega arith) ∙ mod_self (2 ^ w)
signed_result_lem w m (suc n) minus e p h =
    mod-eq_of_lt {n = 2 ^ w - suc n} {m = 2 ^ w} (omega arith) ∙ ap (λ k. 2 ^ w - k) (omega arith)

in_word : (w m n : ℕ) (sg : Sign) → 2 ^ w ≡ 2 * 2 ^ m → 0 < 2 ^ m → InRange m sg n → n < 2 ^ w
in_word w m n unsigned e p h = omega arith
in_word w m n plus e p h = omega arith
in_word w m n minus e p h = omega arith

module _ (k : ℕ) (sg : Sign) (d : ℕ) (ds : List ℕ) (hd : IsDigit d) (hs : All IsDigit ds) where
  signed_text :
      (w m c : ℕ) (rest : List ℕ)
      → 2 ^ w ≡ 2 * 2 ^ m
      → 0 < 2 ^ m
      → Stops c
      → InRange m sg (spelled 0 (d ∷ ds))
      → exit_signed w (scan_text (char_convert_integer w) (numeral k sg (d ∷ ds) ++ c ∷ rest) fresh)
        ≡ some (pattern_of w (signed sg (spelled 0 (d ∷ ds))), c ∷ rest)
  unfolding exit_signed
  signed_text w m c rest e p stop r =
      ap (exit_signed w) (
        scan_text-numeral w (char_convert_integer w) (integer-IsNumeric w) k sg d ds c rest
          (integer-Reads w sg) hd hs stop (in_word w m (spelled 0 (d ∷ ds)) sg e p r))
      ∙ ap (λ x. some (x, c ∷ rest)) (signed_result_lem w m (spelled 0 (d ∷ ds)) sg e p r)

  signed_len :
      (w m : ℕ) (rest : List ℕ)
      → 2 ^ w ≡ 2 * 2 ^ m
      → 0 < 2 ^ m
      → InRange m sg (spelled 0 (d ∷ ds))
      → exit_signed w (
          scan_for
            (char_convert_integer w)
            (numeral k sg (d ∷ ds) ++ rest)
            (length (numeral k sg (d ∷ ds))))
        ≡ some (pattern_of w (signed sg (spelled 0 (d ∷ ds))), rest)
  unfolding exit_signed
  signed_len w m rest e p r =
      ap (exit_signed w) (
        scan_for_len (char_convert_integer w) _ (length (numeral k sg (d ∷ ds)))
          (numeral_pos k sg d ds)
        ∙ scan_len-numeral w (char_convert_integer w) (integer-IsNumeric w) k sg d ds rest
            (integer-Reads w sg) hd hs (in_word w m (spelled 0 (d ∷ ds)) sg e p r))
      ∙ ap (λ x. some (x, rest)) (signed_result_lem w m (spelled 0 (d ∷ ds)) sg e p r)

  unsigned_text :
      (w c : ℕ) (rest : List ℕ)
      → is_minus sg ≡ false
      → Stops c
      → spelled 0 (d ∷ ds) < 2 ^ w
      → exit_unsigned
          (scan_text (char_convert_unsigned_integer w) (numeral k sg (d ∷ ds) ++ c ∷ rest) fresh)
        ≡ some (spelled 0 (d ∷ ds), c ∷ rest)
  unfolding exit_unsigned
  unsigned_text w c rest m stop b = ap exit_unsigned (
      scan_text-numeral w (char_convert_unsigned_integer w) (unsigned-IsNumeric w) k sg d ds c rest
        (unsigned-Reads w sg m) hd hs stop b)

  unsigned_len :
      (w : ℕ) (rest : List ℕ)
      → is_minus sg ≡ false
      → spelled 0 (d ∷ ds) < 2 ^ w
      → exit_unsigned (
          scan_for
            (char_convert_unsigned_integer w)
            (numeral k sg (d ∷ ds) ++ rest)
            (length (numeral k sg (d ∷ ds))))
        ≡ some (spelled 0 (d ∷ ds), rest)
  unfolding exit_unsigned
  unsigned_len w rest m b = ap exit_unsigned (
      scan_for_len (char_convert_unsigned_integer w) _ (length (numeral k sg (d ∷ ds)))
        (numeral_pos k sg d ds)
      ∙ scan_len-numeral w (char_convert_unsigned_integer w) (unsigned-IsNumeric w) k sg d ds rest
          (unsigned-Reads w sg m) hd hs b)

-- `atoi` reads blanks, a sign and digits, up to the byte that ends them, as the integer that they
-- spell, if an int32_t holds it; it stops at that byte.
pub atoi_lem :
    (k : ℕ) (sg : Sign) (d : ℕ) (ds : List ℕ) (c : ℕ) (rest : List ℕ)
    → IsDigit d
    → All IsDigit ds
    → Stops c
    → InRange 31 sg (spelled 0 (d ∷ ds))
    → atoi (numeral k sg (d ∷ ds) ++ c ∷ rest)
      ≡ some (pattern_of 32 (signed sg (spelled 0 (d ∷ ds))), c ∷ rest)
unfolding atoi
atoi_lem k sg d ds c rest hd hs stop r =
    signed_text k sg d ds hd hs 32 31 c rest refl (omega arith) stop r

-- Given the length of such a text, `atoi` with a length reads it and no byte behind it, and leaves
-- `*endptr` just behind it.
pub atoi_len_lem :
    (k : ℕ) (sg : Sign) (d : ℕ) (ds rest : List ℕ)
    → IsDigit d
    → All IsDigit ds
    → InRange 31 sg (spelled 0 (d ∷ ds))
    → atoi_len (numeral k sg (d ∷ ds) ++ rest) (length (numeral k sg (d ∷ ds)))
      ≡ some (pattern_of 32 (signed sg (spelled 0 (d ∷ ds))), rest)
unfolding atoi_len
atoi_len_lem k sg d ds rest hd hs r = signed_len k sg d ds hd hs 32 31 rest refl (omega arith) r

-- `atoll` reads blanks, a sign and digits, up to the byte that ends them, as the integer that they
-- spell, if an int64_t holds it; it stops at that byte.
pub atoll_lem :
    (k : ℕ) (sg : Sign) (d : ℕ) (ds : List ℕ) (c : ℕ) (rest : List ℕ)
    → IsDigit d
    → All IsDigit ds
    → Stops c
    → InRange 63 sg (spelled 0 (d ∷ ds))
    → atoll (numeral k sg (d ∷ ds) ++ c ∷ rest)
      ≡ some (pattern_of 64 (signed sg (spelled 0 (d ∷ ds))), c ∷ rest)
unfolding atoll
atoll_lem k sg d ds c rest hd hs stop r =
    signed_text k sg d ds hd hs 64 63 c rest refl (omega arith) stop r

-- Given the length of such a text, `atoll` with a length reads it and no byte behind it, and leaves
-- `*endptr` just behind it.
pub atoll_len_lem :
    (k : ℕ) (sg : Sign) (d : ℕ) (ds rest : List ℕ)
    → IsDigit d
    → All IsDigit ds
    → InRange 63 sg (spelled 0 (d ∷ ds))
    → atoll_len (numeral k sg (d ∷ ds) ++ rest) (length (numeral k sg (d ∷ ds)))
      ≡ some (pattern_of 64 (signed sg (spelled 0 (d ∷ ds))), rest)
unfolding atoll_len
atoll_len_lem k sg d ds rest hd hs r = signed_len k sg d ds hd hs 64 63 rest refl (omega arith) r

-- `atoui` reads blanks, an optional plus sign and digits as the number that they spell, if it is
-- below 2 ^ 32; it stops at the byte behind them.
pub atoui_lem :
    (k : ℕ) (sg : Sign) (d : ℕ) (ds : List ℕ) (c : ℕ) (rest : List ℕ)
    → is_minus sg ≡ false
    → IsDigit d
    → All IsDigit ds
    → Stops c
    → spelled 0 (d ∷ ds) < 2 ^ 32
    → atoui (numeral k sg (d ∷ ds) ++ c ∷ rest) ≡ some (spelled 0 (d ∷ ds), c ∷ rest)
unfolding atoui
atoui_lem k sg d ds c rest m hd hs stop r = unsigned_text k sg d ds hd hs 32 c rest m stop r

-- Given the length of such a text, `atoui` with a length reads it and no byte behind it.
pub atoui_len_lem :
    (k : ℕ) (sg : Sign) (d : ℕ) (ds rest : List ℕ)
    → is_minus sg ≡ false
    → IsDigit d
    → All IsDigit ds
    → spelled 0 (d ∷ ds) < 2 ^ 32
    → atoui_len (numeral k sg (d ∷ ds) ++ rest) (length (numeral k sg (d ∷ ds)))
      ≡ some (spelled 0 (d ∷ ds), rest)
unfolding atoui_len
atoui_len_lem k sg d ds rest m hd hs r = unsigned_len k sg d ds hd hs 32 rest m r

-- `atoull` reads blanks, an optional plus sign and digits as the number that they spell, if it is
-- below 2 ^ 64; it stops at the byte behind them.
pub atoull_lem :
    (k : ℕ) (sg : Sign) (d : ℕ) (ds : List ℕ) (c : ℕ) (rest : List ℕ)
    → is_minus sg ≡ false
    → IsDigit d
    → All IsDigit ds
    → Stops c
    → spelled 0 (d ∷ ds) < 2 ^ 64
    → atoull (numeral k sg (d ∷ ds) ++ c ∷ rest) ≡ some (spelled 0 (d ∷ ds), c ∷ rest)
unfolding atoull
atoull_lem k sg d ds c rest m hd hs stop r = unsigned_text k sg d ds hd hs 64 c rest m stop r

-- Given the length of such a text, `atoull` with a length reads it and no byte behind it.
pub atoull_len_lem :
    (k : ℕ) (sg : Sign) (d : ℕ) (ds rest : List ℕ)
    → is_minus sg ≡ false
    → IsDigit d
    → All IsDigit ds
    → spelled 0 (d ∷ ds) < 2 ^ 64
    → atoull_len (numeral k sg (d ∷ ds) ++ rest) (length (numeral k sg (d ∷ ds)))
      ≡ some (spelled 0 (d ∷ ds), rest)
unfolding atoull_len
atoull_len_lem k sg d ds rest m hd hs r = unsigned_len k sg d ds hd hs 64 rest m r
