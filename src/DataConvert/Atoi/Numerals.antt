-- ===== src/DataConvert/Atoi/Numerals.antt =====
-- What the two scanning loops read of a text: blanks, a sign, digits, and the byte that stops them.
use native.Mathlib.Nat.{mod-eq_of_lt}
use zrsocket.Base.{
  ℕ, zero, suc, ◌+◌, ◌-◌, ◌*◌, ◌%◌, ◌^◌, ◌≤◌, ◌<◌, ◌≡◌, ◌⊎◌, refl, Bool, true, false, Option, none,
  some, List, [], ◌∷◌, ◌++◌, All, length, replicate, arith,
}
use zrsocket.DataConvert.Itoa.Text.{IsDigit, spelled}
use zrsocket.DataConvert.Atoi.{
  Scan, fresh, char_convert_integer, char_convert_unsigned_integer, scan_text, scan_len,
}

-- A byte at which a number ends.
abbrev pub Stops : ℕ → Type 0
Stops c = (c < 48) ⊎ (57 < c)

-- What the loops need of a macro: how it takes a digit once a digit or a sign has been read, and
-- that anything else stops it then.
pub record IsNumeric (w : ℕ) (convert : ℕ → Scan → Option Scan) : Type 0 where
  pub digit :
      (c r : ℕ) (neg : Bool)
      → IsDigit c
      → convert c (record { ret = r; negative_flag = neg; first_num_flag = true })
        ≡ some (record {
          ret = (r * 10 + (c - 48)) % 2 ^ w;
          negative_flag = neg;
          first_num_flag = true;
        })
  pub stop :
      (c r : ℕ) (neg : Bool)
      → Stops c
      → convert c (record { ret = r; negative_flag = neg; first_num_flag = true }) ≡ none
  pub first :
      (c : ℕ)
      → IsDigit c
      → convert c fresh ≡ some (record fresh { ret = 0 + (c - 48); first_num_flag = true })
  pub blank : convert 32 fresh ≡ some fresh
  pub plus : convert 43 fresh ≡ some (record fresh { first_num_flag = true })

pub integer-IsNumeric : (w : ℕ) → IsNumeric w (char_convert_integer w)
unfolding char_convert_integer
integer-IsNumeric w = record {
  digit = λ c r neg h. ground arith;
  stop = λ c r neg h. ground arith;
  first = λ c h. ground arith;
  blank = refl;
  plus = refl;
}

pub unsigned-IsNumeric : (w : ℕ) → IsNumeric w (char_convert_unsigned_integer w)
unfolding char_convert_unsigned_integer
unsigned-IsNumeric w = record {
  digit = λ c r neg h. ground arith;
  stop = λ c r neg h. ground arith;
  first = λ c h. ground arith;
  blank = refl;
  plus = refl;
}

-- The sign in front of a number, and what the scan knows once it has read it.
pub data Sign : Type 0 where
  unsigned plus minus : Sign

abbrev pub sign_bytes : Sign → List ℕ
sign_bytes unsigned = []
sign_bytes plus = 43 ∷ []
sign_bytes minus = 45 ∷ []

abbrev pub is_minus : Sign → Bool
is_minus minus = true
is_minus _ = false

-- A macro reads the sign.
abbrev pub Reads : (ℕ → Scan → Option Scan) → Sign → Type 0
Reads convert unsigned = Unit {0}
Reads convert plus = convert 43 fresh ≡ some (record fresh { first_num_flag = true })
Reads convert minus =
    convert 45 fresh ≡ some (record fresh { first_num_flag = true; negative_flag = true })

-- k blanks, a sign, and digits.
abbrev pub numeral : ℕ → Sign → List ℕ → List ℕ
numeral k sg ds = replicate k 32 ++ sign_bytes sg ++ ds

le-spelled : (s : List ℕ) (n : ℕ) → n ≤ spelled n s
le-spelled [] n = omega arith
le-spelled (c ∷ s) n = omega (arith, le-spelled s (n * 10 + (c - 48)))

module _ (w : ℕ) (convert : ℕ → Scan → Option Scan) (v : IsNumeric w convert) where
  abbrev pub reading : ℕ → Bool → Scan
  reading r neg = record { ret = r; negative_flag = neg; first_num_flag = true }

  small :
      (d : ℕ) (ds : List ℕ) (r : ℕ)
      → spelled r (d ∷ ds) < 2 ^ w
      → (r * 10 + (d - 48)) % 2 ^ w ≡ r * 10 + (d - 48)
  small d ds r b = mod-eq_of_lt (omega (arith, le-spelled ds (r * 10 + (d - 48))))

  scan_text_digits :
      (ds : List ℕ) (c : ℕ) (rest : List ℕ) (r : ℕ) (neg : Bool)
      → All IsDigit ds
      → Stops c
      → spelled r ds < 2 ^ w
      → scan_text convert (ds ++ c ∷ rest) (reading r neg)
        ≡ some (reading (spelled r ds) neg, c ∷ rest)
  unfolding scan_text
  scan_text_digits [] c rest r neg h e b = rw (v.stop c r neg e)
  scan_text_digits (d ∷ ds) c rest r neg (hd, hs) e b =
      rw (v.digit d r neg hd, small d ds r b)
        (scan_text_digits ds c rest (r * 10 + (d - 48)) neg hs e b)

  scan_len_digits :
      (ds rest : List ℕ) (r : ℕ) (neg : Bool)
      → All IsDigit ds
      → spelled r ds < 2 ^ w
      → scan_len convert (length ds) (ds ++ rest) (reading r neg)
        ≡ some (reading (spelled r ds) neg, rest)
  unfolding scan_len
  scan_len_digits [] rest r neg h b = refl
  scan_len_digits (d ∷ ds) rest r neg (hd, hs) b =
      rw (v.digit d r neg hd, small d ds r b) (scan_len_digits ds rest (r * 10 + (d - 48)) neg hs b)

  -- The blanks, the sign and the first digit are read.
  pub scan_text-numeral :
      (k : ℕ) (sg : Sign) (d : ℕ) (ds : List ℕ) (c : ℕ) (rest : List ℕ)
      → Reads convert sg
      → IsDigit d
      → All IsDigit ds
      → Stops c
      → spelled 0 (d ∷ ds) < 2 ^ w
      → scan_text convert (numeral k sg (d ∷ ds) ++ c ∷ rest) fresh
        ≡ some (reading (spelled 0 (d ∷ ds)) (is_minus sg), c ∷ rest)
  unfolding scan_text
  scan_text-numeral zero unsigned d ds c rest rd hd hs e b =
      rw (v.first d hd) (scan_text_digits ds c rest (0 + (d - 48)) false hs e b)
  scan_text-numeral zero plus d ds c rest rd hd hs e b =
      rw rd (scan_text_digits (d ∷ ds) c rest 0 false (hd, hs) e b)
  scan_text-numeral zero minus d ds c rest rd hd hs e b =
      rw rd (scan_text_digits (d ∷ ds) c rest 0 true (hd, hs) e b)
  scan_text-numeral (suc k) sg d ds c rest rd hd hs e b =
      rw v.blank (scan_text-numeral k sg d ds c rest rd hd hs e b)

  pub scan_len-numeral :
      (k : ℕ) (sg : Sign) (d : ℕ) (ds rest : List ℕ)
      → Reads convert sg
      → IsDigit d
      → All IsDigit ds
      → spelled 0 (d ∷ ds) < 2 ^ w
      → scan_len convert (length (numeral k sg (d ∷ ds))) (numeral k sg (d ∷ ds) ++ rest) fresh
        ≡ some (reading (spelled 0 (d ∷ ds)) (is_minus sg), rest)
  unfolding scan_len
  scan_len-numeral zero unsigned d ds rest rd hd hs b =
      rw (v.first d hd) (scan_len_digits ds rest (0 + (d - 48)) false hs b)
  scan_len-numeral zero plus d ds rest rd hd hs b =
      rw rd (scan_len_digits (d ∷ ds) rest 0 false (hd, hs) b)
  scan_len-numeral zero minus d ds rest rd hd hs b =
      rw rd (scan_len_digits (d ∷ ds) rest 0 true (hd, hs) b)
  scan_len-numeral (suc k) sg d ds rest rd hd hs b =
      rw v.blank (scan_len-numeral k sg d ds rest rd hd hs b)

pub integer-Reads : (w : ℕ) (sg : Sign) → Reads (char_convert_integer w) sg
unfolding char_convert_integer
integer-Reads w unsigned = tt
integer-Reads w plus = refl
integer-Reads w minus = refl

pub unsigned-Reads :
    (w : ℕ) (sg : Sign) → is_minus sg ≡ false → Reads (char_convert_unsigned_integer w) sg
unfolding char_convert_unsigned_integer
unsigned-Reads w unsigned h = tt
unsigned-Reads w plus h = refl
unsigned-Reads w minus h = cc
