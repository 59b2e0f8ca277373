-- ===== src/DataConvert/Itoa.antt =====
-- src/data_convert.cpp: `uitoa` and `ulltoa` (the Windows branch, the one that compiles), and
-- `itoa` and `lltoa` of include/zrsocket/data_convert.h, which call them.
-- A branch of the source is a row of MOD100 statements, a LESS10 or LESS100, and the final NUL.
pub mod Put
pub mod PutLong
pub mod Width
pub mod Text
use zrsocket.Base.{
  ℕ, zero, suc, ◌+◌, ◌-◌, ◌*◌, ◌/◌, ◌%◌, ◌^◌, ◌≡◌, refl, List, [], ◌∷◌, get_or, ltb, if◌then◌else◌,
  Memory, update, ℤ, pos, negsuc,
}
use zrsocket.DataConvert.Digits.{digits, digits10_u32, digits10_u64}

-- The locals `value` and `str` of a conversion.
pub record Conversion : Type 0 where
  pub value : ℕ
  pub str : Memory

-- LESS10: one digit.
unfoldable pub less10 : Conversion → Memory
less10 s = update s.str 0 (48 + s.value)

-- LESS100: `i = value << 1; str[1] = digits_[i + 1]; str[0] = digits_[i]`.
unfoldable pub less100 : Conversion → Memory
less100 s =
    let i = s.value * 2 in update (update s.str 1 (get_or digits (i + 1) 0)) 0 (get_or digits i 0)

-- MOD100(x): `temp = value / 100; i = (value - temp * 100) << 1; value = temp;` and two digits.
unfoldable pub mod100 : ℕ → Conversion → Conversion
mod100 x s =
    let temp = s.value / 100 in
    let i = (s.value - temp * 100) * 2 in
    record {
      value = temp;
      str = update (update s.str x (get_or digits (i + 1) 0)) (x - 1) (get_or digits i 0);
    }

-- A row of MOD100 statements.
unfoldable pub mod100s : List ℕ → Conversion → Conversion
mod100s [] s = s
mod100s (x ∷ xs) s = mod100s xs (mod100 x s)

-- The rest of a branch, `str[n] = '\0'; return n`.
unfoldable pub finish : ℕ → (Conversion → Memory) → List ℕ → Conversion → ℕ × Memory
finish n last xs s = (n, update (last (mod100s xs s)) n 0)

-- The branches of `uitoa` behind its length test.
unfoldable pub uitoa_digits : ℕ → Memory → ℕ × Memory
uitoa_digits value str =
    let s : Conversion = record { value = value; str = str } in
    if ltb value 10
    then finish 1 less10 [] s
    else if ltb value 100
    then finish 2 less100 [] s
    else if ltb value 1000
    then finish 3 less10 (2 ∷ []) s
    else if ltb value 10000
    then finish 4 less100 (3 ∷ []) s
    else if ltb value 100000
    then finish 5 less10 (4 ∷ 2 ∷ []) s
    else if ltb value 1000000
    then finish 6 less100 (5 ∷ 3 ∷ []) s
    else if ltb value 10000000
    then finish 7 less10 (6 ∷ 4 ∷ 2 ∷ []) s
    else if ltb value 100000000
    then finish 8 less100 (7 ∷ 5 ∷ 3 ∷ []) s
    else if ltb value 1000000000
    then finish 9 less10 (8 ∷ 6 ∷ 4 ∷ 2 ∷ []) s
    else finish 10 less100 (9 ∷ 7 ∷ 5 ∷ 3 ∷ []) s

-- `uitoa`: 0 and the buffer as it was if `str_len` is too small. `str_len` is an int that the
-- callers take from a buffer's size.
unfoldable pub uitoa : ℕ → Memory → ℕ → ℕ × Memory
uitoa value str str_len =
    if ltb str_len (digits10_u32 value) then (0, str) else uitoa_digits value str

pub ulltoa_digits : ℕ → Memory → ℕ × Memory
ulltoa_digits value str =
    let s : Conversion = record { value = value; str = str } in
    if ltb value 10
    then finish 1 less10 [] s
    else if ltb value 100
    then finish 2 less100 [] s
    else if ltb value 1000
    then finish 3 less10 (2 ∷ []) s
    else if ltb value 10000
    then finish 4 less100 (3 ∷ []) s
    else if ltb value 100000
    then finish 5 less10 (4 ∷ 2 ∷ []) s
    else if ltb value 1000000
    then finish 6 less100 (5 ∷ 3 ∷ []) s
    else if ltb value 10000000
    then finish 7 less10 (6 ∷ 4 ∷ 2 ∷ []) s
    else if ltb value 100000000
    then finish 8 less100 (7 ∷ 5 ∷ 3 ∷ []) s
    else if ltb value 1000000000
    then finish 9 less10 (8 ∷ 6 ∷ 4 ∷ 2 ∷ []) s
    else if ltb value 10000000000
    then finish 10 less100 (9 ∷ 7 ∷ 5 ∷ 3 ∷ []) s
    else if ltb value 100000000000
    then finish 11 less10 (10 ∷ 8 ∷ 6 ∷ 4 ∷ 2 ∷ []) s
    else if ltb value 1000000000000
    then finish 12 less100 (11 ∷ 9 ∷ 7 ∷ 5 ∷ 3 ∷ []) s
    else if ltb value 10000000000000
    then finish 13 less10 (12 ∷ 10 ∷ 8 ∷ 6 ∷ 4 ∷ 2 ∷ []) s
    else if ltb value 100000000000000
    then finish 14 less100 (13 ∷ 11 ∷ 9 ∷ 7 ∷ 5 ∷ 3 ∷ []) s
    else if ltb value 1000000000000000
    then finish 15 less10 (14 ∷ 12 ∷ 10 ∷ 8 ∷ 6 ∷ 4 ∷ 2 ∷ []) s
    else if ltb value 10000000000000000
    then finish 16 less100 (15 ∷ 13 ∷ 11 ∷ 9 ∷ 7 ∷ 5 ∷ 3 ∷ []) s
    else if ltb value 100000000000000000
    then finish 17 less10 (16 ∷ 14 ∷ 12 ∷ 10 ∷ 8 ∷ 6 ∷ 4 ∷ 2 ∷ []) s
    else if ltb value 1000000000000000000
    then finish 18 less100 (17 ∷ 15 ∷ 13 ∷ 11 ∷ 9 ∷ 7 ∷ 5 ∷ 3 ∷ []) s
    else if ltb value 10000000000000000000
    then finish 19 less10 (18 ∷ 16 ∷ 14 ∷ 12 ∷ 10 ∷ 8 ∷ 6 ∷ 4 ∷ 2 ∷ []) s
    else finish 20 less100 (19 ∷ 17 ∷ 15 ∷ 13 ∷ 11 ∷ 9 ∷ 7 ∷ 5 ∷ 3 ∷ []) s

unfoldable pub ulltoa : ℕ → Memory → ℕ → ℕ × Memory
ulltoa value str str_len =
    if ltb str_len (digits10_u64 value) then (0, str) else ulltoa_digits value str

-- What a pointer to the next cell sees, and a block whose cells from the second on are another's.
abbrev pub next_cell : Memory → Memory
next_cell str i = str (suc i)

abbrev pub behind : ℕ → Memory → Memory
behind c str = elim [ zero ↦ c | suc i ↦ str i ]

-- `itoa`: a minus sign, then the digits of `-value` as a uint32_t.
unfoldable pub itoa : ℤ → Memory → ℕ → ℕ × Memory
itoa (pos n) str str_len = uitoa n str str_len
itoa (negsuc n) str str_len =
    if ltb 0 str_len
    then (let (len, str') = uitoa (n + 1) (next_cell str) (str_len - 1) in
        (len + 1, behind 45 str'))
    else (0, str)

-- `lltoa`: the same at 64 bits.
unfoldable pub lltoa : ℤ → Memory → ℕ → ℕ × Memory
lltoa (pos n) str str_len = ulltoa n str str_len
lltoa (negsuc n) str str_len =
    if ltb 0 str_len
    then (let (len, str') = ulltoa (n + 1) (next_cell str) (str_len - 1) in
        (len + 1, behind 45 str'))
    else (0, str)
