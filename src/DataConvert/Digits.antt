-- ===== src/DataConvert/Digits.antt =====
-- include/zrsocket/data_convert.h and src/data_convert.cpp: the width of a number's decimal text
-- (`digits10`), and the table of two-digit texts `digits_`.
use Prim.Native.Char.{code}
use Prim.Native.String.{String}
use zrsocket.Base.{
  ℕ, zero, suc, ◌+◌, ◌*◌, ◌/◌, ◌%◌, ◌<◌, ◌≡◌, refl, Bool, true, ◌&&◌, List, [], ◌∷◌, get_or, ltb,
  ◌==◌, if◌then◌else◌, arith,
}

-- The bytes of an ASCII literal.
abbrev pub codes : String → List ℕ
codes String.[] = []
codes (String.◌∷◌ c s) = code c ∷ codes s

-- `digits_`: the texts 00 to 99 in a row.
abbrev pub digits : List ℕ
digits =
    codes
      "00010203040506070809101112131415161718192021222324252627282930313233343536373839404142434445464748495051525354555657585960616263646566676869707172737475767778798081828384858687888990919293949596979899"

unfoldable pub digits10_u32 : ℕ → ℕ
digits10_u32 value =
    if ltb value 10
    then 1
    else if ltb value 100
    then 2
    else if ltb value 1000
    then 3
    else if ltb value 10000
    then 4
    else if ltb value 100000
    then 5
    else if ltb value 1000000
    then 6
    else if ltb value 10000000
    then 7
    else if ltb value 100000000
    then 8
    else if ltb value 1000000000
    then 9
    else 10

unfoldable pub digits10_u64 : ℕ → ℕ
digits10_u64 value =
    if ltb value 10
    then 1
    else if ltb value 100
    then 2
    else if ltb value 1000
    then 3
    else if ltb value 10000
    then 4
    else if ltb value 100000
    then 5
    else if ltb value 1000000
    then 6
    else if ltb value 10000000
    then 7
    else if ltb value 100000000
    then 8
    else if ltb value 1000000000
    then 9
    else if ltb value 10000000000
    then 10
    else if ltb value 100000000000
    then 11
    else if ltb value 1000000000000
    then 12
    else if ltb value 10000000000000
    then 13
    else if ltb value 100000000000000
    then 14
    else if ltb value 1000000000000000
    then 15
    else if ltb value 10000000000000000
    then 16
    else if ltb value 100000000000000000
    then 17
    else if ltb value 1000000000000000000
    then 18
    else if ltb value 10000000000000000000
    then 19
    else 20

-- What entry i of the table must be.
is_entry : ℕ → Bool
is_entry i =
    (get_or digits (i * 2) 0 == 48 + i / 10) && (get_or digits (i * 2 + 1) 0 == 48 + i % 10)

count_entries : ℕ → ℕ
count_entries zero = 0
count_entries (suc i) = if is_entry i then count_entries i + 1 else 0

-- A full count vouches for every entry.
entry_of_count : (k i : ℕ) → count_entries k ≡ k → i < k → is_entry i ≡ true
unfolding count_entries
entry_of_count zero i full lt = elim lt [ ]
entry_of_count (suc k) i full lt = ground (arith, entry_of_count k i)

all_entries : count_entries 100 ≡ 100
unfolding count_entries is_entry
all_entries = refl

-- Entry i of the table is the two decimal digits of i.
pub get_or-digits :
    (i : ℕ)
    → i < 100
    → (get_or digits (i * 2) 0 ≡ 48 + i / 10) × (get_or digits (i * 2 + 1) 0 ≡ 48 + i % 10)
unfolding is_entry
get_or-digits i h = both _ _ _ _ (entry_of_count 100 i all_entries h)
  where
    both : (a b c d : ℕ) → ((a == b) && (c == d)) ≡ true → (a ≡ b) × (c ≡ d)
    both a b c d e = ground arith
