-- ===== src/DataConvert/Atoi.antt =====
-- src/data_convert.cpp: `atoi`, `atoui`, `atoll`, `atoull`, with and without a length.
-- A text is the list of the bytes from `str` to the end of its block: a read behind the last one
-- leaves the block, and the result is `none`. An integer of w bits is its bit pattern below 2 ^ w;
-- arithmetic on signed patterns is taken to wrap, as compilers do it here.
pub mod Numerals
pub mod Results
pub mod RoundTrip
use zrsocket.Base.{
  ℕ, zero, suc, ◌+◌, ◌-◌, ◌*◌, ◌%◌, ◌^◌, ◌≡◌, refl, Bool, true, false, ◌&&◌, Option, none, some,
  List, [], ◌∷◌, leb, ◌==◌, if◌then◌else◌,
}

-- The locals of a conversion, `ret` as a bit pattern.
pub record Scan : Type 0 where
  pub ret : ℕ
  pub negative_flag : Bool
  pub first_num_flag : Bool

abbrev pub fresh : Scan
fresh = record { ret = 0; negative_flag = false; first_num_flag = false }

-- The first branch of both macros: a digit.
add_digit : ℕ → ℕ → Scan → Scan
add_digit w ch s =
    if s.first_num_flag
    then record s { ret = (s.ret * 10 + (ch - 48)) % 2 ^ w }
    else record s { first_num_flag = true; ret = ch - 48 }

-- ZRSOCKET_CHAR_CONVERT_INTEGER; `none` is `goto EXIT_PROC`.
pub char_convert_integer : ℕ → ℕ → Scan → Option Scan
unfolding add_digit
char_convert_integer w ch s =
    if leb 48 ch && leb ch 57
    then some (add_digit w ch s)
    else if ch == 45
    then (if s.first_num_flag
        then none
        else some (record s { first_num_flag = true; negative_flag = true }))
    else if ch == 32
    then (if s.first_num_flag then none else some s)
    else if ch == 43
    then (if s.first_num_flag then none else some (record s { first_num_flag = true }))
    else none

-- ZRSOCKET_CHAR_CONVERT_UNSIGNED_INTEGER
pub char_convert_unsigned_integer : ℕ → ℕ → Scan → Option Scan
unfolding add_digit
char_convert_unsigned_integer w ch s =
    if leb 48 ch && leb ch 57
    then some (add_digit w ch s)
    else if ch == 32
    then (if s.first_num_flag then none else some s)
    else if ch == 43
    then (if s.first_num_flag then none else some (record s { first_num_flag = true }))
    else none

-- `while (str != nullptr) { …; ++str; }`, with what `str` points to at EXIT_PROC. The pointer never
-- becomes null, so the loop ends only by the macro's `goto`.
pub scan_text : (ℕ → Scan → Option Scan) → List ℕ → Scan → Option (Scan × List ℕ)
scan_text convert [] s = none
scan_text convert (ch ∷ str) s = elim (convert ch s) [
  | none ↦ some (s, ch ∷ str)
  | some s' ↦ scan_text convert str s'
]

-- `for (i = 0; i < len; ++i) { …; ++str; }`
pub scan_len : (ℕ → Scan → Option Scan) → ℕ → List ℕ → Scan → Option (Scan × List ℕ)
scan_len convert zero str s = some (s, str)
scan_len convert (suc len) [] s = none
scan_len convert (suc len) (ch ∷ str) s = elim (convert ch s) [
  | none ↦ some (s, ch ∷ str)
  | some s' ↦ scan_len convert len str s'
]

-- The `if` of the overloads with a length: 0 stands for an unbounded text.
pub scan_for : (ℕ → Scan → Option Scan) → List ℕ → ℕ → Option (Scan × List ℕ)
scan_for convert str len =
    if len == 0 then scan_text convert str fresh else scan_len convert len str fresh

-- EXIT_PROC of the signed ones: `-ret` if the text had a minus sign.
pub signed_result : ℕ → Scan → ℕ
signed_result w s = if s.negative_flag then (2 ^ w - s.ret) % 2 ^ w else s.ret

pub exit_signed : ℕ → Option (Scan × List ℕ) → Option (ℕ × List ℕ)
exit_signed w none = none
exit_signed w (some (s, str)) = some (signed_result w s, str)

pub exit_unsigned : Option (Scan × List ℕ) → Option (ℕ × List ℕ)
exit_unsigned none = none
exit_unsigned (some (s, str)) = some (s.ret, str)

-- Each function's value, and the text at `*endptr`.
pub atoi : List ℕ → Option (ℕ × List ℕ)
atoi str = exit_signed 32 (scan_text (char_convert_integer 32) str fresh)

pub atoi_len : List ℕ → ℕ → Option (ℕ × List ℕ)
atoi_len str len = exit_signed 32 (scan_for (char_convert_integer 32) str len)

pub atoui : List ℕ → Option (ℕ × List ℕ)
atoui str = exit_unsigned (scan_text (char_convert_unsigned_integer 32) str fresh)

pub atoui_len : List ℕ → ℕ → Option (ℕ × List ℕ)
atoui_len str len = exit_unsigned (scan_for (char_convert_unsigned_integer 32) str len)

pub atoll : List ℕ → Option (ℕ × List ℕ)
atoll str = exit_signed 64 (scan_text (char_convert_integer 64) str fresh)

pub atoll_len : List ℕ → ℕ → Option (ℕ × List ℕ)
atoll_len str len = exit_signed 64 (scan_for (char_convert_integer 64) str len)

pub atoull : List ℕ → Option (ℕ × List ℕ)
atoull str = exit_unsigned (scan_text (char_convert_unsigned_integer 64) str fresh)

pub atoull_len : List ℕ → ℕ → Option (ℕ × List ℕ)
atoull_len str len = exit_unsigned (scan_for (char_convert_unsigned_integer 64) str len)
