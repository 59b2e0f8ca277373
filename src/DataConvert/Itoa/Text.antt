-- ===== src/DataConvert/Itoa/Text.antt =====
-- What `uitoa` and `ulltoa` leave in the buffer, read as text.
use mathlib.Core.Path.{ap₂}
use native.Mathlib.Nat.{pow-suc, pow-le-pow_right}
use native.Mathlib.Decide.{dec_le}
use zrsocket.Base.{
  ℕ, zero, suc, ◌+◌, ◌-◌, ◌*◌, ◌/◌, ◌%◌, ◌^◌, ◌≤◌, ◌<◌, ◌≡◌, inl, inr, refl, sym, subst, ap, ◌∙◌,
  List, [], ◌∷◌, ◌++◌, All, All-append, ltb, if_intro, tests, lt→ltb, Memory, update, update_self,
  update_ne, slice, slice-add, slice_eq, arith,
}
use zrsocket.DataConvert.Digits.{digits10_u32, digits10_u64}
use zrsocket.DataConvert.Itoa.{uitoa, ulltoa, uitoa_digits, ulltoa_digits}
use zrsocket.DataConvert.Itoa.Put.{put, HasWidth, IsText, uitoa_digits-IsText}
use zrsocket.DataConvert.Itoa.PutLong.{ulltoa_digits-IsText}
use zrsocket.DataConvert.Itoa.Width.{digits10_u32-HasWidth, digits10_u64-HasWidth}

abbrev pub IsDigit : ℕ → Type 0
IsDigit c = (48 ≤ c) × (c ≤ 57)

-- The number that a row of digits spells behind the number n.
abbrev pub spelled : ℕ → List ℕ → ℕ
spelled n [] = n
spelled n (c ∷ s) = spelled (n * 10 + (c - 48)) s

abbrev digits_of : ℕ → ℕ → List ℕ
digits_of zero v = []
digits_of (suc n) v = digits_of n (v / 10) ++ (48 + v % 10) ∷ []

put_above : (n v : ℕ) (str : Memory) (j : ℕ) → n ≤ j → put n v str j ≡ str j
put_above zero v str j h = refl
put_above (suc n) v str j h =
    put_above n (v / 10) (update str n (48 + v % 10)) j (omega arith)
    ∙ update_ne str n (48 + v % 10) j (λ e. omega arith)

slice-put : (n v : ℕ) (str : Memory) → slice (put n v str) 0 n ≡ digits_of n v
slice-put zero v str = refl
slice-put (suc n) v str =
    ap (λ k. slice after 0 k) one_more
    ∙ slice-add after 0 n 1
    ∙ ap₂ (λ s c. s ++ c ∷ []) (slice-put n (v / 10) (update str n (48 + v % 10))) last
  where
    after : Memory
    after = put n (v / 10) (update str n (48 + v % 10))

    one_more : suc n ≡ n + 1
    one_more = omega arith

    last : after (0 + n) ≡ 48 + v % 10
    last =
        ap after {x = 0 + n} {y = n} (omega arith)
        ∙ put_above n (v / 10) (update str n (48 + v % 10)) n (omega arith)
        ∙ update_self str n (48 + v % 10)

digits_of-IsDigit : (n v : ℕ) → All IsDigit (digits_of n v)
digits_of-IsDigit zero v = tt
digits_of-IsDigit (suc n) v =
    All-append IsDigit (digits_of n (v / 10)) _ (digits_of-IsDigit n (v / 10)) (omega arith)

spelled-append :
    (a : ℕ) (s : List ℕ) (c : ℕ) → spelled a (s ++ c ∷ []) ≡ spelled a s * 10 + (c - 48)
spelled-append a [] c = refl
spelled-append a (d ∷ s) c = spelled-append (a * 10 + (d - 48)) s c

spelled-digits_of : (n v : ℕ) → v < 10 ^ n → spelled 0 (digits_of n v) ≡ v
spelled-digits_of zero v h = omega arith
spelled-digits_of (suc n) v h =
    spelled-append 0 (digits_of n (v / 10)) (48 + v % 10)
    ∙ omega (arith, spelled-digits_of n (v / 10) (omega (arith, pow-suc 10 n)))

pub HasWidth-pos : (v n : ℕ) → HasWidth v n → 1 ≤ n
HasWidth-pos v zero w = elim w.needed [
  | inl e ↦ omega arith
  | inr h ↦ absurd (omega (arith, w.enough))
]
HasWidth-pos v (suc n) w = omega arith

HasWidth-le : (v n m : ℕ) → HasWidth v n → HasWidth v m → n ≤ m
HasWidth-le v n m w w' = elim w.needed [
  | inl e ↦ omega (arith, HasWidth-pos v m w')
  | inr h ↦ elim (dec_le n m) [
    | yes le ↦ le
    | no gt ↦ absurd (
        omega (
          arith,
          w'.enough,
          pow-le-pow_right {n = 10} (omega arith) {i = m} {j = n - 1} (omega arith),
        ))
  ]
]

-- A number has one width.
pub HasWidth-unique : (v n m : ℕ) → HasWidth v n → HasWidth v m → n ≡ m
HasWidth-unique v n m w w' = omega (arith, HasWidth-le v n m w w', HasWidth-le v m n w' w)

-- What a successful conversion of `value` promises of its result: the text in the buffer is the
-- decimal text of `value`, with no leading zero, a NUL stands behind it, and no cell further on
-- has changed.
pub record Prints (value : ℕ) (str : Memory) (r : ℕ × Memory) : Type 0 where
  pub numerals : All IsDigit (slice r.1 0 r.0)
  pub spells : spelled 0 (slice r.1 0 r.0) ≡ value
  pub shortest : HasWidth value r.0
  pub terminated : r.1 r.0 ≡ 0
  pub untouched : (j : ℕ) → r.1 (r.0 + 1 + j) ≡ str (r.0 + 1 + j)

slice-IsText :
    (value : ℕ) (str : Memory) (n : ℕ)
    → slice (update (put n value str) n 0) 0 n ≡ digits_of n value
slice-IsText value str n =
    slice_eq (update (put n value str) n 0) (put n value str) 0 n
      (λ j _ lt. update_ne (put n value str) n 0 j (λ e. omega arith))
    ∙ slice-put n value str

IsText-Prints :
    (value : ℕ) (str : Memory) (r : ℕ × Memory) → IsText value str r → Prints value str r
IsText-Prints value str (n, m) t =
    subst (λ k. Prints value str (n, k)) (sym t.written)
      (record {
        numerals = subst (All IsDigit) (sym (slice-IsText value str n)) (digits_of-IsDigit n value);
        spells =
            ap (spelled 0) (slice-IsText value str n) ∙ spelled-digits_of n value t.width.enough;
        shortest = t.width;
        terminated = update_self (put n value str) n 0;
        untouched = λ j.
            update_ne (put n value str) n 0 (n + 1 + j) (λ e. omega arith)
            ∙ put_above n value str (n + 1 + j) (omega arith);
      })

-- A uint32_t whose text fits is printed: the count is the text's width `digits10`, and the
-- buffer holds the text.
pub uitoa_lem :
    (value str_len : ℕ) (str : Memory)
    → value < 2 ^ 32
    → digits10_u32 value ≤ str_len
    → ((uitoa value str str_len).0 ≡ digits10_u32 value)
      × Prints value str (uitoa value str str_len)
unfolding uitoa
uitoa_lem value str_len str bound fits =
    if_intro (λ r. (r.0 ≡ digits10_u32 value) × Prints value str r)
      (ltb str_len (digits10_u32 value)) (λ short. absurd (omega tests))
      (λ _. (
        HasWidth-unique value _ _ printed.width (digits10_u32-HasWidth value bound),
        IsText-Prints value str _ printed,
      ))
  where
    printed : IsText value str (uitoa_digits value str)
    printed = uitoa_digits-IsText value str bound

-- A uint64_t whose text fits is printed: the count is the text's width `digits10`, and the
-- buffer holds the text.
pub ulltoa_lem :
    (value str_len : ℕ) (str : Memory)
    → value < 2 ^ 64
    → digits10_u64 value ≤ str_len
    → ((ulltoa value str str_len).0 ≡ digits10_u64 value)
      × Prints value str (ulltoa value str str_len)
unfolding ulltoa
ulltoa_lem value str_len str bound fits =
    if_intro (λ r. (r.0 ≡ digits10_u64 value) × Prints value str r)
      (ltb str_len (digits10_u64 value)) (λ short. absurd (omega tests))
      (λ _. (
        HasWidth-unique value _ _ printed.width (digits10_u64-HasWidth value bound),
        IsText-Prints value str _ printed,
      ))
  where
    printed : IsText value str (ulltoa_digits value str)
    printed = ulltoa_digits-IsText value str bound

-- A buffer that is too short is left as it was.
pub uitoa_short :
    (value str_len : ℕ) (str : Memory)
    → str_len < digits10_u32 value
    → uitoa value str str_len ≡ (0, str)
unfolding uitoa
uitoa_short value str_len str h = rw (lt→ltb str_len (digits10_u32 value) h)

pub ulltoa_short :
    (value str_len : ℕ) (str : Memory)
    → str_len < digits10_u64 value
    → ulltoa value str str_len ≡ (0, str)
unfolding ulltoa
ulltoa_short value str_len str h = rw (lt→ltb str_len (digits10_u64 value) h)
