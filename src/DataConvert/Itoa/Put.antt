-- ===== src/DataConvert/Itoa/Put.antt =====
-- A plain digit loop, `put`, and the unrolled branches of `uitoa` in its terms.
use native.Mathlib.Nat.{pow-suc}
use zrsocket.Base.{
  ℕ, zero, suc, ◌+◌, ◌-◌, ◌*◌, ◌/◌, ◌%◌, ◌^◌, ◌≤◌, ◌<◌, ◌≡◌, ◌⊎◌, inl, inr, refl, sym, subst, ap,
  ◌∙◌, List, [], ◌∷◌, ltb, if_intro, tests, Memory, update, arith,
}
use zrsocket.DataConvert.Digits.{get_or-digits}
use zrsocket.DataConvert.Itoa.{Conversion, less10, less100, mod100, mod100s, finish, uitoa_digits}

-- The last n digits of v, written from the right.
abbrev pub put : ℕ → ℕ → Memory → Memory
put zero v str = str
put (suc n) v str = put n (v / 10) (update str n (48 + v % 10))

mod100-put :
    (n : ℕ) (s : Conversion)
    → put n (mod100 (suc n) s).value (mod100 (suc n) s).str ≡ put (suc (suc n)) s.value s.str
unfolding mod100
mod100-put n s = ground (
  arith,
  get_or-digits (s.value - s.value / 100 * 100) (omega arith),
  ap (λ v. put n v (update (update s.str (suc n) (48 + s.value % 10)) n (48 + s.value / 10 % 10)))
      tenth,
)
  where
    tenth : s.value / 100 ≡ s.value / 10 / 10
    tenth = omega arith

-- The positions of k MOD100 statements in front of an r-digit end.
abbrev positions : ℕ → ℕ → List ℕ
positions zero r = []
positions (suc k) r = suc (r + 2 * k) ∷ positions k r

mod100s-put :
    (k r : ℕ) (s : Conversion)
    → let s' = mod100s (positions k r) s in put r s'.value s'.str ≡ put (r + 2 * k) s.value s.str
unfolding mod100s
mod100s-put zero r s = ap (λ n. put n s.value s.str) same
  where
    same : r ≡ r + 2 * 0
    same = omega arith
mod100s-put (suc k) r s =
    mod100s-put k r (mod100 (suc (r + 2 * k)) s) ∙ mod100-put (r + 2 * k) s ∙ regroup
  where
    longer : suc (suc (r + 2 * k)) ≡ r + 2 * suc k
    longer = omega arith

    regroup : put (suc (suc (r + 2 * k))) s.value s.str ≡ put (r + 2 * suc k) s.value s.str
    regroup = ap (λ n. put n s.value s.str) longer

mod100s-value :
    (k r b : ℕ) (s : Conversion) → s.value < b * 100 ^ k → (mod100s (positions k r) s).value < b
unfolding mod100s mod100
mod100s-value zero r b s h = omega arith
mod100s-value (suc k) r b s h =
    mod100s-value k r b (mod100 (suc (r + 2 * k)) s) (step (100 ^ k) (pow-suc 100 k))
  where
    step : (p : ℕ) → 100 ^ suc k ≡ p * 100 → (mod100 (suc (r + 2 * k)) s).value < b * p
    step p e = let h' : s.value < b * (p * 100) = rw e at h in omega arith

less10-put : (s : Conversion) → s.value < 10 → less10 s ≡ put 1 s.value s.str
unfolding less10
less10-put s h = ap (λ c. update s.str 0 (48 + c)) (omega arith)

less100-put : (s : Conversion) → s.value < 100 → less100 s ≡ put 2 s.value s.str
unfolding less100
less100-put s h = ground (arith, get_or-digits s.value h)

pub finish-less10 :
    (k : ℕ) (s : Conversion)
    → s.value < 10 * 100 ^ k
    → finish (1 + 2 * k) less10 (positions k 1) s
      ≡ (1 + 2 * k, update (put (1 + 2 * k) s.value s.str) (1 + 2 * k) 0)
unfolding finish
finish-less10 k s h =
    ap (λ m. (1 + 2 * k, update m (1 + 2 * k) 0))
      (less10-put _ (mod100s-value k 1 10 s h) ∙ mod100s-put k 1 s)

pub finish-less100 :
    (k : ℕ) (s : Conversion)
    → s.value < 100 * 100 ^ k
    → finish (2 + 2 * k) less100 (positions k 2) s
      ≡ (2 + 2 * k, update (put (2 + 2 * k) s.value s.str) (2 + 2 * k) 0)
unfolding finish
finish-less100 k s h =
    ap (λ m. (2 + 2 * k, update m (2 + 2 * k) 0))
      (less100-put _ (mod100s-value k 2 100 s h) ∙ mod100s-put k 2 s)

-- n digits are enough for v, and no fewer are.
pub record HasWidth (v n : ℕ) : Type 0 where
  pub enough : v < 10 ^ n
  pub needed : (n ≡ 1) ⊎ (10 ^ (n - 1) ≤ v)

-- The result of a conversion: the width, and the digits with a NUL behind them.
pub record IsText (value : ℕ) (str : Memory) (r : ℕ × Memory) : Type 0 where
  pub written : r.1 ≡ update (put r.0 value str) r.0 0
  pub width : HasWidth value r.0

pub IsText-branch :
    (value : ℕ) (str : Memory) (n : ℕ) {r : ℕ × Memory}
    → r ≡ (n, update (put n value str) n 0)
    → value < 10 ^ n
    → (n ≡ 1) ⊎ (10 ^ (n - 1) ≤ value)
    → IsText value str r
IsText-branch value str n e lt wide =
    subst (IsText value str) (sym e)
      (record { written = refl; width = record { enough = lt; needed = wide } })

pub uitoa_digits-IsText :
    (value : ℕ) (str : Memory) → value < 2 ^ 32 → IsText value str (uitoa_digits value str)
unfolding uitoa_digits
uitoa_digits-IsText value str h =
    if_intro (IsText value str) (ltb value 10)
      (λ t1. IsText-branch value str 1 (finish-less10 0 s (omega tests)) (omega tests) (inl refl))
      (λ f1.
        if_intro (IsText value str) (ltb value 100)
          (λ t2.
            IsText-branch value str 2 (finish-less100 0 s (omega tests)) (omega tests)
              (inr (omega tests)))
          (λ f2.
            if_intro (IsText value str) (ltb value 1000)
              (λ t3.
                IsText-branch value str 3 (finish-less10 1 s (omega tests)) (omega tests)
                  (inr (omega tests)))
              (λ f3.
                if_intro (IsText value str) (ltb value 10000)
                  (λ t4.
                    IsText-branch value str 4 (finish-less100 1 s (omega tests)) (omega tests)
                      (inr (omega tests)))
                  (λ f4.
                    if_intro (IsText value str) (ltb value 100000)
                      (λ t5.
                        IsText-branch value str 5 (finish-less10 2 s (omega tests)) (omega tests)
                          (inr (omega tests)))
                      (λ f5.
                        if_intro (IsText value str) (ltb value 1000000)
                          (λ t6.
                            IsText-branch value str 6 (finish-less100 2 s (omega tests))
                              (omega tests) (inr (omega tests)))
                          (λ f6.
                            if_intro (IsText value str) (ltb value 10000000)
                              (λ t7.
                                IsText-branch value str 7 (finish-less10 3 s (omega tests))
                                  (omega tests) (inr (omega tests)))
                              (λ f7.
                                if_intro (IsText value str) (ltb value 100000000)
                                  (λ t8.
                                    IsText-branch value str 8 (finish-less100 3 s (omega tests))
                                      (omega tests) (inr (omega tests)))
                                  (λ f8.
                                    if_intro (IsText value str) (ltb value 1000000000)
                                      (λ t9.
                                        IsText-branch value str 9 (finish-less10 4 s (omega tests))
                                          (omega tests) (inr (omega tests)))
                                      (λ f9.
                                        IsText-branch value str 10
                                          (finish-less100 4 s (omega tests)) (omega tests)
                                          (inr (omega tests)))))))))))
  where
    s : Conversion
    s = record { value = value; str = str }
