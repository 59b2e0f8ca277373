-- ===== src/EventQueue/Capacity.antt =====
-- The capacity that `init` chooses.
use native.Mathlib.Nat.{pow-suc, mod-eq_of_lt}
use zrsocket.Base.{
  ℕ, zero, suc, ◌+◌, ◌*◌, ◌^◌, ◌≤◌, ◌<◌, ◌≡◌, refl, sym, subst, leb, leb→le, leb→lt, if_intro,
  arith,
}
use zrsocket.EventQueue.{power_from, rounded_capacity}

-- The power of two that is the next one up from n.
pub record IsPowerAbove (n p : ℕ) : Type 0 where
  pub exponent : ℕ
  pub power : p ≡ 2 ^ exponent
  pub enough : n ≤ p
  pub least : p < 2 * n

reach : ℕ → ℕ → ℕ
reach zero p = p
reach (suc fuel) p = reach fuel (p + p)

power_from-IsPowerAbove :
    (fuel n p k : ℕ)
    → p ≡ 2 ^ k
    → n ≤ reach fuel p
    → p < 2 * n
    → IsPowerAbove n (power_from fuel n p)
unfolding power_from reach
power_from-IsPowerAbove zero n p k e h small = record {
  exponent = k;
  power = e;
  enough = h;
  least = small;
}
power_from-IsPowerAbove (suc fuel) n p k e h small =
    if_intro (IsPowerAbove n) (leb n p)
      (λ there. record { exponent = k; power = e; enough = leb→le n p there; least = small })
      (λ further.
        power_from-IsPowerAbove fuel n (p + p) (suc k) (omega (arith, pow-suc 2 k)) h
          (omega (arith, leb→lt n p further)))

-- For every capacity up to 2 ^ 31, `init` takes the least power of two that is not below it.
pub rounded_capacity_lem : (n : ℕ) → 1 ≤ n → n ≤ 2 ^ 31 → IsPowerAbove n (rounded_capacity n)
unfolding rounded_capacity reach
rounded_capacity_lem n a b =
    let p = power_from-IsPowerAbove 32 n 1 0 refl (omega arith) (omega arith) in
    subst (IsPowerAbove n) (sym (mod-eq_of_lt (omega (arith, p.least)))) p
