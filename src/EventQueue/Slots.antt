-- ===== src/EventQueue/Slots.antt =====
-- Windows of a circular array: the slots of n indices from r on.
use native.Mathlib.Nat.{mod-add-div, mul-le-mul_left, mul-suc}
use mathlib.Core.Path.{ap₂}
use zrsocket.Base.{
  ℕ, zero, suc, ◌+◌, ◌/◌, ◌%◌, ◌≤◌, ◌<◌, ◌≡◌, ◌≢◌, inl, inr, refl, ap, ◌∙◌, List, [], ◌∷◌, ◌++◌,
  length, leb, leb→le, leb→lt, Bool-cases, arith,
}
use zrsocket.EventQueue.{put}

after : {a b : ℕ} → a < b → suc a ≤ b
after h = omega arith

-- Two indices less than a round apart stand in different slots.
pub mod_ne : (size i w : ℕ) → 0 < size → i < w → w < i + size → i % size ≢ w % size
mod_ne size i w pos lt near e = elim (Bool-cases (leb (w / size) (i / size))) [
  | inl h ↦ omega (
    arith,
    mod-add-div i size,
    mod-add-div w size,
    mul-le-mul_left size (leb→le (w / size) (i / size) h),
  )
  | inr h ↦ omega (
    arith,
    mod-add-div i size,
    mod-add-div w size,
    mul-le-mul_left size (after (leb→lt (w / size) (i / size) h)),
    mul-suc size (i / size),
  )
]

module _ {ℓ} {E : Type ℓ} where
  unfoldable pub window : (ℕ → E) → ℕ → ℕ → ℕ → List E
  window slots size r zero = []
  window slots size r (suc n) = slots (r % size) ∷ window slots size (suc r) n

  pub length-window : (slots : ℕ → E) (size r n : ℕ) → length (window slots size r n) ≡ n
  unfolding window
  length-window slots size r zero = refl
  length-window slots size r (suc n) = ap suc (length-window slots size (suc r) n)

  pub put_self : (slots : ℕ → E) (i : ℕ) (e : E) → put slots i e i ≡ e
  unfolding put
  put_self slots i e = ground arith

  pub put_ne : (slots : ℕ → E) (i : ℕ) (e : E) (j : ℕ) → j ≢ i → put slots i e j ≡ slots j
  unfolding put
  put_ne slots i e j h = ground arith

  -- An event put behind a window that is less than a round long extends it.
  pub window-put :
      (slots : ℕ → E) (size r n : ℕ) (e : E)
      → n < size
      → window (put slots ((r + n) % size) e) size r (suc n) ≡ window slots size r n ++ e ∷ []
  unfolding window
  window-put slots size r zero e h =
      ap (λ k. put slots (k % size) e (r % size) ∷ []) (omega arith)
      ∙ ap (λ t. t ∷ []) (put_self slots (r % size) e)
  window-put slots size r (suc n) e h =
      ap (λ k. window (put slots (k % size) e) size r (suc (suc n))) (omega arith)
      ∙ ap₂ (λ a t. a ∷ t)
          (put_ne slots ((suc r + n) % size) e (r % size)
            (mod_ne size r (suc r + n) (omega arith) (omega arith) (omega arith)))
          (window-put slots size (suc r) n e (omega arith))
