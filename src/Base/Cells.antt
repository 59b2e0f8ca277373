-- ===== src/Base/Cells.antt =====
-- Memory as the source's pointers see it: a block of cells, counted from the block's start.
use Prim.Native.Nat.{ℕ, zero, suc, ◌+◌, ◌-◌, ◌≤◌, ◌<◌}
use mathlib.Core.Path.{◌≡◌, refl, ap, ◌∙◌}
use mathlib.Core.Logic.{◌≢◌}
use mathlib.Core.List.{List, [], ◌∷◌, ◌++◌}
use native.Mathlib.Omega.{arith}
use zrsocket.Base.Tests.{◌==◌, if◌then◌else◌}
use zrsocket.Base.Lists.{length, take, drop}

abbrev pub Memory : Type 0
Memory = ℕ → ℕ

-- m[i] = v
unfoldable pub update : Memory → ℕ → ℕ → Memory
update m i v j = if j == i then v else m j

-- The n cells from i on.
abbrev pub slice : Memory → ℕ → ℕ → List ℕ
slice m i zero = []
slice m i (suc n) = m i ∷ slice m (suc i) n

-- memcpy(m + i, bytes, length bytes)
unfoldable pub copy_to : Memory → ℕ → List ℕ → Memory
copy_to m i [] = m
copy_to m i (x ∷ xs) = copy_to (update m i x) (suc i) xs

pub update_self : (m : Memory) (i v : ℕ) → update m i v i ≡ v
unfolding update
update_self m i v = ground arith

pub update_ne : (m : Memory) (i v j : ℕ) → j ≢ i → update m i v j ≡ m j
unfolding update
update_ne m i v j h = ground arith

pub length-slice : (m : Memory) (i n : ℕ) → length (slice m i n) ≡ n
length-slice m i zero = refl
length-slice m i (suc n) = ap suc (length-slice m (suc i) n)

-- Two blocks that agree on a range have the same slice of it.
pub slice_eq :
    (m m' : Memory) (i n : ℕ)
    → ((j : ℕ) → i ≤ j → j < i + n → m j ≡ m' j)
    → slice m i n ≡ slice m' i n
slice_eq m m' i zero h = refl
slice_eq m m' i (suc n) h = ground (
  arith,
  h i (omega arith) (omega arith),
  slice_eq m m' (suc i) n (λ j p q. h j (omega arith) (omega arith)),
)

pub slice-add : (m : Memory) (i n k : ℕ) → slice m i (n + k) ≡ slice m i n ++ slice m (i + n) k
slice-add m i zero k = ground arith
slice-add m i (suc n) k =
    ap (λ t. slice m i t) add_suc
    ∙ ap (λ t. m i ∷ t) (slice-add m (suc i) n k ∙ ap (λ t. slice m (suc i) n ++ slice m t k) start)
  where
    add_suc : suc n + k ≡ suc (n + k)
    add_suc = omega arith

    start : suc i + n ≡ i + suc n
    start = omega arith

pub copy_to_outside : (m : Memory) (i : ℕ) (xs : List ℕ) (j : ℕ) → j < i → copy_to m i xs j ≡ m j
unfolding copy_to
copy_to_outside m i [] j h = refl
copy_to_outside m i (x ∷ xs) j h =
    copy_to_outside (update m i x) (suc i) xs j (omega arith) ∙ update_ne m i x j (λ e. omega arith)

pub slice-copy_to : (m : Memory) (i : ℕ) (xs : List ℕ) → slice (copy_to m i xs) i (length xs) ≡ xs
unfolding copy_to
slice-copy_to m i [] = refl
slice-copy_to m i (x ∷ xs) = ground (
  arith,
  copy_to_outside (update m i x) (suc i) xs i (omega arith),
  update_self m i x,
  slice-copy_to (update m i x) (suc i) xs,
)

-- Appending bytes behind a range extends the range by those bytes.
pub slice-copy_to_append :
    (m : Memory) (i n : ℕ) (xs : List ℕ)
    → slice (copy_to m (i + n) xs) i (n + length xs) ≡ slice m i n ++ xs
slice-copy_to_append m i n xs = ground (
  arith,
  slice-add (copy_to m (i + n) xs) i n (length xs),
  slice-copy_to m (i + n) xs,
  slice_eq (copy_to m (i + n) xs) m i n (λ j p q. copy_to_outside m (i + n) xs j q),
)

pub take-slice : (k : ℕ) (m : Memory) (i n : ℕ) → k ≤ n → take k (slice m i n) ≡ slice m i k
take-slice zero m i n h = refl
take-slice (suc k) m i zero h = absurd (omega arith)
take-slice (suc k) m i (suc n) h = ap (λ t. m i ∷ t) (take-slice k m (suc i) n (omega arith))

pub drop-slice :
    (k : ℕ) (m : Memory) (i n : ℕ) → k ≤ n → drop k (slice m i n) ≡ slice m (i + k) (n - k)
drop-slice zero m i n h = ground arith
drop-slice (suc k) m i zero h = absurd (omega arith)
drop-slice (suc k) m i (suc n) h = drop-slice k m (suc i) n (omega arith) ∙ ground (arith)
