-- ===== src/MemoryCopy/Words.antt =====
-- Copying and clearing in two steps, and the bytes that stay as they are.
use zrsocket.Base.{
  ℕ, zero, suc, ◌+◌, ◌≤◌, ◌<◌, ◌≡◌, ◌⊎◌, inl, inr, refl, sym, ap, ◌∙◌, List, [], ◌∷◌, ◌++◌, length,
  replicate, Memory, update, update_ne, slice, slice_eq, slice-add, length-slice, copy_to,
  copy_to_outside, arith,
}
use zrsocket.MemoryCopy.{copy_word, clear_word}

-- The n cells from `dest` on and those from `src` on have none in common.
abbrev pub Disjoint : ℕ → ℕ → ℕ → Type 0
Disjoint dest src n = (dest + n ≤ src) ⊎ (src + n ≤ dest)

pub copy_to-append :
    (m : Memory) (i : ℕ) (xs ys : List ℕ)
    → copy_to m i (xs ++ ys) ≡ copy_to (copy_to m i xs) (i + length xs) ys
unfolding copy_to
copy_to-append m i [] ys = ap (λ k. copy_to m k ys) (omega arith)
copy_to-append m i (x ∷ xs) ys =
    copy_to-append (update m i x) (suc i) xs ys
    ∙ ap (λ k. copy_to (copy_to (update m i x) (suc i) xs) k ys) (omega arith)

pub copy_to_behind :
    (m : Memory) (i : ℕ) (xs : List ℕ) (j : ℕ) → i + length xs ≤ j → copy_to m i xs j ≡ m j
unfolding copy_to
copy_to_behind m i [] j h = refl
copy_to_behind m i (x ∷ xs) j h =
    copy_to_behind (update m i x) (suc i) xs j (omega arith) ∙ update_ne m i x j (λ e. omega arith)

pub length-replicate : (n x : ℕ) → length (replicate n x) ≡ n
length-replicate zero x = refl
length-replicate (suc n) x = ap suc (length-replicate n x)

replicate-add : (a b x : ℕ) → replicate (a + b) x ≡ replicate a x ++ replicate b x
replicate-add zero b x = ap (λ n. replicate n x) zero_add
  where
    zero_add : zero + b ≡ b
    zero_add = omega arith
replicate-add (suc a) b x = ap (λ n. replicate n x) suc_add ∙ ap (λ t. x ∷ t) (replicate-add a b x)
  where
    suc_add : suc a + b ≡ suc (a + b)
    suc_add = omega arith

-- A copy is a copy of its first a bytes, then of the rest.
pub copy_word-add :
    (m : Memory) (dest src a b : ℕ)
    → Disjoint dest src (a + b)
    → copy_word (copy_word m dest src a) (dest + a) (src + a) b ≡ copy_word m dest src (a + b)
copy_word-add m dest src a b apart =
    ap (copy_to (copy_word m dest src a) (dest + a)) same
    ∙ ap (λ k. copy_to (copy_word m dest src a) (dest + k) (slice m (src + a) b))
        (sym (length-slice m src a))
    ∙ sym (copy_to-append m dest (slice m src a) (slice m (src + a) b))
    ∙ ap (copy_to m dest) (sym (slice-add m src a b))
  where
    kept :
        (j : ℕ)
        → src + a ≤ j
        → j < src + a + b
        → Disjoint dest src (a + b)
        → copy_word m dest src a j ≡ m j
    kept j lo hi (inl before) =
        copy_to_behind m dest (slice m src a) j (omega (arith, length-slice m src a))
    kept j lo hi (inr behind) = copy_to_outside m dest (slice m src a) j (omega arith)

    same : slice (copy_word m dest src a) (src + a) b ≡ slice m (src + a) b
    same = slice_eq (copy_word m dest src a) m (src + a) b (λ j lo hi. kept j lo hi apart)

pub clear_word-add :
    (m : Memory) (dest a b : ℕ)
    → clear_word (clear_word m dest a) (dest + a) b ≡ clear_word m dest (a + b)
clear_word-add m dest a b =
    ap (λ k. copy_to (clear_word m dest a) (dest + k) (replicate b 0)) (sym (length-replicate a 0))
    ∙ sym (copy_to-append m dest (replicate a 0) (replicate b 0))
    ∙ ap (copy_to m dest) (sym (replicate-add a b 0))

pub Disjoint-prefix : (dest src a b : ℕ) → Disjoint dest src (a + b) → Disjoint dest src a
Disjoint-prefix dest src a b (inl h) = inl (omega arith)
Disjoint-prefix dest src a b (inr h) = inr (omega arith)

pub Disjoint-rest : (dest src a b : ℕ) → Disjoint dest src (a + b) → Disjoint (dest + a) (src + a) b
Disjoint-rest dest src a b (inl h) = inl (omega arith)
Disjoint-rest dest src a b (inr h) = inr (omega arith)

pub six : (i : ℕ) → i + 4 + 2 ≡ i + 6
six i = omega arith

pub add_zero : (n : ℕ) → n + 0 ≡ n
add_zero n = omega arith
