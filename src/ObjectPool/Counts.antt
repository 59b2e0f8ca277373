-- ===== src/ObjectPool/Counts.antt =====
-- How often an object stands in a list of objects.
use zrsocket.Base.{
  true, false, ℕ, zero, suc, ◌+◌, ◌≤◌, ◌<◌, ◌≡◌, refl, List, [], ◌∷◌, ◌++◌, length, inl, inr,
  Bool-cases, leb, leb→le, leb→lt, ◌==◌, if◌then◌else◌, arith,
}
use zrsocket.ObjectPool.{push_new, no_objects}

abbrev pub once : ℕ → ℕ → ℕ
once x y = if x == y then 1 else 0

abbrev pub count : ℕ → List ℕ → ℕ
count x [] = 0
count x (y ∷ ys) = once x y + count x ys

pub once_le : (x y : ℕ) → once x y ≤ 1
once_le x y = ground arith

pub once_ne : (x y : ℕ) → y < x → once x y ≡ 0
once_ne x y h = ground arith

pub count-append : (x : ℕ) (xs ys : List ℕ) → count x (xs ++ ys) ≡ count x xs + count x ys
count-append x [] ys = omega arith
count-append x (y ∷ xs) ys = omega (arith, count-append x xs ys)

-- New objects are below the heap's end, and none of them stands twice.
pub count-push_new_below :
    (x base n : ℕ) (free : List ℕ) → x < base → count x (push_new base n free) ≡ count x free
unfolding push_new
count-push_new_below x base zero free h = refl
count-push_new_below x base (suc n) free h =
    ground (arith, count-push_new_below x (suc base) n (base ∷ free))

pub count-push_new_above :
    (x base n : ℕ) (free : List ℕ) → base + n ≤ x → count x (push_new base n free) ≡ count x free
unfolding push_new
count-push_new_above x base zero free h = refl
count-push_new_above x base (suc n) free h =
    ground (arith, count-push_new_above x (suc base) n (base ∷ free))

pub count-push_new :
    (x base n : ℕ) (free : List ℕ)
    → base ≤ x
    → count x free ≡ 0
    → count x (push_new base n free) ≤ 1
unfolding push_new
count-push_new x base zero free h e = omega arith
count-push_new x base (suc n) free h e = elim (Bool-cases (leb x base)) [
  | inl le ↦ omega (
    arith,
    count-push_new_below x (suc base) n (base ∷ free) (omega (arith, leb→le x base le)),
    once_le x base,
  )
  | inr gt ↦
      count-push_new x (suc base) n (base ∷ free) (omega (arith, leb→lt x base gt))
        (omega (arith, once_ne x base (leb→lt x base gt)))
]

pub length-push_new : (base n : ℕ) (free : List ℕ) → length (push_new base n free) ≡ n + length free
unfolding push_new
length-push_new base zero free = omega arith
length-push_new base (suc n) free = omega (arith, length-push_new (suc base) n (base ∷ free))

pub some_free_lem : (free : List ℕ) → no_objects free ≡ false → 0 < length free
some_free_lem [] e = absurd (cc)
some_free_lem (x ∷ free) e = omega arith

pub none_free_lem : (free : List ℕ) → no_objects free ≡ true → length free ≡ 0
none_free_lem [] e = refl
none_free_lem (x ∷ free) e = absurd (cc)
