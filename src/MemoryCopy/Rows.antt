-- ===== src/MemoryCopy/Rows.antt =====
-- Rows of macros: how many bytes one covers, and the row that a case of the switch has.
use zrsocket.Base.{
  ℕ, zero, suc, ◌+◌, ◌≤◌, ◌<◌, ◌≡◌, ◌⊎◌, inl, inr, refl, subst, Bool, true, false, ◌&&◌, ◌||◌, List,
  [], ◌∷◌, get_or, ◌==◌, arith,
}
use zrsocket.MemoryCopy.{Mod, mod0, mod1, mod2, mod3, mod4, mod5, mod6, mod7, switch}

-- The bytes that a macro writes.
abbrev pub width : Mod → ℕ
width mod0 = 8
width mod1 = 1
width mod2 = 2
width mod3 = 3
width mod4 = 4
width mod5 = 5
width mod6 = 6
width mod7 = 7

abbrev pub span : List Mod → ℕ
span [] = 0
span (t ∷ row) = width t + span row

-- Only the last macro of a row may be one that leaves the pointers where they are.
abbrev pub closed : List Mod → Bool
closed [] = true
closed (t ∷ row) = (span row == 0) || ((width t == 8) && closed row)

-- The row of case n, n + 1 and so on covers n bytes, n + 1 and so on.
abbrev pub fits : ℕ → List (List Mod) → Bool
fits n [] = true
fits n (row ∷ rows) = ((span row == n) && closed row) && fits (suc n) rows

abbrev pub size : List (List Mod) → ℕ
size [] = 0
size (row ∷ rows) = suc (size rows)

-- A row of the bytes asked for.
pub record Covers (row : List Mod) (n : ℕ) : Type 0 where
  pub bytes : span row ≡ n
  pub is_closed : closed row ≡ true

fits-get :
    (rows : List (List Mod)) (n i : ℕ)
    → fits n rows ≡ true
    → i < size rows
    → Covers (get_or rows i []) (n + i)
fits-get [] n i ok lt = absurd (omega arith)
fits-get (row ∷ rows) n zero ok lt = record { bytes = ground arith; is_closed = ground arith }
fits-get (row ∷ rows) n (suc i) ok lt =
    subst (Covers (get_or rows i [])) next (fits-get rows (suc n) i (ground arith) (omega arith))
  where
    next : suc n + i ≡ n + suc i
    next = omega arith

-- The switch covers n bytes, for every n up to its last case.
pub switch-Covers :
    (rows : List (List Mod)) (n : ℕ) → fits 1 rows ≡ true → n ≤ size rows → Covers (switch rows n) n
switch-Covers rows zero ok le = record { bytes = refl; is_closed = refl }
switch-Covers rows (suc i) ok le =
    subst (Covers (get_or rows i [])) next (fits-get rows 1 i ok (omega arith))
  where
    next : 1 + i ≡ suc i
    next = omega arith

width_positive : (t : Mod) → 0 < width t
width_positive mod0 = omega arith
width_positive mod1 = omega arith
width_positive mod2 = omega arith
width_positive mod3 = omega arith
width_positive mod4 = omega arith
width_positive mod5 = omega arith
width_positive mod6 = omega arith
width_positive mod7 = omega arith

Mod-cases : (t : Mod) → (t ≡ mod0) ⊎ ((width t == 8) ≡ false)
Mod-cases mod0 = inl refl
Mod-cases mod1 = inr refl
Mod-cases mod2 = inr refl
Mod-cases mod3 = inr refl
Mod-cases mod4 = inr refl
Mod-cases mod5 = inr refl
Mod-cases mod6 = inr refl
Mod-cases mod7 = inr refl

-- A closed row ends, or goes on behind MOD0.
pub closed-cons :
    (t : Mod) (row : List Mod)
    → closed (t ∷ row) ≡ true
    → ((t ≡ mod0) × (closed row ≡ true)) ⊎ (row ≡ [])
closed-cons t [] ok = inr refl
closed-cons t (u ∷ row) ok = elim (Mod-cases t) [
  | inl e ↦ inl (e, ground (arith, width_positive u))
  | inr ne ↦ absurd (ground (arith, width_positive u))
]
