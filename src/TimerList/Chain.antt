-- ===== src/TimerList/Chain.antt =====
-- The links of a run of timers, cut in two, joined, and under changes elsewhere.
use zrsocket.Base.{
  ◌≡◌, refl, sym, ap, ◌∙◌, Bool, true, false, not, ◌&&◌, ◌||◌, Option, none, some, List, [], ◌∷◌,
  ◌++◌, ◌==◌, arith,
}
use zrsocket.TimerList.{Ptr, Links}

abbrev pub has : Ptr → List Ptr → Bool
has a [] = false
has a (x ∷ xs) = (a == x) || has a xs

abbrev pub distinct : List Ptr → Bool
distinct [] = true
distinct (x ∷ xs) = not (has x xs) && distinct xs

-- The neighbour if there is one, else the timer itself.
abbrev pub or_self : Option Ptr → Ptr → Ptr
or_self none x = x
or_self (some p) x = p

abbrev pub first : List Ptr → Option Ptr → Option Ptr
first [] a = a
first (x ∷ xs) a = some x

abbrev pub last : List Ptr → Option Ptr → Option Ptr
last [] b = b
last (x ∷ xs) b = last xs (some x)

-- xs in a row, with b before and a behind it.
abbrev pub Linked : Links → Option Ptr → List Ptr → Option Ptr → Type 0
Linked h b [] a = Unit
Linked h b (x ∷ xs) a =
    (h.prev x ≡ or_self b x) × (h.next x ≡ or_self (first xs a) x) × Linked h (some x) xs a

-- Both links of a timer are the same.
pub record Same (h h' : Links) (x : Ptr) : Type 0 where
  pub prev : h'.prev x ≡ h.prev x
  pub next : h'.next x ≡ h.next x

pub first-append : (xs ys : List Ptr) (a : Option Ptr) → first (xs ++ ys) a ≡ first xs (first ys a)
first-append [] ys a = refl
first-append (x ∷ xs) ys a = refl

pub last-append : (xs ys : List Ptr) (b : Option Ptr) → last (xs ++ ys) b ≡ last ys (last xs b)
last-append [] ys b = refl
last-append (x ∷ xs) ys b = last-append xs ys (some x)

pub has-append : (x : Ptr) (xs ys : List Ptr) → has x (xs ++ ys) ≡ (has x xs || has x ys)
has-append x [] ys = refl
has-append x (y ∷ xs) ys = ground (arith, has-append x xs ys)

pub frame :
    (h h' : Links) (b : Option Ptr) (xs : List Ptr) (a : Option Ptr)
    → Linked h b xs a
    → ((x : Ptr) → has x xs ≡ true → Same h h' x)
    → Linked h' b xs a
frame h h' b [] a l same = tt
frame h h' b (x ∷ xs) a (p, n, l) same =
    let here = same x (ground arith) in
    (here.prev ∙ p, here.next ∙ n, frame h h' (some x) xs a l (λ y i. same y (ground arith)))

pub join :
    (h : Links) (b : Option Ptr) (xs ys : List Ptr) (a : Option Ptr)
    → Linked h b xs (first ys a)
    → Linked h (last xs b) ys a
    → Linked h b (xs ++ ys) a
join h b [] ys a l r = r
join h b (x ∷ xs) ys a (p, n, l) r =
    (p, n ∙ ap (λ o. or_self o x) (sym (first-append xs ys a)), join h (some x) xs ys a l r)

pub cut_left :
    (h : Links) (b : Option Ptr) (xs ys : List Ptr) (a : Option Ptr)
    → Linked h b (xs ++ ys) a
    → Linked h b xs (first ys a)
cut_left h b [] ys a l = tt
cut_left h b (x ∷ xs) ys a (p, n, l) =
    (p, n ∙ ap (λ o. or_self o x) (first-append xs ys a), cut_left h (some x) xs ys a l)

pub cut_right :
    (h : Links) (b : Option Ptr) (xs ys : List Ptr) (a : Option Ptr)
    → Linked h b (xs ++ ys) a
    → Linked h (last xs b) ys a
cut_right h b [] ys a l = l
cut_right h b (x ∷ xs) ys a (p, n, l) = cut_right h (some x) xs ys a l

-- A list is empty, or ends in a last timer.
pub data Snoc : List Ptr → Type 0 where
  nothing : Snoc []
  ends : (ys : List Ptr) (y : Ptr) → Snoc (ys ++ y ∷ [])

pub snoc : (xs : List Ptr) → Snoc xs
snoc [] = nothing
snoc (x ∷ xs) = onto x xs (snoc xs)
  where
    onto : (x : Ptr) (xs : List Ptr) → Snoc xs → Snoc (x ∷ xs)
    onto x _ nothing = ends [] x
    onto x _ (ends ys y) = ends (x ∷ ys) y
