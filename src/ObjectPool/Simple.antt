-- ===== src/ObjectPool/Simple.antt =====
-- SimpleObjectPool: who has which object, and how many free ones are kept.
use zrsocket.Base.{
  ℕ, suc, ◌+◌, ◌≤◌, ◌<◌, ◌≡◌, refl, ap, inl, inr, Bool, Option, List, [], ◌∷◌, ◌++◌, length, ltb,
  leb, leb→le, leb→lt, ltb→lt, Bool-cases, if◌then◌else◌, if_intro, arith,
}
use zrsocket.ObjectPool.{
  SimplePool, grow, simple_init, simple_take_back, simple_pop, simple_push, no_objects,
  at_least_one, at_most,
}
use zrsocket.ObjectPool.Counts.{
  count, count-append, count-push_new_below, count-push_new_above, some_free_lem, none_free_lem,
  count-push_new, length-push_new,
}
use zrsocket.ObjectPool.Owners.{handed, at_least_one_pos, at_most_le}

-- `out` lists the objects that callers have; a deleted object has no owner.
pub record IsSimple (p : SimplePool) (out : List ℕ) : Type 0 where
  pub one_owner : (x : ℕ) → count x p.free_objects + count x out ≤ 1
  pub from_heap : (x : ℕ) → p.heap ≤ x → count x p.free_objects + count x out ≡ 0
  pub few_free : length p.free_objects ≤ p.max_size
  pub some_growth : 0 < p.grow_size
  pub small_growth : p.grow_size ≤ p.max_size

grow-IsSimple :
    (n : ℕ) (p : SimplePool) (out : List ℕ)
    → IsSimple p out
    → n + length p.free_objects ≤ p.max_size
    → IsSimple (grow n p) out
unfolding grow
grow-IsSimple n p out v room = record {
  one_owner = λ x. elim (Bool-cases (leb p.heap x)) [
    | inl le ↦ omega (
      arith,
      v.from_heap x (leb→le p.heap x le),
      count-push_new x p.heap n p.free_objects (leb→le p.heap x le)
          (omega (arith, v.from_heap x (leb→le p.heap x le))),
    )
    | inr gt ↦
        omega (
          arith,
          v.one_owner x,
          count-push_new_below x p.heap n p.free_objects (leb→lt p.heap x gt),
        )
  ];
  from_heap = λ x h.
      omega (arith, v.from_heap x (omega arith), count-push_new_above x p.heap n p.free_objects h);
  few_free = omega (arith, length-push_new p.heap n p.free_objects);
  some_growth = v.some_growth;
  small_growth = v.small_growth;
}

abbrev Popped : List ℕ → SimplePool × Option ℕ → Type 0
Popped out x = IsSimple x.0 (handed x.1 out) × (length (handed x.1 out) ≡ suc (length out))

take_back-Popped :
    (q : SimplePool) (out l : List ℕ)
    → q.free_objects ≡ l
    → IsSimple q out
    → 0 < length l
    → Popped out (simple_take_back q l)
take_back-Popped q out [] e v h = absurd (omega arith)
take_back-Popped q out (x ∷ free) e v h = (
  record {
    one_owner = λ y. omega (arith, v.one_owner y, ap (count y) e);
    from_heap = λ y k. omega (arith, v.from_heap y k, ap (count y) e);
    few_free = omega (arith, v.few_free, ap length e);
    some_growth = v.some_growth;
    small_growth = v.small_growth;
  },
  refl,
)

-- `pop` always hands out an object, and one that neither the pool nor any caller has then besides.
pub simple_pop_lem :
    (p : SimplePool) (out : List ℕ)
    → IsSimple p out
    → let (p', object) = simple_pop p in
      IsSimple p' (handed object out) × (length (handed object out) ≡ suc (length out))
unfolding simple_pop
simple_pop_lem p out v =
    if_intro (Popped out) (no_objects p.free_objects)
      (λ none_free.
        take_back-Popped (grow p.grow_size p) out (grow p.grow_size p).free_objects refl
          (grow-IsSimple p.grow_size p out v
            (omega (arith, v.small_growth, none_free_lem p.free_objects none_free)))
          grown)
      (λ some_free.
        take_back-Popped p out p.free_objects refl v (some_free_lem p.free_objects some_free))
  where
    grown : 0 < length (grow p.grow_size p).free_objects
    grown =
        unfold grow in
        omega (arith, v.some_growth, length-push_new p.heap p.grow_size p.free_objects)

-- An object that a caller gives back is kept exactly if there is room, and deleted otherwise;
-- in both cases nobody else has it.
pub simple_push_lem :
    (p : SimplePool) (x : ℕ) (xs ys : List ℕ)
    → IsSimple p (xs ++ x ∷ ys)
    → let (p', deleted) = simple_push x p in
      IsSimple p' (xs ++ ys)
      × (length p'.free_objects
          ≡ (if deleted then length p.free_objects else suc (length p.free_objects)))
      × (count x (xs ++ ys) ≡ 0)
unfolding simple_push
simple_push_lem p x xs ys v =
    if_intro
      (λ (r : SimplePool × Bool).
        IsSimple r.0 (xs ++ ys)
        × (length r.0.free_objects
            ≡ (if r.1 then length p.free_objects else suc (length p.free_objects)))
        × (count x (xs ++ ys) ≡ 0))
      (ltb (length p.free_objects) p.max_size)
      (λ room. (
        record {
          one_owner =
              λ y. omega (arith, v.one_owner y, count-append y xs (x ∷ ys), count-append y xs ys);
          from_heap = λ y h.
              omega (arith, v.from_heap y h, count-append y xs (x ∷ ys), count-append y xs ys);
          few_free = omega (arith, ltb→lt _ _ room);
          some_growth = v.some_growth;
          small_growth = v.small_growth;
        },
        refl,
        not_out,
      ))
      (λ full. (
        record {
          one_owner =
              λ y. omega (arith, v.one_owner y, count-append y xs (x ∷ ys), count-append y xs ys);
          from_heap = λ y h.
              omega (arith, v.from_heap y h, count-append y xs (x ∷ ys), count-append y xs ys);
          few_free = v.few_free;
          some_growth = v.some_growth;
          small_growth = v.small_growth;
        },
        refl,
        not_out,
      ))
  where
    self : (x : ℕ) → count x (x ∷ []) ≡ 1
    self x = ground arith

    not_out : count x (xs ++ ys) ≡ 0
    not_out = omega (arith, v.one_owner x, count-append x xs (x ∷ ys), count-append x xs ys, self x)

-- `init` leaves a sound pool, whatever its arguments, if callers have no object then.
pub simple_init-IsSimple :
    (max_size init_size grow_size : ℕ) (p : SimplePool)
    → IsSimple (simple_init max_size init_size grow_size p) []
unfolding simple_init
simple_init-IsSimple most first growth p =
    grow-IsSimple _ _ []
      (record {
        one_owner = λ x. omega arith;
        from_heap = λ x h. omega arith;
        few_free = omega arith;
        some_growth = growth_pos (at_least_one most) growth (at_least_one_pos most);
        small_growth = at_most_le (at_least_one most) (at_least_one growth);
      })
      (omega (arith, at_most_le (at_least_one most) first))
  where
    growth_pos : (limit n : ℕ) → 0 < limit → 0 < at_most limit (at_least_one n)
    growth_pos limit n h = ground arith
