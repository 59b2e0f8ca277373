-- ===== src/ObjectPool/Owners.antt =====
-- Who has which object of the pool of chunks: the pool or a caller.
use native.Mathlib.Nat.{mul-suc, mul-le-mul_left}
use zrsocket.Base.{
  ℕ, zero, suc, ◌+◌, ◌*◌, ◌≤◌, ◌<◌, ◌≡◌, inl, inr, refl, sym, ap, true, false, Option, none, some,
  List, [], ◌∷◌, ◌++◌, length, length-append, ltb, leb, leb→le, leb→lt, lt→ltb, Bool-cases,
  if◌then◌else◌, if_intro, arith,
}
use zrsocket.ObjectPool.{
  ChunkPool, alloc_i, clear, init, alloc_chunks, no_objects, take_back, pop, push, at_least_one,
  at_most,
}
use zrsocket.ObjectPool.Counts.{
  count, count-append, count-push_new_below, count-push_new_above, some_free_lem, none_free_lem,
  count-push_new, length-push_new,
}

-- `out` lists the objects that callers have.
pub record IsSound (p : ChunkPool) (out : List ℕ) : Type 0 where
  pub one_owner : (x : ℕ) → count x p.free_objects + count x out ≤ 1
  pub from_heap : (x : ℕ) → p.heap ≤ x → count x p.free_objects + count x out ≡ 0
  pub all_there : length p.free_objects + length out ≡ p.per_chunk_size * length p.object_chunks
  pub some_object : 0 < p.per_chunk_size
  pub few_chunks : length p.object_chunks ≤ p.max_chunk_size

-- What callers have after a pop.
abbrev pub handed : Option ℕ → List ℕ → List ℕ
handed none out = out
handed (some x) out = x ∷ out

alloc_i-IsSound :
    (p : ChunkPool) (out : List ℕ)
    → IsSound p out
    → length p.object_chunks < p.max_chunk_size
    → IsSound (alloc_i p) out
unfolding alloc_i
alloc_i-IsSound p out v room = record {
  one_owner = λ x. elim (Bool-cases (leb p.heap x)) [
    | inl le ↦ omega (
      arith,
      v.from_heap x (leb→le p.heap x le),
      count-push_new x p.heap p.per_chunk_size p.free_objects (leb→le p.heap x le)
          (omega (arith, v.from_heap x (leb→le p.heap x le))),
    )
    | inr gt ↦ omega (
      arith,
      v.one_owner x,
      count-push_new_below x p.heap p.per_chunk_size p.free_objects (leb→lt p.heap x gt),
    )
  ];
  from_heap = λ x h. omega (
    arith,
    v.from_heap x (omega arith),
    count-push_new_above x p.heap p.per_chunk_size p.free_objects h,
  );
  all_there = omega (
    arith,
    v.all_there,
    length-push_new p.heap p.per_chunk_size p.free_objects,
    mul-suc p.per_chunk_size (length p.object_chunks),
  );
  some_object = v.some_object;
  few_chunks = omega arith;
}

-- The back of a list that is not empty goes to the caller.
take_back-IsSound :
    (p : ChunkPool) (x : ℕ) (free out : List ℕ)
    → p.free_objects ≡ x ∷ free
    → IsSound p out
    → IsSound (record p { free_objects = free }) (x ∷ out)
take_back-IsSound p x free out e v = record {
  one_owner = λ y. omega (arith, v.one_owner y, ap (count y) e);
  from_heap = λ y h. omega (arith, v.from_heap y h, ap (count y) e);
  all_there = omega (arith, v.all_there, ap length e);
  some_object = v.some_object;
  few_chunks = v.few_chunks;
}

-- How many objects the pool may have made at most.
abbrev pub limit : ChunkPool → ℕ
limit p = p.per_chunk_size * p.max_chunk_size

-- After a pop: the object has its one owner, and there was one exactly below the limit.
abbrev Popped : ChunkPool → List ℕ → ChunkPool × Option ℕ → Type 0
Popped p out x =
    IsSound x.0 (handed x.1 out)
    × (length (handed x.1 out)
        ≡ (if ltb (length out) (limit p) then suc (length out) else length out))

made_below_limit :
    (p : ChunkPool) (out : List ℕ)
    → IsSound p out
    → p.per_chunk_size * length p.object_chunks ≤ limit p
made_below_limit p out v = mul-le-mul_left p.per_chunk_size v.few_chunks

take_back-Popped :
    (p q : ChunkPool) (out l : List ℕ)
    → q.free_objects ≡ l
    → IsSound q out
    → 0 < length l
    → length out < limit p
    → Popped p out (take_back q l)
take_back-Popped p q out [] e v some_free below = absurd (omega arith)
take_back-Popped p q out (x ∷ free) e v some_free below = (
  take_back-IsSound q x free out e v,
  ap (λ b. if b then suc (length out) else length out) (sym (lt→ltb (length out) (limit p) below)),
)

not_ltb : (a b : ℕ) → b ≤ a → ltb a b ≡ false
not_ltb a b h = ground arith

-- `pop` hands out an object exactly if callers have fewer than max_chunk_size * per_chunk_size, and
-- it is one that neither the pool nor any caller has then besides.
pub pop_lem :
    (p : ChunkPool) (out : List ℕ)
    → IsSound p out
    → let (p', object) = pop p in
      IsSound p' (handed object out)
      × (length (handed object out)
          ≡ (if ltb (length out) (limit p) then suc (length out) else length out))
unfolding pop
pop_lem p out v =
    if_intro (Popped p out) (no_objects p.free_objects)
      (λ none_free.
        if_intro (Popped p out) (leb p.max_chunk_size (length p.object_chunks))
          (λ all_made. (
            v,
            ap (λ b. if b then suc (length out) else length out)
                (sym (
                  not_ltb (length out) (limit p) (
                    omega (
                      arith,
                      none_free_lem p.free_objects none_free,
                      v.all_there,
                      mul-le-mul_left p.per_chunk_size (leb→le _ _ all_made),
                    )))),
          ))
          (λ room.
            let w = alloc_i-IsSound p out v (leb→lt _ _ room) in
            take_back-Popped p (alloc_i p) out (alloc_i p).free_objects refl w
              (made_some (leb→lt _ _ room)) (below_limit none_free (leb→lt _ _ room))))
      (λ some_free.
        take_back-Popped p p out p.free_objects refl v (some_free_lem p.free_objects some_free) (
          omega
            (arith, some_free_lem p.free_objects some_free, v.all_there, made_below_limit p out v)))
  where
    made_some : length p.object_chunks < p.max_chunk_size → 0 < length (alloc_i p).free_objects
    made_some h =
        unfold alloc_i in
        omega (arith, v.some_object, length-push_new p.heap p.per_chunk_size p.free_objects)

    below_limit :
        no_objects p.free_objects ≡ true
        → length p.object_chunks < p.max_chunk_size
        → length out < limit p
    below_limit e h = omega (
      arith,
      none_free_lem p.free_objects e,
      v.all_there,
      v.some_object,
      mul-suc p.per_chunk_size (length p.object_chunks),
      mul-le-mul_left p.per_chunk_size (suc_le h),
    )
      where
        suc_le : {a b : ℕ} → a < b → suc a ≤ b
        suc_le h = omega arith

-- A caller gives back an object that it has.
pub push_lem :
    (p : ChunkPool) (x : ℕ) (xs ys : List ℕ)
    → IsSound p (xs ++ x ∷ ys)
    → IsSound (push x p) (xs ++ ys)
unfolding push
push_lem p x xs ys v = record {
  one_owner = λ y. omega (arith, v.one_owner y, count-append y xs (x ∷ ys), count-append y xs ys);
  from_heap =
      λ y h. omega (arith, v.from_heap y h, count-append y xs (x ∷ ys), count-append y xs ys);
  all_there = omega (arith, v.all_there, length-append xs (x ∷ ys), length-append xs ys);
  some_object = v.some_object;
  few_chunks = v.few_chunks;
}

alloc_chunks-IsSound :
    (n : ℕ) (p : ChunkPool)
    → IsSound p []
    → length p.object_chunks + n ≤ p.max_chunk_size
    → IsSound (alloc_chunks n p) []
unfolding alloc_chunks alloc_i
alloc_chunks-IsSound zero p v h = v
alloc_chunks-IsSound (suc n) p v h =
    alloc_chunks-IsSound n (alloc_i p) (alloc_i-IsSound p [] v (omega arith)) (omega arith)

pub at_least_one_pos : (n : ℕ) → 0 < at_least_one n
at_least_one_pos n = ground arith

pub at_most_le : (limit n : ℕ) → at_most limit n ≤ limit
at_most_le limit n = ground arith

-- `init` leaves a sound pool, whatever its arguments, if callers have no object then.
pub init-IsSound :
    (max_chunk_size init_chunk_size per_chunk_size : ℕ) (p : ChunkPool)
    → IsSound (init max_chunk_size init_chunk_size per_chunk_size p) []
unfolding init clear
init-IsSound most first per p =
    alloc_chunks-IsSound _ _
      (record {
        one_owner = λ x. omega arith;
        from_heap = λ x h. omega arith;
        all_there = omega arith;
        some_object = at_least_one_pos per;
        few_chunks = omega arith;
      })
      (omega (arith, at_most_le (at_least_one most) first))

-- Calls of pop and push in any order; the last index lists what callers have.
pub data Run : ChunkPool → List ℕ → Type 0 where
  inits :
      (max_chunk_size init_chunk_size per_chunk_size : ℕ) (p : ChunkPool)
      → Run (init max_chunk_size init_chunk_size per_chunk_size p) []
  pops : {p : ChunkPool} {out : List ℕ} → Run p out → Run (pop p).0 (handed (pop p).1 out)
  pushes :
      {p : ChunkPool} (x : ℕ) (xs ys : List ℕ) → Run p (xs ++ x ∷ ys) → Run (push x p) (xs ++ ys)

-- After one init of the pool and any calls of pop and push, in any order, in which callers give back
-- only what they have: each object has one owner, and the pool has made max_chunk_size chunks at most.
-- A clear or a second init is not among these calls.
pub Run-IsSound : {p : ChunkPool} {out : List ℕ} → Run p out → IsSound p out
Run-IsSound (inits a b c p) = init-IsSound a b c p
Run-IsSound (pops {p} {out} r) = (pop_lem p out (Run-IsSound r)).0
Run-IsSound (pushes {p} x xs ys r) = push_lem p x xs ys (Run-IsSound r)
