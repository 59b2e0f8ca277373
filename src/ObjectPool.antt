-- ===== src/ObjectPool.antt =====
-- include/zrsocket/object_pool.h: pools of objects that are handed out and taken back.
-- An object is its address. `heap` is the next address that operator new has not yet given: each of
-- its objects is new. The list of free objects is written with its back at the head, which is
-- where `push_back`, `back` and `pop_back` work. The mutex makes each operation one step.
pub mod Counts
pub mod Owners
pub mod Simple
mod Tests
use zrsocket.Base.{
  ℕ, zero, suc, ◌+◌, Bool, true, false, Option, none, some, List, [], ◌∷◌, length, ltb, leb, ◌==◌,
  if◌then◌else◌,
}

-- n new objects from `base` on, each pushed at the back.
unfoldable pub push_new : ℕ → ℕ → List ℕ → List ℕ
push_new base zero free = free
push_new base (suc n) free = push_new (suc base) n (base ∷ free)

-- ZRSocketObjectPool; a chunk is the address of its first object.
pub record ChunkPool : Type 0 where
  pub max_chunk_size : ℕ
  pub per_chunk_size : ℕ
  pub free_objects : List ℕ
  pub object_chunks : List ℕ
  pub heap : ℕ

unfoldable pub alloc_i : ChunkPool → ChunkPool
alloc_i p = record p {
  free_objects = push_new p.heap p.per_chunk_size p.free_objects;
  object_chunks = p.heap ∷ p.object_chunks;
  heap = p.heap + p.per_chunk_size;
}

-- `for (i = 0; i < init_chunk_size; ++i) alloc_i();`
unfoldable pub alloc_chunks : ℕ → ChunkPool → ChunkPool
alloc_chunks zero p = p
alloc_chunks (suc n) p = alloc_chunks n (alloc_i p)

unfoldable pub clear : ChunkPool → ChunkPool
clear p = record p { free_objects = []; object_chunks = [] }

abbrev pub at_least_one : ℕ → ℕ
at_least_one n = if n == 0 then 1 else n

abbrev pub at_most : ℕ → ℕ → ℕ
at_most limit n = if ltb limit n then limit else n

unfoldable pub init : ℕ → ℕ → ℕ → ChunkPool → ChunkPool
init max_chunk_size init_chunk_size per_chunk_size p =
    let most = at_least_one max_chunk_size in
    alloc_chunks (at_most most init_chunk_size)
      (record (clear p) { max_chunk_size = most; per_chunk_size = at_least_one per_chunk_size })

-- back() and pop_back(); none where the list is empty.
abbrev pub take_back : ChunkPool → List ℕ → ChunkPool × Option ℕ
take_back p [] = (p, none)
take_back p (x ∷ free) = (record p { free_objects = free }, some x)

abbrev pub no_objects : List ℕ → Bool
no_objects [] = true
no_objects (x ∷ free) = false

unfoldable pub pop : ChunkPool → ChunkPool × Option ℕ
pop p =
    if no_objects p.free_objects
    then (if leb p.max_chunk_size (length p.object_chunks)
        then (p, none)
        else take_back (alloc_i p) (alloc_i p).free_objects)
    else take_back p p.free_objects

unfoldable pub push : ℕ → ChunkPool → ChunkPool
push object p = record p { free_objects = object ∷ p.free_objects }

-- SimpleObjectPool
pub record SimplePool : Type 0 where
  pub max_size : ℕ
  pub grow_size : ℕ
  pub free_objects : List ℕ
  pub heap : ℕ

unfoldable pub grow : ℕ → SimplePool → SimplePool
grow size p = record p { free_objects = push_new p.heap size p.free_objects; heap = p.heap + size }

unfoldable pub simple_init : ℕ → ℕ → ℕ → SimplePool → SimplePool
simple_init max_size init_size grow_size p =
    let most = at_least_one max_size in
    grow (at_most most init_size) (record p {
      max_size = most;
      grow_size = at_most most (at_least_one grow_size);
      free_objects = [];
    })

abbrev pub simple_take_back : SimplePool → List ℕ → SimplePool × Option ℕ
simple_take_back p [] = (p, none)
simple_take_back p (x ∷ free) = (record p { free_objects = free }, some x)

unfoldable pub simple_pop : SimplePool → SimplePool × Option ℕ
simple_pop p =
    if no_objects p.free_objects
    then simple_take_back (grow p.grow_size p) (grow p.grow_size p).free_objects
    else simple_take_back p p.free_objects

-- The pool, and whether the object was deleted.
unfoldable pub simple_push : ℕ → SimplePool → SimplePool × Bool
simple_push object p =
    if ltb (length p.free_objects) p.max_size
    then (record p { free_objects = object ∷ p.free_objects }, false)
    else (p, true)
