-- ===== src/ObjectPool/Tests.antt =====
-- The theorems about the object pools at concrete inputs.
use zrsocket.Base.{◌≡◌, [], ◌∷◌, ◌++◌, length}
use zrsocket.ObjectPool.{
  ChunkPool, SimplePool, push_new, alloc_i, alloc_chunks, clear, init, pop, push, grow, simple_init,
  simple_pop,
}
use zrsocket.ObjectPool.Owners.{IsSound, handed, inits, pops, pushes, Run-IsSound}
use zrsocket.ObjectPool.Simple.{IsSimple, simple_init-IsSimple, simple_pop_lem}

abbrev fresh_pool : ChunkPool
fresh_pool = record {
  max_chunk_size = 0;
  per_chunk_size = 0;
  free_objects = [];
  object_chunks = [];
  heap = 100;
}

-- At most two chunks of three objects, one of them made at first.
abbrev small_pool : ChunkPool
small_pool = init 2 1 3 fresh_pool

-- Two objects are handed out, and the first is given back.
Run-IsSound_example : IsSound (push 102 (pop (pop small_pool).0).0) (101 ∷ [])
unfolding pop init alloc_chunks alloc_i push_new clear
Run-IsSound_example = Run-IsSound (pushes 102 (101 ∷ []) [] (pops (pops (inits 2 1 3 fresh_pool))))

abbrev fresh_simple : SimplePool
fresh_simple = record { max_size = 0; grow_size = 0; free_objects = []; heap = 100 }

abbrev small_simple : SimplePool
small_simple = simple_init 4 1 2 fresh_simple

simple_pop_lem_example :
    let (p', object) = simple_pop small_simple in
    IsSimple p' (handed object []) × (length (handed object []) ≡ 1)
simple_pop_lem_example = simple_pop_lem small_simple [] (simple_init-IsSimple 4 1 2 fresh_simple)

one_out : IsSimple (simple_pop small_simple).0 ([] ++ 100 ∷ [])
unfolding simple_pop simple_init grow push_new
one_out = (simple_pop_lem small_simple [] (simple_init-IsSimple 4 1 2 fresh_simple)).0
