-- ===== src/EventLoopGroup.antt =====
-- include/zrsocket/event_loop_group.h: EventLoopGroup, which hands its event loops out in turn. The
-- class of the loops is a template argument: what `new TEventLoop()` with its `init` makes and what
-- `add_handler` of a loop does are arguments. The vector of loops is a function with its length.
pub mod Turns
pub mod Handlers
mod Tests
use zrsocket.Base.{
  ℕ, zero, suc, ◌+◌, ◌%◌, ℤ, pos, negsuc, Bool, true, false, List, [], ◌∷◌, ltb, ◌==◌,
  if◌then◌else◌,
}

module _ {ℓ} (L : Type ℓ) where
  pub record Group : Type ℓ where
    pub loops : ℕ → L
    pub loops_size : ℕ
    pub next_index : ℕ

module _ {ℓ} {L : Type ℓ} where
  -- event_loops_[i] = l
  abbrev pub set_loop : (ℕ → L) → ℕ → L → ℕ → L
  set_loop loops i l j = if j == i then l else loops j

  -- assign_event_loop; a loop is named by its index.
  unfoldable pub assign_event_loop : Group L → Group L × ℕ
  assign_event_loop g =
      if ltb 1 g.loops_size
      then (record g { next_index = (g.next_index + 1) % g.loops_size }, g.next_index)
      else (g, 0)

  unfoldable pub add_loops : (ℕ → L) → ℕ → Group L → Group L
  add_loops new_loop zero g = g
  add_loops new_loop (suc n) g = add_loops new_loop n (record g {
    loops = set_loop g.loops g.loops_size (new_loop g.loops_size);
    loops_size = suc g.loops_size;
  })

  unfoldable pub init : (new_loop : ℕ → L) (num : ℕ) → Group L → Group L
  init new_loop num g = add_loops new_loop (if ltb num 1 then 1 else num) g

  unfoldable pub clear : Group L → Group L
  clear g = record g { loops_size = 0 }

  module _ (add : L → L × ℤ) where
    -- loop->add_handler(handler, event_mask) >= 0
    abbrev pub accepted : ℤ → Bool
    accepted (pos _) = true
    accepted (negsuc _) = false

    -- The loop of add_handler; the first argument is how many rounds are left.
    unfoldable pub try_loops : ℕ → Group L → Group L × ℤ
    try_loops zero g = (g, negsuc 0)
    try_loops (suc i) g =
        let a = assign_event_loop g in
        let r = add (g.loops a.1) in
        let g' = record a.0 { loops = set_loop g.loops a.1 r.0 } in
        let rest = try_loops i g' in if accepted r.1 then (g', pos 0) else rest

    unfoldable pub add_handler : Group L → Group L × ℤ
    add_handler g = try_loops g.loops_size g

  -- The loops that calls of assign_event_loop hand out, one after the other.
  unfoldable pub assigned : ℕ → Group L → List ℕ
  assigned zero g = []
  assigned (suc n) g = let a = assign_event_loop g in a.1 ∷ assigned n a.0
