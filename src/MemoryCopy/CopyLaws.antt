-- ===== src/MemoryCopy/CopyLaws.antt =====
-- src/memory.cpp: what the macros of memcpy, a row of them and the loop do to the memory.
use mathlib.Core.Option
use mathlib.Core.Path.{ap₂}
use zrsocket.Base.{
  ℕ, zero, suc, ◌+◌, ◌-◌, ◌≤◌, ◌<◌, ◌≡◌, inl, inr, refl, sym, ap, ◌∙◌, subst, true, some, List, [],
  ◌∷◌, ltb, ltb→lt, ltb→le, Bool-cases, arith, copy_to,
}
use zrsocket.MemoryCopy.{
  Mod, mod0, mod1, mod2, mod3, mod4, mod5, mod6, mod7, mod0s, Copying, copy_word, copy_mod,
  copy_mods, switch, copy_blocks,
}
use zrsocket.MemoryCopy.Rows.{width, span, closed, closed-cons, fits, size, switch-Covers}
use zrsocket.MemoryCopy.Words.{
  Disjoint, Disjoint-prefix, Disjoint-rest, six, add_zero, copy_word-add,
}

-- What a macro does to the memory.
copy_mod_lem :
    (t : Mod) (c : Copying)
    → Disjoint c.dest_64 c.src_64 (width t)
    → (copy_mod t c).memory ≡ copy_word c.memory c.dest_64 c.src_64 (width t)
unfolding copy_mod
copy_mod_lem mod0 c h = refl
copy_mod_lem mod1 c h = refl
copy_mod_lem mod2 c h = refl
copy_mod_lem mod4 c h = refl
copy_mod_lem mod3 c h = copy_word-add c.memory c.dest_64 c.src_64 2 1 h
copy_mod_lem mod5 c h = copy_word-add c.memory c.dest_64 c.src_64 4 1 h
copy_mod_lem mod6 c h = copy_word-add c.memory c.dest_64 c.src_64 4 2 h
copy_mod_lem mod7 c h =
    ap (λ m. copy_word m (c.dest_64 + 4 + 2) (c.src_64 + 4 + 2) 1)
      (copy_word-add c.memory c.dest_64 c.src_64 4 2 (Disjoint-prefix c.dest_64 c.src_64 6 1 h))
    ∙ ap₂ (λ i j. copy_word (copy_word c.memory c.dest_64 c.src_64 6) i j 1) (six c.dest_64)
        (six c.src_64)
    ∙ copy_word-add c.memory c.dest_64 c.src_64 6 1 h

-- A closed row does what one assignment of all its bytes does.
copy_mods_lem :
    (row : List Mod) (c : Copying)
    → closed row ≡ true
    → Disjoint c.dest_64 c.src_64 (span row)
    → (copy_mods row c).memory ≡ copy_word c.memory c.dest_64 c.src_64 (span row)
unfolding copy_mods copy_mod copy_to
copy_mods_lem [] c ok h = refl
copy_mods_lem (t ∷ row) c ok h = elim (closed-cons t row ok) [
  | inl (e, rest) ↦
      let g = subst (λ u. Disjoint c.dest_64 c.src_64 (width u + span row)) e h in
      rw e (
        copy_mods_lem row (copy_mod mod0 c) rest (Disjoint-rest c.dest_64 c.src_64 8 (span row) g)
        ∙ copy_word-add c.memory c.dest_64 c.src_64 8 (span row) g)
  | inr e ↦
      let g = subst (λ r. Disjoint c.dest_64 c.src_64 (width t + span r)) e h in
      rw e (
        copy_mod_lem t c (subst (Disjoint c.dest_64 c.src_64) (add_zero (width t)) g)
        ∙ ap (copy_word c.memory c.dest_64 c.src_64) (sym (add_zero (width t))))
]

-- The pointers after the 32 MOD0 of the loop.
copy_block_dest : (c : Copying) → (copy_mods (mod0s 31 mod0) c).dest_64 ≡ c.dest_64 + 256
unfolding copy_mods copy_mod
copy_block_dest c = omega arith

copy_block_src : (c : Copying) → (copy_mods (mod0s 31 mod0) c).src_64 ≡ c.src_64 + 256
unfolding copy_mods copy_mod
copy_block_src c = omega arith

-- The switch, for as many bytes as it has cases for.
pub copy_switch_lem :
    (cases : List (List Mod)) (n : ℕ) (c : Copying)
    → fits 1 cases ≡ true
    → n ≤ size cases
    → Disjoint c.dest_64 c.src_64 (n)
    → (copy_mods (switch cases n) c).memory ≡ copy_word c.memory c.dest_64 c.src_64 n
copy_switch_lem cases n c ok le h =
    let row = switch-Covers cases n ok le in
    copy_mods_lem (switch cases n) c row.is_closed
      (subst (Disjoint c.dest_64 c.src_64) (sym row.bytes) h)
    ∙ ap (copy_word c.memory c.dest_64 c.src_64) row.bytes

-- The loop and the switch behind it do what one assignment of n bytes does.
pub copy_blocks_lem :
    (cases : List (List Mod))
    → fits 1 cases ≡ true
    → size cases ≡ 256
    → (fuel n : ℕ) (c : Copying) → Disjoint c.dest_64 c.src_64 (n)
    → n < fuel
    → Option.map (λ k. k.memory) (copy_blocks cases fuel n c)
      ≡ some (copy_word c.memory c.dest_64 c.src_64 n)
unfolding copy_blocks
copy_blocks_lem cases ok full zero n c h enough = absurd (omega arith)
copy_blocks_lem cases ok full (suc fuel) n c h enough = elim (Bool-cases (ltb 256 n)) [
  | inl more ↦
      let long : 256 + (n - 256) ≡ n = omega (arith, ltb→lt 256 n more) in
      let g = subst (Disjoint c.dest_64 c.src_64) (sym long) h in
      rw (more, Option.map)
        (copy_blocks_lem cases ok full fuel (n - 256) (copy_mods (mod0s 31 mod0) c)
            (rw (copy_block_dest c, copy_block_src c)
              (Disjoint-rest c.dest_64 c.src_64 256 (n - 256) g))
            (omega (arith, ltb→lt 256 n more))
          ∙ ap some (
              rw
                (
                  copy_block_dest c,
                  copy_block_src c,
                  copy_mods_lem (mod0s 31 mod0) c refl
                      (Disjoint-prefix c.dest_64 c.src_64 256 (n - 256) g),
                )
                (copy_word-add c.memory c.dest_64 c.src_64 256 (n - 256) g
                  ∙ ap (copy_word c.memory c.dest_64 c.src_64) long)))
  | inr last ↦
      rw (last, Option.map)
        (ap some (copy_switch_lem cases n c ok (omega (arith, full, ltb→le 256 n last)) h))
]
