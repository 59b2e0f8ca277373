-- ===== src/MemoryCopy/ClearLaws.antt =====
-- src/memory.cpp: what the macros of memclear, a row of them and the loop do to the memory.
use mathlib.Core.Option
use zrsocket.Base.{
  ℕ, zero, suc, ◌+◌, ◌-◌, ◌≤◌, ◌<◌, ◌≡◌, inl, inr, refl, sym, ap, ◌∙◌, true, some, List, [], ◌∷◌,
  ltb, ltb→lt, ltb→le, Bool-cases, arith, copy_to,
}
use zrsocket.MemoryCopy.{
  Mod, mod0, mod1, mod2, mod3, mod4, mod5, mod6, mod7, mod0s, Copying, switch, clear_word,
  clear_mod, clear_mods, clear_blocks,
}
use zrsocket.MemoryCopy.Rows.{width, span, closed, closed-cons, fits, size, switch-Covers}
use zrsocket.MemoryCopy.Words.{six, add_zero, clear_word-add}

-- What a macro does to the memory.
clear_mod_lem :
    (t : Mod) (c : Copying) → (clear_mod t c).memory ≡ clear_word c.memory c.dest_64 (width t)
unfolding clear_mod
clear_mod_lem mod0 c = refl
clear_mod_lem mod1 c = refl
clear_mod_lem mod2 c = refl
clear_mod_lem mod4 c = refl
clear_mod_lem mod3 c = clear_word-add c.memory c.dest_64 2 1
clear_mod_lem mod5 c = clear_word-add c.memory c.dest_64 4 1
clear_mod_lem mod6 c = clear_word-add c.memory c.dest_64 4 2
clear_mod_lem mod7 c =
    ap (λ m. clear_word m (c.dest_64 + 4 + 2) 1) (clear_word-add c.memory c.dest_64 4 2)
    ∙ ap (λ i. clear_word (clear_word c.memory c.dest_64 6) i 1) (six c.dest_64)
    ∙ clear_word-add c.memory c.dest_64 6 1

-- A closed row does what one assignment of all its bytes does.
clear_mods_lem :
    (row : List Mod) (c : Copying)
    → closed row ≡ true
    → (clear_mods row c).memory ≡ clear_word c.memory c.dest_64 (span row)
unfolding clear_mods clear_mod copy_to
clear_mods_lem [] c ok = refl
clear_mods_lem (t ∷ row) c ok = elim (closed-cons t row ok) [
  | inl (e, rest) ↦
      rw e (
        clear_mods_lem row (clear_mod mod0 c) rest ∙ clear_word-add c.memory c.dest_64 8 (span row))
  | inr e ↦ rw e (clear_mod_lem t c ∙ ap (clear_word c.memory c.dest_64) (sym (add_zero (width t))))
]

-- The pointers after the 32 MOD0 of the loop.
clear_block_dest : (c : Copying) → (clear_mods (mod0s 31 mod0) c).dest_64 ≡ c.dest_64 + 256
unfolding clear_mods clear_mod
clear_block_dest c = omega arith

-- The switch, for as many bytes as it has cases for.
pub clear_switch_lem :
    (cases : List (List Mod)) (n : ℕ) (c : Copying)
    → fits 1 cases ≡ true
    → n ≤ size cases
    → (clear_mods (switch cases n) c).memory ≡ clear_word c.memory c.dest_64 n
clear_switch_lem cases n c ok le =
    let row = switch-Covers cases n ok le in
    clear_mods_lem (switch cases n) c row.is_closed ∙ ap (clear_word c.memory c.dest_64) row.bytes

-- The loop and the switch behind it do what one assignment of n bytes does.
pub clear_blocks_lem :
    (cases : List (List Mod))
    → fits 1 cases ≡ true
    → size cases ≡ 256
    → (fuel n : ℕ) (c : Copying) → n < fuel
    → Option.map (λ k. k.memory) (clear_blocks cases fuel n c)
      ≡ some (clear_word c.memory c.dest_64 n)
unfolding clear_blocks
clear_blocks_lem cases ok full zero n c enough = absurd (omega arith)
clear_blocks_lem cases ok full (suc fuel) n c enough = elim (Bool-cases (ltb 256 n)) [
  | inl more ↦
      let long : 256 + (n - 256) ≡ n = omega (arith, ltb→lt 256 n more) in
      rw (more, Option.map)
        (clear_blocks_lem cases ok full fuel (n - 256) (clear_mods (mod0s 31 mod0) c)
            (omega (arith, ltb→lt 256 n more))
          ∙ ap some (
              rw (clear_block_dest c, clear_mods_lem (mod0s 31 mod0) c refl)
                (clear_word-add c.memory c.dest_64 256 (n - 256)
                  ∙ ap (clear_word c.memory c.dest_64) long)))
  | inr last ↦
      rw (last, Option.map)
        (ap some (clear_switch_lem cases n c ok (omega (arith, full, ltb→le 256 n last))))
]
