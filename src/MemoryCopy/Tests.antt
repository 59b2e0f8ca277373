-- ===== src/MemoryCopy/Tests.antt =====
-- Runs of memcpy and memclear, and the witnesses of their laws.
use mathlib.Core.Option
use zrsocket.Base.{ℕ, ◌+◌, ◌*◌, ◌≡◌, inr, refl, some, Memory, copy_to, update, arith}
use zrsocket.MemoryCopy.{
  windows, unaligned_access, copy_word, clear_word, copy_blocks, copy_mods, copy_mod, clear_blocks,
  clear_mods, clear_mod,
}
use zrsocket.MemoryCopy.Calls.{memcpy, memclear}
use zrsocket.MemoryCopy.Whole.{memcpy_lem, memclear_lem, memcpy_bounds}

-- Byte i holds 3 * i + 1.
abbrev counted : Memory
counted i = 3 * i + 1

copy_thirteen :
    Option.map {B = ℕ × ℕ × ℕ × ℕ}
      (λ m. (m 99, m 100, m 112, m 113))
      (memcpy unaligned_access counted 100 7 13)
    ≡ some (298, 22, 58, 340)
unfolding memcpy copy_blocks copy_mods copy_mod copy_to update
copy_thirteen = refl

clear_many :
    Option.map {B = ℕ × ℕ × ℕ × ℕ}
      (λ m. (m 99, m 100, m 399, m 400))
      (memclear unaligned_access counted 100 300)
    ≡ some (298, 0, 0, 1201)
unfolding memclear clear_blocks clear_mods clear_mod copy_to update
clear_many = refl

memcpy_lem_example :
    memcpy unaligned_access counted 1000 7 300 ≡ some (copy_word counted 1000 7 300)
memcpy_lem_example = memcpy_lem unaligned_access counted 1000 7 300 (inr (omega arith))

memclear_lem_example : memclear windows counted 100 13 ≡ some (clear_word counted 100 13)
memclear_lem_example = memclear_lem windows counted 100 13

memcpy_bounds_example :
    (Option.map (λ m'. m' 113) (memcpy unaligned_access counted 100 7 13) ≡ some (counted 113))
    × (Option.map (λ m'. m' 113) (memclear unaligned_access counted 100 13) ≡ some (counted 113))
memcpy_bounds_example =
    memcpy_bounds unaligned_access counted 100 7 13 113 (inr (omega arith)) (inr (omega arith))
