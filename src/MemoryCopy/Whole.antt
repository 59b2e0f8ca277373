-- ===== src/MemoryCopy/Whole.antt =====
-- src/memory.cpp: the two functions against one assignment of all their bytes.
use mathlib.Core.Option
use zrsocket.Base.{
  ℕ, suc, ◌+◌, ◌≤◌, ◌<◌, ◌≡◌, ◌⊎◌, inl, inr, refl, ap, some, ltb, ltb→le, replicate, Bool-cases,
  Memory, slice, copy_to_outside, length-slice, arith,
}
use zrsocket.MemoryCopy.{Platform, windows, unaligned_access, copy_word, clear_word}
use zrsocket.MemoryCopy.CopyCases.{copy_cases}
use zrsocket.MemoryCopy.ClearCases.{clear_cases}
use zrsocket.MemoryCopy.Calls.{copying, memcpy, memclear}
use zrsocket.MemoryCopy.CopyLaws.{copy_switch_lem, copy_blocks_lem}
use zrsocket.MemoryCopy.ClearLaws.{clear_switch_lem, clear_blocks_lem}
use zrsocket.MemoryCopy.Words.{Disjoint, copy_to_behind, length-replicate}

-- On Windows, and on another platform if integers can be loaded and stored at any address there
-- (memory.h warns of iOS), `Memory::memcpy` returns, whatever n is, and has then copied exactly the n
-- bytes, as one assignment of n bytes does, where source and destination do not overlap.
pub memcpy_lem :
    (p : Platform) (m : Memory) (dest src n : ℕ)
    → Disjoint dest src n
    → memcpy p m dest src n ≡ some (copy_word m dest src n)
unfolding memcpy
memcpy_lem windows m dest src n h = elim (Bool-cases (ltb 256 n)) [
  | inl more ↦ rw (more, memcpy) refl
  | inr few ↦
      rw (few, memcpy)
        (ap some (
          copy_switch_lem copy_cases n (copying m dest src) refl (omega (arith, ltb→le 256 n few))
            h))
]
memcpy_lem unaligned_access m dest src n h =
    copy_blocks_lem copy_cases refl refl (suc n) n (copying m dest src) h (omega arith)

-- On Windows, and on another platform if integers can be stored at any address there,
-- `Memory::memclear` returns, whatever n is, and has then set exactly the n bytes
-- to 0, as one assignment of n bytes does.
pub memclear_lem :
    (p : Platform) (m : Memory) (dest n : ℕ) → memclear p m dest n ≡ some (clear_word m dest n)
unfolding memclear
memclear_lem windows m dest n = elim (Bool-cases (ltb 256 n)) [
  | inl more ↦ rw (more, memclear) refl
  | inr few ↦
      rw (few, memclear)
        (ap some (
          clear_switch_lem clear_cases n (copying m dest 0) refl (omega (arith, ltb→le 256 n few))))
]
memclear_lem unaligned_access m dest n =
    clear_blocks_lem clear_cases refl refl (suc n) n (copying m dest 0) (omega arith)

-- On Windows, and on another platform if integers can be loaded and stored at any address there
-- (memory.h warns of iOS), the two functions return, and touch no byte outside of the n bytes from `dest` on: what is before
-- `dest` or from `dest + n` on is as it was. For memcpy, where the two ranges do not overlap.
pub memcpy_bounds :
    (p : Platform) (m : Memory) (dest src n j : ℕ)
    → Disjoint dest src n
    → (j < dest) ⊎ (dest + n ≤ j)
    → (Option.map (λ m'. m' j) (memcpy p m dest src n) ≡ some (m j))
      × (Option.map (λ m'. m' j) (memclear p m dest n) ≡ some (m j))
memcpy_bounds p m dest src n j apart out = (
  rw (memcpy_lem p m dest src n apart) (ap some (copied out)),
  rw (memclear_lem p m dest n) (ap some (cleared out)),
)
  where
    copied : (j < dest) ⊎ (dest + n ≤ j) → copy_word m dest src n j ≡ m j
    copied (inl before) = copy_to_outside m dest (slice m src n) j before
    copied (inr behind) =
        copy_to_behind m dest (slice m src n) j (omega (arith, length-slice m src n))

    cleared : (j < dest) ⊎ (dest + n ≤ j) → clear_word m dest n j ≡ m j
    cleared (inl before) = copy_to_outside m dest (replicate n 0) j before
    cleared (inr behind) =
        copy_to_behind m dest (replicate n 0) j (omega (arith, length-replicate n 0))
