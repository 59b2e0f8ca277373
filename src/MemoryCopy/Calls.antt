-- ===== src/MemoryCopy/Calls.antt =====
-- src/memory.cpp: the two functions. On Windows more than 256 bytes go to the standard library's
-- `std::memcpy` and `std::memset`; elsewhere the loop runs on n + 1 rounds of fuel.
use mathlib.Core.Option
use zrsocket.Base.{ℕ, suc, true, false, Option, some, ltb, Memory}
use zrsocket.MemoryCopy.{
  Platform, windows, unaligned_access, Copying, copy_word, clear_word, copy_mods, clear_mods,
  switch, copy_blocks, clear_blocks,
}
use zrsocket.MemoryCopy.CopyCases.{copy_cases}
use zrsocket.MemoryCopy.ClearCases.{clear_cases}

abbrev pub copying : Memory → ℕ → ℕ → Copying
copying m dest src = record { dest_64 = dest; src_64 = src; memory = m }

unfoldable pub memcpy : Platform → Memory → (dest src n : ℕ) → Option Memory
memcpy windows m dest src n = elim (ltb 256 n) [
  | true ↦ some (copy_word m dest src n)
  | false ↦ some (copy_mods (switch copy_cases n) (copying m dest src)).memory
]
memcpy unaligned_access m dest src n =
    Option.map (λ c. c.memory) (copy_blocks copy_cases (suc n) n (copying m dest src))

unfoldable pub memclear : Platform → Memory → (dest n : ℕ) → Option Memory
memclear windows m dest n = elim (ltb 256 n) [
  | true ↦ some (clear_word m dest n)
  | false ↦ some (clear_mods (switch clear_cases n) (copying m dest 0)).memory
]
memclear unaligned_access m dest n =
    Option.map (λ c. c.memory) (clear_blocks clear_cases (suc n) n (copying m dest 0))
