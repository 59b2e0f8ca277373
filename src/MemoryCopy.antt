-- ===== src/MemoryCopy.antt =====
-- src/memory.cpp and include/zrsocket/memory.h: `Memory::memcpy` and `Memory::memclear`.
-- A load and a store of a w-byte integer move w bytes, in either byte order. Source and destination
-- are indices of one block of cells. `std::memcpy` and `std::memset` are the standard library's.
pub mod CopyCases
pub mod ClearCases
pub mod Calls
pub mod Rows
pub mod Words
pub mod CopyLaws
pub mod ClearLaws
pub mod Whole
mod Tests
use zrsocket.Base.{
  ℕ, zero, suc, ◌+◌, ◌-◌, Bool, true, false, Option, none, some, List, [], ◌∷◌, get_or, replicate,
  ltb, ◌==◌, if◌then◌else◌, Memory, slice, copy_to,
}

-- The macros MOD0 to MOD7.
pub data Mod : Type 0 where
  mod0 mod1 mod2 mod3 mod4 mod5 mod6 mod7 : Mod

-- The platform: ZRSOCKET_OS_WINDOWS, or another one on which an integer can be loaded from and stored
-- at any address. memory.h warns that memcpy may crash on iOS: such a platform is neither.
pub data Platform : Type 0 where
  windows unaligned_access : Platform

-- k times MOD0, then t.
abbrev pub mod0s : ℕ → Mod → List Mod
mod0s zero t = t ∷ []
mod0s (suc k) t = mod0 ∷ mod0s k t

-- The locals `dest_64` and `src_64`, and the memory.
pub record Copying : Type 0 where
  pub dest_64 : ℕ
  pub src_64 : ℕ
  pub memory : Memory

-- *(intw_t *)dest = *(intw_t *)src
abbrev pub copy_word : Memory → ℕ → ℕ → ℕ → Memory
copy_word m dest src w = copy_to m dest (slice m src w)

-- *(intw_t *)dest = 0
abbrev pub clear_word : Memory → ℕ → ℕ → Memory
clear_word m dest w = copy_to m dest (replicate w 0)

-- The macros of memcpy: MOD0 moves the pointers on, the others do not.
unfoldable pub copy_mod : Mod → Copying → Copying
copy_mod mod0 c = record {
  dest_64 = c.dest_64 + 8;
  src_64 = c.src_64 + 8;
  memory = copy_word c.memory c.dest_64 c.src_64 8;
}
copy_mod mod1 c = record c { memory = copy_word c.memory c.dest_64 c.src_64 1 }
copy_mod mod2 c = record c { memory = copy_word c.memory c.dest_64 c.src_64 2 }
copy_mod mod3 c = record c {
  memory = copy_word (copy_word c.memory c.dest_64 c.src_64 2) (c.dest_64 + 2) (c.src_64 + 2) 1;
}
copy_mod mod4 c = record c { memory = copy_word c.memory c.dest_64 c.src_64 4 }
copy_mod mod5 c = record c {
  memory = copy_word (copy_word c.memory c.dest_64 c.src_64 4) (c.dest_64 + 4) (c.src_64 + 4) 1;
}
copy_mod mod6 c = record c {
  memory = copy_word (copy_word c.memory c.dest_64 c.src_64 4) (c.dest_64 + 4) (c.src_64 + 4) 2;
}
copy_mod mod7 c = record c {
  memory =
      copy_word
        (copy_word (copy_word c.memory c.dest_64 c.src_64 4) (c.dest_64 + 4) (c.src_64 + 4) 2)
        (c.dest_64 + 4 + 2) (c.src_64 + 4 + 2) 1;
}

unfoldable pub copy_mods : List Mod → Copying → Copying
copy_mods [] c = c
copy_mods (t ∷ row) c = copy_mods row (copy_mod t c)

-- The macros of memclear; `src_64` is not used.
unfoldable pub clear_mod : Mod → Copying → Copying
clear_mod mod0 c = record c { dest_64 = c.dest_64 + 8; memory = clear_word c.memory c.dest_64 8 }
clear_mod mod1 c = record c { memory = clear_word c.memory c.dest_64 1 }
clear_mod mod2 c = record c { memory = clear_word c.memory c.dest_64 2 }
clear_mod mod3 c = record c {
  memory = clear_word (clear_word c.memory c.dest_64 2) (c.dest_64 + 2) 1;
}
clear_mod mod4 c = record c { memory = clear_word c.memory c.dest_64 4 }
clear_mod mod5 c = record c {
  memory = clear_word (clear_word c.memory c.dest_64 4) (c.dest_64 + 4) 1;
}
clear_mod mod6 c = record c {
  memory = clear_word (clear_word c.memory c.dest_64 4) (c.dest_64 + 4) 2;
}
clear_mod mod7 c = record c {
  memory =
      clear_word (clear_word (clear_word c.memory c.dest_64 4) (c.dest_64 + 4) 2)
        (c.dest_64 + 4 + 2) 1;
}

unfoldable pub clear_mods : List Mod → Copying → Copying
clear_mods [] c = c
clear_mods (t ∷ row) c = clear_mods row (clear_mod t c)

-- The switch: the row of case n, and nothing where there is no such case.
abbrev pub switch : List (List Mod) → ℕ → List Mod
switch cases zero = []
switch cases (suc i) = get_or cases i []

-- `for (; n > 256; n -= 256)` with 32 MOD0 in its body, then the switch; the first argument is fuel.
unfoldable pub copy_blocks : List (List Mod) → ℕ → ℕ → Copying → Option Copying
copy_blocks cases zero n c = none
copy_blocks cases (suc fuel) n c = elim (ltb 256 n) [
  | true ↦ copy_blocks cases fuel (n - 256) (copy_mods (mod0s 31 mod0) c)
  | false ↦ some (copy_mods (switch cases n) c)
]

unfoldable pub clear_blocks : List (List Mod) → ℕ → ℕ → Copying → Option Copying
clear_blocks cases zero n c = none
clear_blocks cases (suc fuel) n c = elim (ltb 256 n) [
  | true ↦ clear_blocks cases fuel (n - 256) (clear_mods (mod0s 31 mod0) c)
  | false ↦ some (clear_mods (switch cases n) c)
]
