-- ===== src/MemoryCopy/CopyCases/Low.antt =====
-- src/memory.cpp: the cases 1 to 128 of the switch in `Memory::memcpy`, in their order. A row is what a
-- case does, `mod0s k t` for k times MOD0, then t.
use zrsocket.Base.{List, [], ◌∷◌}
use zrsocket.MemoryCopy.{Mod, mod0, mod1, mod2, mod3, mod4, mod5, mod6, mod7, mod0s}

abbrev pub copy_cases_1 : List (List Mod)
copy_cases_1 =
    mod0s 0 mod1
    ∷ mod0s 0 mod2
    ∷ mod0s 0 mod3
    ∷ mod0s 0 mod4
    ∷ mod0s 0 mod5
    ∷ mod0s 0 mod6
    ∷ mod0s 0 mod7
    ∷ mod0s 0 mod0
    ∷ mod0s 1 mod1
    ∷ mod0s 1 mod2
    ∷ mod0s 1 mod3
    ∷ mod0s 1 mod4
    ∷ mod0s 1 mod5
    ∷ mod0s 1 mod6
    ∷ mod0s 1 mod7
    ∷ mod0s 1 mod0
    ∷ []

abbrev pub copy_cases_17 : List (List Mod)
copy_cases_17 =
    mod0s 2 mod1
    ∷ mod0s 2 mod2
    ∷ mod0s 2 mod3
    ∷ mod0s 2 mod4
    ∷ mod0s 2 mod5
    ∷ mod0s 2 mod6
    ∷ mod0s 2 mod7
    ∷ mod0s 2 mod0
    ∷ mod0s 3 mod1
    ∷ mod0s 3 mod2
    ∷ mod0s 3 mod3
    ∷ mod0s 3 mod4
    ∷ mod0s 3 mod5
    ∷ mod0s 3 mod6
    ∷ mod0s 3 mod7
    ∷ mod0s 3 mod0
    ∷ []

abbrev pub copy_cases_33 : List (List Mod)
copy_cases_33 =
    mod0s 4 mod1
    ∷ mod0s 4 mod2
    ∷ mod0s 4 mod3
    ∷ mod0s 4 mod4
    ∷ mod0s 4 mod5
    ∷ mod0s 4 mod6
    ∷ mod0s 4 mod7
    ∷ mod0s 4 mod0
    ∷ mod0s 5 mod1
    ∷ mod0s 5 mod2
    ∷ mod0s 5 mod3
    ∷ mod0s 5 mod4
    ∷ mod0s 5 mod5
    ∷ mod0s 5 mod6
    ∷ mod0s 5 mod7
    ∷ mod0s 5 mod0
    ∷ []

abbrev pub copy_cases_49 : List (List Mod)
copy_cases_49 =
    mod0s 6 mod1
    ∷ mod0s 6 mod2
    ∷ mod0s 6 mod3
    ∷ mod0s 6 mod4
    ∷ mod0s 6 mod5
    ∷ mod0s 6 mod6
    ∷ mod0s 6 mod7
    ∷ mod0s 6 mod0
    ∷ mod0s 7 mod1
    ∷ mod0s 7 mod2
    ∷ mod0s 7 mod3
    ∷ mod0s 7 mod4
    ∷ mod0s 7 mod5
    ∷ mod0s 7 mod6
    ∷ mod0s 7 mod7
    ∷ mod0s 7 mod0
    ∷ []

abbrev pub copy_cases_65 : List (List Mod)
copy_cases_65 =
    mod0s 8 mod1
    ∷ mod0s 8 mod2
    ∷ mod0s 8 mod3
    ∷ mod0s 8 mod4
    ∷ mod0s 8 mod5
    ∷ mod0s 8 mod6
    ∷ mod0s 8 mod7
    ∷ mod0s 8 mod0
    ∷ mod0s 9 mod1
    ∷ mod0s 9 mod2
    ∷ mod0s 9 mod3
    ∷ mod0s 9 mod4
    ∷ mod0s 9 mod5
    ∷ mod0s 9 mod6
    ∷ mod0s 9 mod7
    ∷ mod0s 9 mod0
    ∷ []

abbrev pub copy_cases_81 : List (List Mod)
copy_cases_81 =
    mod0s 10 mod1
    ∷ mod0s 10 mod2
    ∷ mod0s 10 mod3
    ∷ mod0s 10 mod4
    ∷ mod0s 10 mod5
    ∷ mod0s 10 mod6
    ∷ mod0s 10 mod7
    ∷ mod0s 10 mod0
    ∷ mod0s 11 mod1
    ∷ mod0s 11 mod2
    ∷ mod0s 11 mod3
    ∷ mod0s 11 mod4
    ∷ mod0s 11 mod5
    ∷ mod0s 11 mod6
    ∷ mod0s 11 mod7
    ∷ mod0s 11 mod0
    ∷ []

abbrev pub copy_cases_97 : List (List Mod)
copy_cases_97 =
    mod0s 12 mod1
    ∷ mod0s 12 mod2
    ∷ mod0s 12 mod3
    ∷ mod0s 12 mod4
    ∷ mod0s 12 mod5
    ∷ mod0s 12 mod6
    ∷ mod0s 12 mod7
    ∷ mod0s 12 mod0
    ∷ mod0s 13 mod1
    ∷ mod0s 13 mod2
    ∷ mod0s 13 mod3
    ∷ mod0s 13 mod4
    ∷ mod0s 13 mod5
    ∷ mod0s 13 mod6
    ∷ mod0s 13 mod7
    ∷ mod0s 13 mod0
    ∷ []

abbrev pub copy_cases_113 : List (List Mod)
copy_cases_113 =
    mod0s 14 mod1
    ∷ mod0s 14 mod2
    ∷ mod0s 14 mod3
    ∷ mod0s 14 mod4
    ∷ mod0s 14 mod5
    ∷ mod0s 14 mod6
    ∷ mod0s 14 mod7
    ∷ mod0s 14 mod0
    ∷ mod0s 15 mod1
    ∷ mod0s 15 mod2
    ∷ mod0s 15 mod3
    ∷ mod0s 15 mod4
    ∷ mod0s 15 mod5
    ∷ mod0s 15 mod6
    ∷ mod0s 15 mod7
    ∷ mod0s 15 mod0
    ∷ []
