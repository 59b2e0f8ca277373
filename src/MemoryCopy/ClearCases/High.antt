-- ===== src/MemoryCopy/ClearCases/High.antt =====
-- src/memory.cpp: the cases 129 to 256 of the switch in `Memory::memclear`, in their order. A row is what a
-- case does, `mod0s k t` for k times MOD0, then t.
use zrsocket.Base.{List, [], ◌∷◌}
use zrsocket.MemoryCopy.{Mod, mod0, mod1, mod2, mod3, mod4, mod5, mod6, mod7, mod0s}

abbrev pub clear_cases_129 : List (List Mod)
clear_cases_129 =
    mod0s 16 mod1
    ∷ mod0s 16 mod2
    ∷ mod0s 16 mod3
    ∷ mod0s 16 mod4
    ∷ mod0s 16 mod5
    ∷ mod0s 16 mod6
    ∷ mod0s 16 mod7
    ∷ mod0s 16 mod0
    ∷ mod0s 17 mod1
    ∷ mod0s 17 mod2
    ∷ mod0s 17 mod3
    ∷ mod0s 17 mod4
    ∷ mod0s 17 mod5
    ∷ mod0s 17 mod6
    ∷ mod0s 17 mod7
    ∷ mod0s 17 mod0
    ∷ []

abbrev pub clear_cases_145 : List (List Mod)
clear_cases_145 =
    mod0s 18 mod1
    ∷ mod0s 18 mod2
    ∷ mod0s 18 mod3
    ∷ mod0s 18 mod4
    ∷ mod0s 18 mod5
    ∷ mod0s 18 mod6
    ∷ mod0s 18 mod7
    ∷ mod0s 18 mod0
    ∷ mod0s 19 mod1
    ∷ mod0s 19 mod2
    ∷ mod0s 19 mod3
    ∷ mod0s 19 mod4
    ∷ mod0s 19 mod5
    ∷ mod0s 19 mod6
    ∷ mod0s 19 mod7
    ∷ mod0s 19 mod0
    ∷ []

abbrev pub clear_cases_161 : List (List Mod)
clear_cases_161 =
    mod0s 20 mod1
    ∷ mod0s 20 mod2
    ∷ mod0s 20 mod3
    ∷ mod0s 20 mod4
    ∷ mod0s 20 mod5
    ∷ mod0s 20 mod6
    ∷ mod0s 20 mod7
    ∷ mod0s 20 mod0
    ∷ mod0s 21 mod1
    ∷ mod0s 21 mod2
    ∷ mod0s 21 mod3
    ∷ mod0s 21 mod4
    ∷ mod0s 21 mod5
    ∷ mod0s 21 mod6
    ∷ mod0s 21 mod7
    ∷ mod0s 21 mod0
    ∷ []

abbrev pub clear_cases_177 : List (List Mod)
clear_cases_177 =
    mod0s 22 mod1
    ∷ mod0s 22 mod2
    ∷ mod0s 22 mod3
    ∷ mod0s 22 mod4
    ∷ mod0s 22 mod5
    ∷ mod0s 22 mod6
    ∷ mod0s 22 mod7
    ∷ mod0s 22 mod0
    ∷ mod0s 23 mod1
    ∷ mod0s 23 mod2
    ∷ mod0s 23 mod3
    ∷ mod0s 23 mod4
    ∷ mod0s 23 mod5
    ∷ mod0s 23 mod6
    ∷ mod0s 23 mod7
    ∷ mod0s 23 mod0
    ∷ []

abbrev pub clear_cases_193 : List (List Mod)
clear_cases_193 =
    mod0s 24 mod1
    ∷ mod0s 24 mod2
    ∷ mod0s 24 mod3
    ∷ mod0s 24 mod4
    ∷ mod0s 24 mod5
    ∷ mod0s 24 mod6
    ∷ mod0s 24 mod7
    ∷ mod0s 24 mod0
    ∷ mod0s 25 mod1
    ∷ mod0s 25 mod2
    ∷ mod0s 25 mod3
    ∷ mod0s 25 mod4
    ∷ mod0s 25 mod5
    ∷ mod0s 25 mod6
    ∷ mod0s 25 mod7
    ∷ mod0s 25 mod0
    ∷ []

abbrev pub clear_cases_209 : List (List Mod)
clear_cases_209 =
    mod0s 26 mod1
    ∷ mod0s 26 mod2
    ∷ mod0s 26 mod3
    ∷ mod0s 26 mod4
    ∷ mod0s 26 mod5
    ∷ mod0s 26 mod6
    ∷ mod0s 26 mod7
    ∷ mod0s 26 mod0
    ∷ mod0s 27 mod1
    ∷ mod0s 27 mod2
    ∷ mod0s 27 mod3
    ∷ mod0s 27 mod4
    ∷ mod0s 27 mod5
    ∷ mod0s 27 mod6
    ∷ mod0s 27 mod7
    ∷ mod0s 27 mod0
    ∷ []

abbrev pub clear_cases_225 : List (List Mod)
clear_cases_225 =
    mod0s 28 mod1
    ∷ mod0s 28 mod2
    ∷ mod0s 28 mod3
    ∷ mod0s 28 mod4
    ∷ mod0s 28 mod5
    ∷ mod0s 28 mod6
    ∷ mod0s 28 mod7
    ∷ mod0s 28 mod0
    ∷ mod0s 29 mod1
    ∷ mod0s 29 mod2
    ∷ mod0s 29 mod3
    ∷ mod0s 29 mod4
    ∷ mod0s 29 mod5
    ∷ mod0s 29 mod6
    ∷ mod0s 29 mod7
    ∷ mod0s 29 mod0
    ∷ []

abbrev pub clear_cases_241 : List (List Mod)
clear_cases_241 =
    mod0s 30 mod1
    ∷ mod0s 30 mod2
    ∷ mod0s 30 mod3
    ∷ mod0s 30 mod4
    ∷ mod0s 30 mod5
    ∷ mod0s 30 mod6
    ∷ mod0s 30 mod7
    ∷ mod0s 30 mod0
    ∷ mod0s 31 mod1
    ∷ mod0s 31 mod2
    ∷ mod0s 31 mod3
    ∷ mod0s 31 mod4
    ∷ mod0s 31 mod5
    ∷ mod0s 31 mod6
    ∷ mod0s 31 mod7
    ∷ mod0s 31 mod0
    ∷ []
