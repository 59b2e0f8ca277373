-- ===== src/MemoryCopy/ClearCases.antt =====
-- src/memory.cpp: all the cases of the switch in `Memory::memclear`.
mod Low
mod High
use zrsocket.Base.{List, ◌++◌}
use zrsocket.MemoryCopy.{Mod}
use Low.{
  clear_cases_1, clear_cases_17, clear_cases_33, clear_cases_49, clear_cases_65, clear_cases_81,
  clear_cases_97, clear_cases_113,
}
use High.{
  clear_cases_129, clear_cases_145, clear_cases_161, clear_cases_177, clear_cases_193,
  clear_cases_209, clear_cases_225, clear_cases_241,
}

abbrev pub clear_cases : List (List Mod)
clear_cases =
    clear_cases_1 ++ clear_cases_17 ++ clear_cases_33 ++ clear_cases_49 ++ clear_cases_65
    ++ clear_cases_81 ++ clear_cases_97 ++ clear_cases_113 ++ clear_cases_129 ++ clear_cases_145
    ++ clear_cases_161 ++ clear_cases_177 ++ clear_cases_193 ++ clear_cases_209 ++ clear_cases_225
    ++ clear_cases_241
