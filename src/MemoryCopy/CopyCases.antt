-- ===== src/MemoryCopy/CopyCases.antt =====
-- src/memory.cpp: all the cases of the switch in `Memory::memcpy`.
mod Low
mod High
use zrsocket.Base.{List, ◌++◌}
use zrsocket.MemoryCopy.{Mod}
use Low.{
  copy_cases_1, copy_cases_17, copy_cases_33, copy_cases_49, copy_cases_65, copy_cases_81,
  copy_cases_97, copy_cases_113,
}
use High.{
  copy_cases_129, copy_cases_145, copy_cases_161, copy_cases_177, copy_cases_193, copy_cases_209,
  copy_cases_225, copy_cases_241,
}

abbrev pub copy_cases : List (List Mod)
copy_cases =
    copy_cases_1 ++ copy_cases_17 ++ copy_cases_33 ++ copy_cases_49 ++ copy_cases_65
    ++ copy_cases_81 ++ copy_cases_97 ++ copy_cases_113 ++ copy_cases_129 ++ copy_cases_145
    ++ copy_cases_161 ++ copy_cases_177 ++ copy_cases_193 ++ copy_cases_209 ++ copy_cases_225
    ++ copy_cases_241
