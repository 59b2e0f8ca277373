-- ===== src/DataConvert/Tests.antt =====
-- Runs of the conversions, and the theorems about them at concrete inputs.
use zrsocket.Base.{
  ◌+◌, ◌-◌, ◌^◌, ◌≡◌, refl, inr, negsuc, some, [], ◌∷◌, ◌++◌, Memory, slice, update, arith,
}
use zrsocket.DataConvert.Digits.{codes, digits10_u32, digits10_u64}
use zrsocket.DataConvert.Itoa.{uitoa, itoa, lltoa, uitoa_digits, finish, mod100s, less10, mod100}
use zrsocket.DataConvert.Itoa.Text.{Prints, uitoa_lem}
use zrsocket.DataConvert.Atoi.{atoi, atoll}
use zrsocket.DataConvert.Atoi.Numerals.{minus}
use zrsocket.DataConvert.Atoi.Results.{atoi_lem, atoll_lem}
use zrsocket.DataConvert.Atoi.RoundTrip.{itoa-atoi, lltoa-atoll}

abbrev blank_cells : Memory
blank_cells _ = 255

uitoa_lem_example :
    ((uitoa 907 blank_cells 12).0 ≡ digits10_u32 907)
    × Prints 907 blank_cells (uitoa 907 blank_cells 12)
unfolding digits10_u32
uitoa_lem_example = uitoa_lem 907 12 blank_cells (omega arith) (omega arith)

-- "  -42;x"
atoi_lem_example : atoi (codes "  -42;x") ≡ some (2 ^ 32 - 42, codes ";x")
atoi_lem_example =
    atoi_lem 2 minus b'4' (b'2' ∷ []) b';' (b'x' ∷ []) (omega arith) (omega arith)
      (inr (omega arith)) (omega arith)

atoll_lem_example : atoll (codes "  -42;x") ≡ some (2 ^ 64 - 42, codes ";x")
atoll_lem_example =
    atoll_lem 2 minus b'4' (b'2' ∷ []) b';' (b'x' ∷ []) (omega arith) (omega arith)
      (inr (omega arith)) (omega arith)

itoa-atoi_example :
    let r = itoa (negsuc 41) blank_cells 12 in
    atoi (slice r.1 0 (r.0 + 1)) ≡ some (2 ^ 32 - 42, 0 ∷ [])
unfolding digits10_u32
itoa-atoi_example = itoa-atoi (negsuc 41) 12 blank_cells (omega arith) (omega arith)

lltoa-atoll_example :
    let r = lltoa (negsuc 41) blank_cells 21 in
    atoll (slice r.1 0 (r.0 + 1)) ≡ some (2 ^ 64 - 42, 0 ∷ [])
unfolding digits10_u64
lltoa-atoll_example = lltoa-atoll (negsuc 41) 21 blank_cells (omega arith) (omega arith)

-- Text in the buffer.
uitoa_runs : slice (uitoa 65536 blank_cells 12).1 0 6 ≡ codes "65536" ++ 0 ∷ []
unfolding uitoa uitoa_digits finish mod100s mod100 less10 digits10_u32 update
uitoa_runs = refl
