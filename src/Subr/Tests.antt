-- ===== src/Subr/Tests.antt =====
-- Runs of the conversions of hammer2_subr.c, and its theorems at concrete values.
use mathlib.Core.List.{foldl}
use linux_hammer.Base.{ℕ, ◌+◌, ◌*◌, ◌/◌, ◌%◌, ◌^◌, ◌≤◌, ◌<◌, ◌≡◌, ◌⊎◌, refl, List, some, arith}
use linux_hammer.Subr.Time.{Timespec64}
use linux_hammer.Subr.Radix.{hammer2_getradix, getradix-IsLeast, alloc_min, pbufsize}
use linux_hammer.Subr.Blocks.{hammer2_calc_physical, calc_physical_fits}

abbrev noon : Timespec64
noon = record { tv_sec = 1_700_000_000; tv_nsec = 123_456_789 }

getradix_runs : hammer2_getradix 20_000 ≡ some 15
unfolding hammer2_getradix
getradix_runs = refl

getradix-IsLeast_example :
    (r : ℕ) × (hammer2_getradix 20_000 ≡ some r)
    × (20_000 ≤ 2 ^ r)
    × (r ≤ 63)
    × ((s : ℕ) → s < r → 2 ^ s < 20_000)
getradix-IsLeast_example = getradix-IsLeast 20_000 (omega arith)

calc_physical_fits_example :
    (p : ℕ) × (hammer2_calc_physical 70_000 65536 ≡ some p)
    × (65536 + pbufsize ≤ 70_000 → p ≡ pbufsize)
    × (70_000 ≤ 65536 → p ≡ 0)
    × (65536 < 70_000
        → 70_000 < 65536 + pbufsize
        → (70_000 ≤ 65536 + p)
          × (alloc_min ≤ p)
          × (p ≤ pbufsize)
          × (pbufsize % p ≡ 0)
          × ((p ≡ alloc_min) ⊎ (65536 + p / 2 < 70_000)))
calc_physical_fits_example = calc_physical_fits 70_000 65536 (omega arith)

-- A stand-in for the kernel's crc32c().
abbrev some_crc : List ℕ → ℕ
some_crc = foldl (λ a c. a * 31 + c) 7
