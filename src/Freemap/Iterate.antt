-- ===== src/Freemap/Iterate.antt =====
-- `hammer2_freemap_iterate`: the search for a leaf of the freemap that has room, and when it gives up.
use linux_hammer.Base.{
  ℕ, zero, suc, ◌+◌, ◌-◌, ◌*◌, ◌/◌, ◌≤◌, ◌≡◌, ◌≢◌, ◌⊎◌, Bool, true, ◌==◌, ltb, leb, if◌then◌else◌,
  Option, none, some,
}
use linux_hammer.Base.Error.{eagain, enospc}

abbrev pub level1_size : ℕ
level1_size = 1073741824

pub record Fiterate : Type 0 where
  pub bpref : ℕ
  pub bnext : ℕ
  pub loops : ℕ
  pub relaxed : Bool

-- The error and the iterator afterwards.
unfoldable pub hammer2_freemap_iterate : ℕ → Fiterate → ℕ × Fiterate
hammer2_freemap_iterate total_size iter =
    let bnext = iter.bnext / level1_size * level1_size + level1_size in
    if leb total_size bnext
    then (if leb 2 (iter.loops + 1)
        then (if iter.relaxed
            then (enospc, record iter { bnext = 0; loops = iter.loops + 1 })
            else (eagain, record iter { bnext = 0; loops = iter.loops + 1; relaxed = true }))
        else (eagain, record iter { bnext = 0; loops = iter.loops + 1 }))
    else (eagain, record iter { bnext = bnext })

-- What `hammer2_freemap_try_alloc` returns, where `attempt` is its error for the leaf at `bnext`.
unfoldable pub try_alloc : (Fiterate → ℕ) → ℕ → Fiterate → ℕ × Fiterate
try_alloc attempt total_size iter =
    if attempt iter == enospc then hammer2_freemap_iterate total_size iter else (attempt iter, iter)

-- The loop `while (error == HAMMER2_ERROR_EAGAIN)` of `hammer2_freemap_alloc`: the error and the iterator
-- it ends with, and how many leaves were tried. `none` is out of fuel.
unfoldable pub search_loop : (Fiterate → ℕ) → ℕ → ℕ → ℕ → ℕ × Fiterate → Option (ℕ × Fiterate × ℕ)
search_loop attempt total_size zero tries (error, iter) = none
search_loop attempt total_size (suc fuel) tries (error, iter) =
    let next =
      search_loop attempt total_size fuel (tries + 1) (try_alloc attempt total_size iter) in
    if error == eagain then next else some (error, iter, tries)

-- 1GB leaves that the volume has.
abbrev pub leaves : ℕ → ℕ
leaves total_size = (total_size + level1_size - 1) / level1_size

-- Times the iterator has still to reach the end of the volume, this time included.
abbrev wraps : Fiterate → ℕ
wraps iter = (if iter.relaxed then 0 else 1) + (if iter.loops == 0 then 1 else 0)

-- Leaves still to try before `ENOSPC`. An offset past the end is tried once, and the iterator then goes
-- back to the start.
unfoldable pub left_to_try : ℕ → Fiterate → ℕ
left_to_try total_size iter =
    wraps iter * leaves total_size
    + (if ltb (iter.bnext / level1_size) (leaves total_size)
        then leaves total_size - iter.bnext / level1_size
        else 1)

-- How the loop ends when `tries` leaves were tried and `left` are left: within `left` tries, and with
-- `ENOSPC` only when that many were made.
abbrev pub EndsBy : ℕ → ℕ → ℕ × Fiterate × ℕ → Type 0
EndsBy tries left (error, iter, made) =
    (error ≢ eagain) × (made ≤ tries + left) × ((error ≢ enospc) ⊎ (made ≡ tries + left))
