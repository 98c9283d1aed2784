-- ===== src/Ondisk/Best.antt =====
-- `hammer2_read_volume_header`: the header that it returns is the newest.
use linux_hammer.Base.{
  ℕ, zero, suc, ◌+◌, ◌≤◌, ◌<◌, ◌≡◌, refl, sym, ap, subst, ◌∙◌, inl, inr, Option, none, some,
  Bool-cases, ltb, ℕ_discrete, arith,
}
use mathlib.Core.Option.{some-injective, none-ne-some}
use linux_hammer.Ondisk.{VolumeData}
use linux_hammer.Ondisk.Header.{
  num_volhdrs, Device, Icrc32, BestHeader, take_header, header_at, with_header, read_headers,
  hammer2_read_volume_header,
}

-- Of the headers at the places below `n`, the newest, and of those the first.
pub IsNewest : Icrc32 → Device → ℕ → BestHeader → Type 0
IsNewest icrc32 d n none = (j : ℕ) → j < n → header_at icrc32 d j ≡ none
IsNewest icrc32 d n (some (zone, h)) =
    (zone < n)
    × (header_at icrc32 d zone ≡ some h)
    × ((j : ℕ) (g : VolumeData)
        → j < n
        → header_at icrc32 d j ≡ some g
        → g.mirror_tid ≤ h.mirror_tid)
    × ((j : ℕ) (g : VolumeData)
        → j < zone
        → header_at icrc32 d j ≡ some g
        → g.mirror_tid < h.mirror_tid)

module _ (icrc32 : Icrc32) (d : Device) where
  skip_header :
      (i : ℕ) (best : BestHeader)
      → header_at icrc32 d i ≡ none
      → IsNewest icrc32 d i best
      → IsNewest icrc32 d (i + 1) best
  unfolding IsNewest
  skip_header i none gone newest = λ j lt. elim (ℕ_discrete j i) [
    | yes e ↦ subst (λ x. header_at icrc32 d x ≡ none) (sym e) gone
    | no ne ↦ newest j (omega arith)
  ]
  skip_header i (some (zone, h)) gone (lt, at, most, first) = (
    omega arith,
    at,
    λ j g ltj atj. elim (ℕ_discrete j i) [
      | yes e ↦
          absurd
            (none-ne-some g (sym (subst (λ x. header_at icrc32 d x ≡ none) (sym e) gone) ∙ atj))
      | no ne ↦ most j g (omega arith) atj
    ],
    first,
  )

  same_place :
      (i j : ℕ) (h g : VolumeData)
      → j ≡ i
      → header_at icrc32 d i ≡ some h
      → header_at icrc32 d j ≡ some g
      → g.mirror_tid ≡ h.mirror_tid
  same_place i j h g e at atj =
      ap (λ x. x.mirror_tid)
        (some-injective g h (sym atj ∙ subst (λ x. header_at icrc32 d x ≡ some h) (sym e) at))

  -- A header that is newer than the ones before it is taken.
  newer_taken :
      (i : ℕ) (h : VolumeData)
      → header_at icrc32 d i ≡ some h
      → ((j : ℕ) (g : VolumeData)
          → j < i
          → header_at icrc32 d j ≡ some g
          → g.mirror_tid < h.mirror_tid)
      → IsNewest icrc32 d (i + 1) (some (i, h))
  unfolding IsNewest
  newer_taken i h at newer = (
    omega arith,
    at,
    λ j g lt atj. elim (ℕ_discrete j i) [
      | yes e ↦ omega (arith, same_place i j h g e at atj)
      | no ne ↦ omega (arith, newer j g (omega arith) atj)
    ],
    newer,
  )

  older_left :
      (i zone : ℕ) (h best : VolumeData)
      → header_at icrc32 d i ≡ some h
      → h.mirror_tid ≤ best.mirror_tid
      → IsNewest icrc32 d i (some (zone, best))
      → IsNewest icrc32 d (i + 1) (some (zone, best))
  unfolding IsNewest
  older_left i zone h best at old (lt, its, most, first) = (
    omega arith,
    its,
    λ j g ltj atj. elim (ℕ_discrete j i) [
      | yes e ↦ omega (arith, same_place i j h g e at atj)
      | no ne ↦ most j g (omega arith) atj
    ],
    first,
  )

  with_header-IsNewest :
      (i : ℕ) (o : Option VolumeData) (best : BestHeader)
      → header_at icrc32 d i ≡ o
      → IsNewest icrc32 d i best
      → IsNewest icrc32 d (i + 1) (with_header i o best)
  unfolding IsNewest with_header take_header
  with_header-IsNewest i none best at newest = skip_header i best at newest
  with_header-IsNewest i (some h) none at newest =
      newer_taken i h at (λ j g lt atj. absurd (none-ne-some g (sym (newest j lt) ∙ atj)))
  with_header-IsNewest i (some h) (some (zone, best)) at (lt, its, most, first) =
      elim (Bool-cases (ltb best.mirror_tid h.mirror_tid)) [
        | inl newer ↦
            rw newer (newer_taken i h at (λ j g ltj atj. ground (arith, most j g ltj atj)))
        | inr older ↦ rw older (older_left i zone h best at (ground arith) (lt, its, most, first))
      ]

  read_headers-IsNewest :
      (left i n : ℕ) (best : BestHeader)
      → left + i ≡ n
      → IsNewest icrc32 d i best
      → IsNewest icrc32 d n (read_headers icrc32 d left i best)
  unfolding read_headers
  read_headers-IsNewest zero i n best e newest =
      subst (λ x. IsNewest icrc32 d x best) (omega arith) newest
  read_headers-IsNewest (suc left) i n best e newest =
      read_headers-IsNewest left (suc i) n (with_header i (header_at icrc32 d i) best) (omega arith)
        (subst (λ x. IsNewest icrc32 d x (with_header i (header_at icrc32 d i) best)) (omega arith)
          (with_header-IsNewest i (header_at icrc32 d i) best refl newest))

-- Reading a volume header fails exactly when none of the four places of a device has a header that
-- can be read and passes the tests; otherwise it gives such a place and its header, no good header
-- has a greater `mirror_tid`, and one at an earlier place has a smaller one.
pub read_volume_header-IsNewest :
    (icrc32 : Icrc32) (d : Device)
    → IsNewest icrc32 d num_volhdrs (hammer2_read_volume_header icrc32 d)
unfolding hammer2_read_volume_header IsNewest
read_volume_header-IsNewest icrc32 d =
    read_headers-IsNewest icrc32 d num_volhdrs 0 num_volhdrs none (omega arith)
      (λ j lt. absurd (omega arith))
