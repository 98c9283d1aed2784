-- ===== src/Io/Dedup.antt =====
-- `hammer2_dedup_mask`, and what the three functions that use it do to the masks of a dio.
use linux_hammer.Base.{
  ℕ, zero, suc, ◌+◌, ◌-◌, ◌*◌, ◌/◌, ◌%◌, ◌^◌, ◌≤◌, ◌<◌, ◌≡◌, refl, ◌⊎◌, inl, inr, List, [], ◌∷◌,
  Bool, true, false, not, ◌&&◌, ◌||◌, ◌==◌, ltb, if◌then◌else◌, arith,
}
use linux_hammer.Io.{dio_psize, Dio, lbase_of, lsize_of}

abbrev pub dedup_frag : ℕ
dedup_frag = dio_psize / 64

-- The bits of `((uint64_t)1 << n) - 1`: the machine takes the count modulo 64, so it has none for 64.
abbrev pub low_bits : ℕ → ℕ → Bool
low_bits n i = ltb i (n % 64)

-- `lsize` as the unsigned int that is passed.
abbrev pub dedup_bytes : ℕ → ℕ
dedup_bytes data_off = lsize_of data_off % 2 ^ 32

-- `bbeg` from the offset in the buffer: the callers have an offset of the dio's own buffer.
unfoldable pub hammer2_dedup_mask : Dio → ℕ → ℕ → ℕ → Bool
hammer2_dedup_mask dio data_off bytes i =
    let bbeg = (lbase_of data_off - dio.pbase) / dedup_frag in
    let bits = (bytes + (dedup_frag - 1)) % 2 ^ 32 / dedup_frag in
    let mask = if bbeg + bits == 64 then true else low_bits (bbeg + bits) i in
    mask && not (low_bits bbeg i)

unfoldable pub dedup_set : ℕ → Dio → Dio
unfolding hammer2_dedup_mask
dedup_set data_off dio =
    let mask = hammer2_dedup_mask dio data_off (dedup_bytes data_off) in
    record dio {
      dedup_valid = λ i. dio.dedup_valid i && not (mask i);
      dedup_alloc = λ i. dio.dedup_alloc i || mask i;
    }

unfoldable pub dedup_delete : ℕ → ℕ → Dio → Dio
unfolding hammer2_dedup_mask
dedup_delete data_off bytes dio =
    let mask = hammer2_dedup_mask dio data_off bytes in
    record dio {
      dedup_valid = λ i. dio.dedup_valid i && not (mask i);
      dedup_alloc = λ i. dio.dedup_alloc i && not (mask i);
    }

-- `(dio->dedup_alloc & mask) == 0`, `left` bits from `i` on.
unfoldable pub is_clear : (ℕ → Bool) → ℕ → ℕ → Bool
is_clear word zero i = true
is_clear word (suc left) i = not (word i) && is_clear word left (suc i)

-- What `hammer2_io_dedup_assert` asserts of a dio.
unfoldable pub dedup_assert : ℕ → ℕ → Dio → Bool
unfolding is_clear hammer2_dedup_mask
dedup_assert data_off bytes dio =
    is_clear (λ i. dio.dedup_alloc i && hammer2_dedup_mask dio data_off bytes i) 64 0

-- A block of a dio: it starts at a piece of 1 KiB of the buffer, and ends in the buffer.
pub record IsBlock (dio : Dio) (data_off bytes : ℕ) : Type 0 where
  pub after : dio.pbase ≤ lbase_of data_off
  pub aligned : (lbase_of data_off - dio.pbase) % dedup_frag ≡ 0
  pub starts : lbase_of data_off - dio.pbase < dio_psize
  pub within : lbase_of data_off - dio.pbase + bytes ≤ dio_psize

-- Piece `i` of the buffer has a byte of the block.
abbrev pub touches : Dio → ℕ → ℕ → ℕ → Bool
touches dio data_off bytes i =
    let offset = lbase_of data_off - dio.pbase in
    ltb (i * dedup_frag) (offset + bytes) && ltb offset ((i + 1) * dedup_frag)

mask_bits :
    (offset bytes i : ℕ)
    → offset % dedup_frag ≡ 0
    → offset < dio_psize
    → offset + bytes ≤ dio_psize
    → i < 64
    → ((if offset / dedup_frag + (bytes + (dedup_frag - 1)) % 2 ^ 32 / dedup_frag == 64
          then true
          else low_bits (offset / dedup_frag + (bytes + (dedup_frag - 1)) % 2 ^ 32 / dedup_frag) i)
        && not (low_bits (offset / dedup_frag) i))
      ≡ (ltb (i * dedup_frag) (offset + bytes) && ltb offset ((i + 1) * dedup_frag))
mask_bits offset bytes i aligned starts within lt = ground arith

-- For a block in the buffer of a dio, `hammer2_dedup_mask` has of the 64 bits those of the pieces of 1 KiB
-- that have a byte of the block.
pub dedup_mask_touches :
    (dio : Dio) (data_off bytes i : ℕ)
    → IsBlock dio data_off bytes
    → i < 64
    → hammer2_dedup_mask dio data_off bytes i ≡ touches dio data_off bytes i
unfolding hammer2_dedup_mask
dedup_mask_touches dio data_off bytes i block lt =
    mask_bits (lbase_of data_off - dio.pbase) bytes i block.aligned block.starts block.within lt

-- Blocks that follow one another: one ends before the other starts.
unfoldable pub IsApart : ℕ → ℕ → ℕ → ℕ → Type 0
IsApart data_off bytes other size =
    (lbase_of data_off + bytes ≤ lbase_of other) ⊎ (lbase_of other + size ≤ lbase_of data_off)

apart_bits :
    (dio : Dio) (data_off bytes other size i : ℕ)
    → IsBlock dio data_off bytes
    → IsBlock dio other size
    → IsApart data_off bytes other size
    → (touches dio other size i && touches dio data_off bytes i) ≡ false
unfolding IsApart
apart_bits dio data_off bytes other size i a b (inl before) =
    ground (arith, a.after, a.aligned, b.after, b.aligned, before)
apart_bits dio data_off bytes other size i a b (inr behind) =
    ground (arith, a.after, a.aligned, b.after, b.aligned, behind)

-- No piece of the block is marked as one that may be shared.
abbrev IsCleared : ℕ → ℕ → Dio → Type 0
IsCleared data_off bytes dio =
    (i : ℕ) → i < 64 → (dio.dedup_alloc i && hammer2_dedup_mask dio data_off bytes i) ≡ false

delete-IsCleared :
    (data_off bytes : ℕ) (dio : Dio) → IsCleared data_off bytes (dedup_delete data_off bytes dio)
unfolding dedup_delete hammer2_dedup_mask
delete-IsCleared data_off bytes dio i lt = ground arith

-- The blocks set in a dio, and that each is a block of it beside the one at `data_off`.
unfoldable pub set_all : List ℕ → Dio → Dio
unfolding dedup_set
set_all [] dio = dio
set_all (o ∷ os) dio = set_all os (dedup_set o dio)

unfoldable pub AllApart : Dio → ℕ → ℕ → List ℕ → Type 0
AllApart dio data_off bytes [] = Unit
AllApart dio data_off bytes (o ∷ os) =
    IsBlock dio o (dedup_bytes o)
    × IsApart data_off bytes o (dedup_bytes o)
    × AllApart dio data_off bytes os

or_and : (a b c : Bool) → (a && c) ≡ false → (b && c) ≡ false → ((a || b) && c) ≡ false
or_and a b c h k = ground (arith, h, k)

-- A block of a dio is one of any dio at the same place.
same-IsBlock :
    (dio moved : Dio) (data_off bytes : ℕ)
    → moved.pbase ≡ dio.pbase
    → IsBlock dio data_off bytes
    → IsBlock moved data_off bytes
same-IsBlock dio moved data_off bytes e block = record {
  after = omega (arith, e, block.after);
  aligned = rw e block.aligned;
  starts = rw e block.starts;
  within = rw e block.within;
}

same_apart :
    (os : List ℕ) (dio moved : Dio) (data_off bytes : ℕ)
    → moved.pbase ≡ dio.pbase
    → AllApart dio data_off bytes os
    → AllApart moved data_off bytes os
unfolding AllApart
same_apart [] dio moved data_off bytes e apart = tt
same_apart (o ∷ os) dio moved data_off bytes e (block, apart, rest) = (
  same-IsBlock dio moved o (dedup_bytes o) e block,
  apart,
  same_apart os dio moved data_off bytes e rest,
)

set_pbase : (data_off : ℕ) (dio : Dio) → (dedup_set data_off dio).pbase ≡ dio.pbase
unfolding dedup_set
set_pbase data_off dio = refl

delete_pbase :
    (data_off bytes : ℕ) (dio : Dio) → (dedup_delete data_off bytes dio).pbase ≡ dio.pbase
unfolding dedup_delete
delete_pbase data_off bytes dio = refl

set-IsCleared :
    (dio : Dio) (data_off bytes other : ℕ)
    → IsBlock dio data_off bytes
    → IsBlock dio other (dedup_bytes other)
    → IsApart data_off bytes other (dedup_bytes other)
    → IsCleared data_off bytes dio
    → IsCleared data_off bytes (dedup_set other dio)
unfolding dedup_set
set-IsCleared dio data_off bytes other a b apart cleared i lt =
    or_and (dio.dedup_alloc i) (hammer2_dedup_mask dio other (dedup_bytes other) i)
      (hammer2_dedup_mask dio data_off bytes i) (cleared i lt)
      (rw
        (
          dedup_mask_touches dio data_off bytes i a lt,
          dedup_mask_touches dio other (dedup_bytes other) i b lt,
        )
        (apart_bits dio data_off bytes other (dedup_bytes other) i a b apart))

sets-IsCleared :
    (os : List ℕ) (dio : Dio) (data_off bytes : ℕ)
    → IsBlock dio data_off bytes
    → AllApart dio data_off bytes os
    → IsCleared data_off bytes dio
    → IsCleared data_off bytes (set_all os dio)
unfolding set_all AllApart
sets-IsCleared [] dio data_off bytes a apart cleared = cleared
sets-IsCleared (o ∷ os) dio data_off bytes a (b, apart, rest) cleared =
    sets-IsCleared os (dedup_set o dio) data_off bytes
      (same-IsBlock dio (dedup_set o dio) data_off bytes (set_pbase o dio) a)
      (same_apart os dio (dedup_set o dio) data_off bytes (set_pbase o dio) rest)
      (set-IsCleared dio data_off bytes o a b apart cleared)

clear_word :
    (word : ℕ → Bool) (left i : ℕ)
    → ((j : ℕ) → j < left + i → word j ≡ false)
    → is_clear word left i ≡ true
unfolding is_clear
clear_word word zero i none_set = refl
clear_word word (suc left) i none_set =
    rw (none_set i (omega arith)) (clear_word word left (suc i) (λ j lt. none_set j (omega arith)))

-- After `hammer2_io_dedup_delete` has cleared the bits of a block, what `hammer2_io_dedup_assert` asserts
-- of that block holds, whatever was marked before and whichever blocks of the buffer that do not
-- overlap it `hammer2_io_dedup_set` marks in between.
pub deleted_stays_clear :
    (dio : Dio) (data_off bytes : ℕ) (os : List ℕ)
    → IsBlock dio data_off bytes
    → AllApart dio data_off bytes os
    → dedup_assert data_off bytes (set_all os (dedup_delete data_off bytes dio)) ≡ true
unfolding dedup_assert
deleted_stays_clear dio data_off bytes os a apart =
    let gone : Dio = dedup_delete data_off bytes dio in
    let e = delete_pbase data_off bytes dio in
    let after : Dio = set_all os gone in
    clear_word (λ i. after.dedup_alloc i && hammer2_dedup_mask after data_off bytes i) 64 0
      (λ j lt.
        sets-IsCleared os gone data_off bytes (same-IsBlock dio gone data_off bytes e a)
          (same_apart os dio gone data_off bytes e apart) (delete-IsCleared data_off bytes dio) j
          (omega arith))
