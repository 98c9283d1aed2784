-- ===== src/Freemap/Bmap/Fitted.antt =====
-- What holds of a segment between allocations: the bitmap covers the ranges handed out, and the linear
-- iterator's block is its own.
use linux_hammer.Base.{
  ℕ, ◌+◌, ◌*◌, ◌/◌, ◌%◌, ◌≤◌, ◌<◌, ◌≡◌, ◌⊎◌, inl, inr, Bool, true, false, not, ◌&&◌, ◌||◌, ◌==◌,
  ltb, leb, List, [], ◌∷◌, arith, Bool-cases, dec_lt,
}
use linux_hammer.Freemap.Bitmap.{Bitmap, mark, bit_of, bit_of-clear, bit_of-mark, mark_keeps}
use linux_hammer.Freemap.Bmap.{segsize, block_size}
use linux_hammer.Freemap.Bmap.Scan.{IsFree}

abbrev pub Ranges : Type 0
Ranges = List (ℕ × ℕ)

-- Byte `x` of the segment is in one of the ranges, each an offset and a size.
unfoldable pub covers : Ranges → ℕ → Bool
covers [] x = false
covers ((o, s) ∷ used) x = (leb o x && ltb x (o + s)) || covers used x

-- Byte `x` is what the linear iterator has still to give out.
abbrev pub in_tail : ℕ → ℕ → Bool
in_tail linear x =
    not (linear % block_size == 0)
    && ltb linear segsize
    && leb linear x
    && ltb x ((linear / block_size + 1) * block_size)

-- The ranges handed out have their bits set, and so has the rest of the iterator's block, of which
-- nothing is handed out.
pub record IsFitted (q : Bitmap) (linear : ℕ) (used : Ranges) : Type 0 where
  pub marked : (x : ℕ) → covers used x ≡ true → bit_of q x ≡ true
  pub tail_marked : (x : ℕ) → in_tail linear x ≡ true → bit_of q x ≡ true
  pub tail_unused : (x : ℕ) → in_tail linear x ≡ true → covers used x ≡ false

pub extend_marked :
    (q : Bitmap) (linear : ℕ) (used : Ranges)
    → IsFitted q linear used
    → (i j n o s x : ℕ) → j % 2 ≡ 0
    → j + n ≤ 64
    → i * 524288 + j * 8192 ≤ o
    → o + s ≤ i * 524288 + (j + n) * 8192
    → covers ((o, s) ∷ used) x ≡ true
    → bit_of (mark q i j n) x ≡ true
unfolding covers
extend_marked q linear used h i j n o s x even room low high c = elim (Bool-cases (covers used x)) [
  | inl old ↦ mark_keeps q i j n x (h.marked x old)
  | inr new ↦
      let above : o ≤ x = ground (arith, new, c) in
      let below : x < o + s = ground (arith, new, c) in
      bit_of-mark q i j n x even room (omega arith) (omega arith)
]

-- Bytes of a free mask are in no range, nor in the iterator's block.
pub free_unused :
    (q : Bitmap) (linear : ℕ) (used : Ranges)
    → IsFitted q linear used
    → (n i j x : ℕ) → IsFree q n i j
    → i * 524288 + j * 8192 ≤ x
    → x < i * 524288 + (j + n) * 8192
    → (covers used x ≡ false) × (in_tail linear x ≡ false)
free_unused q linear used h n i j x free low high =
    let clear : bit_of q x ≡ false =
      bit_of-clear q i j n x free.clear free.even free.fits low high in
    (
      elim (Bool-cases (covers used x)) [ inl old ↦ cc (h.marked x old) | inr new ↦ new ],
      elim (Bool-cases (in_tail linear x)) [ inl old ↦ cc (h.tail_marked x old) | inr new ↦ new ],
    )

covers_cons :
    (o s x : ℕ) (used : Ranges)
    → covers used x ≡ false
    → (x < o) ⊎ (o + s ≤ x)
    → covers ((o, s) ∷ used) x ≡ false
unfolding covers
covers_cons o s x used h apart = ground (arith, h)

module _ (q : Bitmap) (linear : ℕ) (used : Ranges) (h : IsFitted q linear used) (n i j s : ℕ)
    (free : IsFree q n i j) where
  -- Whole blocks: the iterator stays where it is.
  pub whole-IsFitted :
      s ≡ n * 8192 → IsFitted (mark q i j n) linear ((i * 524288 + j * 8192, s) ∷ used)
  whole-IsFitted size = record {
    marked = λ x c.
        extend_marked q linear used h i j n (i * 524288 + j * 8192) s x free.even free.fits
          (omega arith) (omega arith) c;
    tail_marked = λ x t. mark_keeps q i j n x (h.tail_marked x t);
    tail_unused = λ x t. elim (dec_lt x (i * 524288 + j * 8192)) [
      | yes below ↦ covers_cons (i * 524288 + j * 8192) s x used (h.tail_unused x t) (inl below)
      | no above ↦ elim (dec_lt x (i * 524288 + j * 8192 + s)) [
        | yes inside ↦
            let both = free_unused q linear used h n i j x free (omega arith) (omega arith) in
            cc (both.1)
        | no beyond ↦
            covers_cons (i * 524288 + j * 8192) s x used (h.tail_unused x t) (inr (omega arith))
      ]
    ];
  }

  -- A part of one block: the iterator goes on after it.
  pub part-IsFitted :
      n ≡ 2
      → s < 16384
      → IsFitted (mark q i j n) (i * 524288 + j * 8192 + s) ((i * 524288 + j * 8192, s) ∷ used)
  part-IsFitted two size =
      let inside : (x : ℕ)
          → in_tail (i * 524288 + j * 8192 + s) x ≡ true
          → (i * 524288 + j * 8192 + s ≤ x) × (x < i * 524288 + (j + n) * 8192) =
        λ x t.
          let even : j % 2 ≡ 0 = free.even in (ground (arith, t), ground (arith, t, two, even)) in
      record {
        marked = λ x c.
            extend_marked q linear used h i j n (i * 524288 + j * 8192) s x free.even free.fits
              (omega arith) (omega arith) c;
        tail_marked = λ x t.
            let both = inside x t in
            let low : i * 524288 + j * 8192 + s ≤ x = both.0 in
            bit_of-mark q i j n x free.even free.fits (omega arith) (both.1);
        tail_unused = λ x t.
            let both = inside x t in
            let low : i * 524288 + j * 8192 + s ≤ x = both.0 in
            let clear = free_unused q linear used h n i j x free (omega arith) (both.1) in
            covers_cons (i * 524288 + j * 8192) s x used (clear.0) (inr low);
      }

pub tail_start :
    (o s x : ℕ)
    → (leb (o % block_size + s) block_size && not (o % block_size == 0) && ltb o segsize) ≡ true
    → o ≤ x
    → x < o + s
    → in_tail o x ≡ true
tail_start o s x packs low high = ground (arith, packs)

tail_rest :
    (o s x : ℕ)
    → (leb (o % block_size + s) block_size && not (o % block_size == 0) && ltb o segsize) ≡ true
    → in_tail (o + s) x ≡ true
    → (in_tail o x ≡ true) × (o + s ≤ x)
tail_rest o s x packs t = (ground (arith, packs, t), ground (arith, packs, t))

-- A small range from the iterator's block, which has its bits set already.
pub packed-IsFitted :
    (q : Bitmap) (linear : ℕ) (used : Ranges)
    → IsFitted q linear used
    → (i j n s : ℕ)
    → (leb (linear % block_size + s) block_size
        && not (linear % block_size == 0)
        && ltb linear segsize)
      ≡ true
    → IsFitted (mark q i j n) (linear + s) ((linear, s) ∷ used)
unfolding covers
packed-IsFitted q linear used h i j n s packs = record {
  marked = λ x c. elim (Bool-cases (covers used x)) [
    | inl old ↦ mark_keeps q i j n x (h.marked x old)
    | inr new ↦
        let above : linear ≤ x = ground (arith, new, c) in
        let below : x < linear + s = ground (arith, new, c) in
        mark_keeps q i j n x (h.tail_marked x (tail_start linear s x packs above below))
  ];
  tail_marked = λ x t. mark_keeps q i j n x (h.tail_marked x ((tail_rest linear s x packs t).0));
  tail_unused = λ x t.
      covers_cons linear s x used (h.tail_unused x ((tail_rest linear s x packs t).0))
        (inr ((tail_rest linear s x packs t).1));
}
