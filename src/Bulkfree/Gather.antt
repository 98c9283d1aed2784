-- ===== src/Bulkfree/Gather.antt =====
-- What a gathered segment knows of the references that were scanned.
use linux_hammer.Base.{
  ℕ, zero, suc, ◌+◌, ◌-◌, ◌*◌, ◌/◌, ◌%◌, ◌≤◌, ◌<◌, ◌≡◌, ◌≢◌, refl, ◌⊎◌, inl, inr, true, ◌&&◌, ◌==◌,
  ltb, leb, if◌then◌else◌, some, List, [], ◌∷◌, get_elem?, arith, Bool-cases, dec_lt, ℕ_discrete,
  ◌∙◌, subst,
}
use linux_hammer.Freemap.Bitmap.{Bitmap, any_set}
use linux_hammer.Freemap.Bmap.{Bmap, segsize, block_size}
use linux_hammer.Freemap.Bmap.Fitted.{Ranges, covers}
use linux_hammer.Bulkfree.Scan.{raise_linear, mark_used, mark_all, blocks_of, use_segment, blank}

-- The range is one of those scanned.
abbrev pub In : Ranges → ℕ → ℕ → Type 0
In used o s = (n : ℕ) × (get_elem? used n ≡ some (o, s))

-- Both bits of the block of byte `x` are set.
abbrev pub BothSet : Bitmap → ℕ → Type 0
BothSet q x =
    (q (x / 524288) (x / 16384 % 32 * 2) ≡ true) × (q (x / 524288) (x / 16384 % 32 * 2 + 1) ≡ true)

-- Whole blocks, or a part of one.
abbrev pub IsWhole : ℕ → ℕ → Type 0
IsWhole o s = (o % 16384 ≡ 0) × (s % 16384 ≡ 0)

abbrev pub IsPart : ℕ → ℕ → Type 0
IsPart o s = (o % 16384 + s ≤ 16384) × (s % 16384 ≢ 0)

abbrev pub IsShaped : ℕ → ℕ → Type 0
IsShaped o s = (0 < s) × (o + s ≤ segsize) × (IsWhole o s ⊎ IsPart o s)

-- The bits of a block are the same.
abbrev pub Paired : Bitmap → Type 0
Paired q = (i j : ℕ) → j % 2 ≡ 0 → q i j ≡ q i (j + 1)

pub record IsGathered (b : Bmap) (used : Ranges) : Type 0 where
  pub marked : (o s x : ℕ) → In used o s → o ≤ x → x < o + s → BothSet b.bitmapq x
  pub ends : (o s : ℕ) → In used o s → s % 16384 ≢ 0 → o + s ≤ b.linear
  pub last :
      b.linear % 16384 ≢ 0 → (o : ℕ) × (s : ℕ) × In used o s × (IsPart o s) × (o + s ≡ b.linear)
  pub paired : Paired b.bitmapq
  pub shaped : (o s : ℕ) → In used o s → IsShaped o s

pub covers-In :
    (used : Ranges) (x : ℕ)
    → covers used x ≡ true
    → (o : ℕ) × (s : ℕ) × In used o s × (o ≤ x) × (x < o + s)
unfolding covers
covers-In [] x c = cc
covers-In ((o, s) ∷ used) x c = elim (Bool-cases (leb o x && ltb x (o + s))) [
  | inl here ↦ (o, s, (0, refl), ground (arith, here), ground (arith, here))
  | inr other ↦
      let (o', s', (n, e), low, high) = covers-In used x (ground (arith, other, c)) in
      (o', s', (suc n, e), low, high)
]

mark_used_sets :
    (off bytes x : ℕ) (b : Bmap)
    → x / 16384 ≡ off / 16384
    → Paired b.bitmapq
    → BothSet (mark_used off bytes b).bitmapq x
unfolding mark_used any_set
mark_used_sets off bytes x b same paired =
    let i : ℕ = off / 524288 in
    let j : ℕ = off % 524288 / 16384 * 2 in
    let word : x / 524288 ≡ i = omega arith in
    let bit : x / 16384 % 32 * 2 ≡ j = omega arith in
    let twin = paired i j (omega arith) in
    elim (Bool-cases (any_set b.bitmapq i j 2)) [
      | inl old ↦
          let low : b.bitmapq i j ≡ true = ground (arith, old, twin) in
          let high : b.bitmapq i (j + 1) ≡ true = ground (arith, old, twin) in
          rw word (rw bit (rw old (low, high)))
      | inr new ↦ rw word (rw bit (rw new (ground arith, ground arith)))
    ]

mark_used_keeps :
    (off bytes x : ℕ) (b : Bmap) → BothSet b.bitmapq x → BothSet (mark_used off bytes b).bitmapq x
unfolding mark_used
mark_used_keeps off bytes x b (low, high) = (ground (arith, low), ground (arith, high))

mark_used-Paired :
    (off bytes : ℕ) (b : Bmap) → Paired b.bitmapq → Paired (mark_used off bytes b).bitmapq
unfolding mark_used
mark_used-Paired off bytes b paired i j even = let twin = paired i j even in ground (arith, twin)

mark_used-linear : (off bytes : ℕ) (b : Bmap) → (mark_used off bytes b).linear ≡ b.linear
unfolding mark_used
mark_used-linear off bytes b = ground arith

mark_all_lem :
    (fuel off bytes : ℕ) (b : Bmap)
    → Paired b.bitmapq
    → Paired (mark_all fuel off bytes b).bitmapq
      × ((mark_all fuel off bytes b).linear ≡ b.linear)
      × ((x : ℕ) → BothSet b.bitmapq x → BothSet (mark_all fuel off bytes b).bitmapq x)
      × ((x : ℕ)
          → bytes ≤ fuel * 16384
          → IsWhole off bytes ⊎ IsPart off bytes
          → off ≤ x
          → x < off + bytes
          → BothSet (mark_all fuel off bytes b).bitmapq x)
unfolding mark_all
mark_all_lem zero off bytes b paired =
    (paired, refl, λ x h. h, λ x room shape low high. absurd (omega arith))
mark_all_lem (suc fuel) off bytes b paired = elim (Bool-cases (bytes == 0)) [
  | inl done ↦
      rw done
        (paired, refl, λ x h. h, λ x room shape low high. absurd (ground (arith, done, low, high)))
  | inr more ↦
      let b' = mark_used off bytes b in
      let paired' = mark_used-Paired off bytes b paired in
      let (p, l, k, s) = mark_all_lem fuel (off + block_size) (bytes - block_size) b' paired' in
      rw more (
        p,
        l ∙ mark_used-linear off bytes b,
        λ x h. k x (mark_used_keeps off bytes x b h),
        λ x room shape low high. elim (ℕ_discrete (x / 16384) (off / 16384)) [
          | yes first ↦ k x (mark_used_sets off bytes x b first paired)
          | no later ↦ elim shape [
            | inr (inside, odd) ↦ absurd (omega arith)
            | inl (start, size) ↦
                s x (omega arith) (inl (omega arith, omega arith)) (omega arith) (omega arith)
          ]
        ],
      )
]

-- The cases of a range among one more.
In-cons :
    (used : Ranges) (o s o' s' : ℕ)
    → In ((o, s) ∷ used) o' s'
    → ((o ≡ o') × (s ≡ s')) ⊎ In used o' s'
In-cons used o s o' s' (zero, e) = inl (cc, cc)
In-cons used o s o' s' (suc n, e) = inr (n, e)

raise_linear_lem :
    (linear off bytes : ℕ)
    → IsShaped off bytes
    → (linear ≤ raise_linear linear off bytes)
      × (bytes % 16384 ≢ 0 → off + bytes ≤ raise_linear linear off bytes)
      × (raise_linear linear off bytes % 16384 ≢ 0
          → (raise_linear linear off bytes ≡ linear)
            ⊎ ((raise_linear linear off bytes ≡ off + bytes) × IsPart off bytes))
unfolding raise_linear
raise_linear_lem linear off bytes (some_bytes, room, inl (start, size)) =
    (ground arith, λ odd. absurd (odd size), λ odd. inl (ground (arith, odd)))
raise_linear_lem linear off bytes (some_bytes, room, inr (inside, odd)) =
    elim (dec_lt linear (off + bytes)) [
      | yes low ↦ (ground arith, λ h. ground arith, λ h. inr (ground (arith, low), (inside, odd)))
      | no high ↦ (ground arith, λ h. ground arith, λ h. inl (ground (arith, high)))
    ]

pub use_segment-IsGathered :
    (class off bytes : ℕ) (b : Bmap) (used : Ranges)
    → IsGathered b used
    → IsShaped off bytes
    → IsGathered (use_segment class off bytes b) ((off, bytes) ∷ used)
unfolding use_segment
use_segment-IsGathered class off bytes b used g (some_bytes, room, shape) =
    let b1 : Bmap = record b {
      class = if b.class == 0 then class else b.class;
      avail = if b.class == 0 then segsize else b.avail;
      linear = raise_linear b.linear off bytes;
    } in
    let (paired, at, keeps, sets) = mark_all_lem (blocks_of bytes) off bytes b1 g.paired in
    let (grows, reaches, raised) = raise_linear_lem b.linear off bytes (some_bytes, room, shape) in
    record {
      marked = λ o s x i low high. elim (In-cons used off bytes o s i) [
        | inl (eo, es) ↦ sets x (omega arith) shape (omega arith) (omega arith)
        | inr old ↦ keeps x (g.marked o s x old low high)
      ];
      ends = λ o s i odd. elim (In-cons used off bytes o s i) [
        | inl (eo, es) ↦ let r = reaches (λ e. odd (omega arith)) in omega arith
        | inr old ↦ let r = g.ends o s old odd in omega arith
      ];
      last = λ odd. elim (raised (λ e. odd (omega arith))) [
        | inl same ↦
            let (o, s, (n, i), part, end) = g.last (λ e. odd (omega arith)) in
            (o, s, (suc n, i), part, omega arith)
        | inr (same, part) ↦ (off, bytes, (0, refl), part, omega arith)
      ];
      paired = paired;
      shaped = λ o s i. elim (In-cons used off bytes o s i) [
        | inl (eo, es) ↦
            subst (λ n. IsShaped n s) eo (subst (λ n. IsShaped off n) es (some_bytes, room, shape))
        | inr old ↦ g.shaped o s old
      ];
    }

pub blank-IsGathered : IsGathered blank []
blank-IsGathered = record {
  marked = λ o s x (n, e) low high. cc;
  ends = λ o s (n, e) odd. cc;
  last = λ odd. absurd (omega arith);
  paired = λ i j even. refl;
  shaped = λ o s (n, e). cc;
}

-- The references to one segment, each by its class, its offset in the segment and its size.
abbrev pub Uses : Type 0
Uses = List (ℕ × ℕ × ℕ)

abbrev pub ranges : Uses → Ranges
ranges [] = []
ranges ((class, o, s) ∷ uses) = (o, s) ∷ ranges uses

-- A segment after they were scanned, the last of the list first.
unfoldable pub gather : Uses → Bmap
gather [] = blank
gather ((class, o, s) ∷ uses) = use_segment class o s (gather uses)

abbrev pub AllShaped : Uses → Type 0
AllShaped [] = Unit
AllShaped ((class, o, s) ∷ uses) = IsShaped o s × AllShaped uses

pub gather-IsGathered : (uses : Uses) → AllShaped uses → IsGathered (gather uses) (ranges uses)
unfolding gather
gather-IsGathered [] h = blank-IsGathered
gather-IsGathered ((class, o, s) ∷ uses) (h, rest) =
    use_segment-IsGathered class o s (gather uses) (ranges uses) (gather-IsGathered uses rest) h
