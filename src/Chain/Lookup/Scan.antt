-- ===== src/Chain/Lookup/Scan.antt =====
-- What `hammer2_chain_find` gives: the first child of the range.
use mathlib.Core.Option.{some-injective, none-ne-some}
use linux_hammer.Base.{
  ℕ, zero, suc, ◌≤◌, ◌<◌, ◌≡◌, refl, sym, ap, ◌∙◌, ◌⊎◌, inl, inr, Bool, true, false, ◌&&◌, ◌||◌,
  ◌==◌, ltb, leb, if◌then◌else◌, Option, none, some, List, [], ◌∷◌, get_elem?, arith, Bool-cases,
  subst,
}
use linux_hammer.Chain.Table.{Blockref, last_key, end_key}
use linux_hammer.Chain.Table.Order.{IsRanged}
use linux_hammer.Chain.Lookup.{
  Cmp, FindInfo, hammer2_chain_find_cmp, truncate_next, truncate_end, better,
  hammer2_chain_find_callback, callbacks, RbScan, hammer2_chain_find,
}

unfoldable pub is_match : Cmp → Bool
is_match Cmp.left = false
is_match Cmp.overlap = true
is_match Cmp.right = false

-- The chains that the comparison calls a match, in order.
unfoldable pub matching : (Blockref → Cmp) → List Blockref → List Blockref
unfolding is_match
matching cmp [] = []
matching cmp (c ∷ cs) = if is_match (cmp c) then c ∷ matching cmp cs else matching cmp cs

unfoldable pub AllAfter : ℕ → List Blockref → Type 0
AllAfter k [] = Unit {0}
AllAfter k (c ∷ cs) = (k < c.key) × AllAfter k cs

-- The children of a chain: in order of their keys, and apart.
unfoldable pub IsOrdered : List Blockref → Type 0
unfolding AllAfter
IsOrdered [] = Unit {0}
IsOrdered (c ∷ cs) = IsRanged c × AllAfter (last_key c) cs × IsOrdered cs

-- -1, 0 and 1, raised by one.
unfoldable rank_of : Cmp → ℕ
rank_of Cmp.left = 0
rank_of Cmp.overlap = 1
rank_of Cmp.right = 2

unfoldable pub AllFrom : (Blockref → Cmp) → ℕ → List Blockref → Type 0
unfolding rank_of
AllFrom cmp n [] = Unit {0}
AllFrom cmp n (c ∷ cs) = (n ≤ rank_of (cmp c)) × AllFrom cmp n cs

-- The comparison is first -1, then 0 and then 1 along the tree.
unfoldable pub IsMonotone : (Blockref → Cmp) → List Blockref → Type 0
unfolding AllFrom rank_of
IsMonotone cmp [] = Unit {0}
IsMonotone cmp (c ∷ cs) = AllFrom cmp (rank_of (cmp c)) cs × IsMonotone cmp cs

-- What `RB_SCAN` promises, of a tree in order and a function that is -1 for what is below the range, 0 in it
-- and 1 beyond it: "Issue a callback for all matching items."
abbrev pub Scans : RbScan → Type 0
Scans rb_scan =
    (cmp : Blockref → Cmp) (cs : List Blockref)
    → IsOrdered cs
    → IsMonotone cmp cs
    → rb_scan cmp cs ≡ matching cmp cs

-- The child has keys of the range.
abbrev pub meets : ℕ → ℕ → Blockref → Bool
meets key_beg key_end c = leb key_beg (last_key c) && leb c.key key_end

cmp_meets :
    (info : FindInfo) (c : Blockref)
    → is_match (hammer2_chain_find_cmp info c) ≡ meets info.key_beg info.key_end c
unfolding is_match hammer2_chain_find_cmp
cmp_meets info c = ground arith

rank : (info : FindInfo) (c : Blockref) → ℕ
rank info c = if ltb (last_key c) info.key_beg then 0 else (if ltb info.key_end c.key then 2 else 1)

cmp-rank : (info : FindInfo) (c : Blockref) → rank_of (hammer2_chain_find_cmp info c) ≡ rank info c
unfolding rank rank_of hammer2_chain_find_cmp
cmp-rank info c = elim (Bool-cases (ltb (last_key c) info.key_beg)) [
  | inl below ↦ rw below refl
  | inr reach ↦ elim (Bool-cases (ltb info.key_end c.key)) [
    | inl past ↦ rw (reach, past) refl
    | inr inside ↦ rw (reach, inside) refl
  ]
]

later_rank :
    (info : FindInfo) (c d : Blockref)
    → IsRanged c
    → IsRanged d
    → last_key c < d.key
    → rank info c ≤ rank info d
unfolding rank
later_rank info c d ranged ranged' later = ground (arith, ranged, ranged', later)

cmp-AllFrom :
    (info : FindInfo) (c : Blockref) (cs : List Blockref)
    → IsRanged c
    → IsOrdered cs
    → AllAfter (last_key c) cs
    → AllFrom (hammer2_chain_find_cmp info) (rank_of (hammer2_chain_find_cmp info c)) cs
unfolding IsOrdered AllAfter AllFrom
cmp-AllFrom info c [] ranged ordered after = tt
cmp-AllFrom info c (d ∷ ds) ranged (ranged', later, ordered) (first, after) = (
  rw (cmp-rank info c, cmp-rank info d) (later_rank info c d ranged ranged' first),
  cmp-AllFrom info c ds ranged ordered after,
)

cmp-IsMonotone :
    (info : FindInfo) (cs : List Blockref)
    → IsOrdered cs
    → IsMonotone (hammer2_chain_find_cmp info) cs
unfolding IsOrdered IsMonotone
cmp-IsMonotone info [] ordered = tt
cmp-IsMonotone info (c ∷ cs) (ranged, later, ordered) =
    (cmp-AllFrom info c cs ranged ordered later, cmp-IsMonotone info cs ordered)

after_at :
    (k : ℕ) (cs : List Blockref) (n : ℕ) (d : Blockref)
    → AllAfter k cs
    → get_elem? cs n ≡ some d
    → k < d.key
unfolding AllAfter
after_at k [] n d all at = absurd (none-ne-some d at)
after_at k (c ∷ cs) zero d (first, all) at =
    let same : c ≡ d = some-injective c d at in subst (λ x. k < x.key) same first
after_at k (c ∷ cs) (suc n) d (first, all) at = after_at k cs n d all at

after-matching :
    (k : ℕ) (cmp : Blockref → Cmp) (cs : List Blockref)
    → AllAfter k cs
    → AllAfter k (matching cmp cs)
unfolding AllAfter matching
after-matching k cmp [] all = all
after-matching k cmp (c ∷ cs) (first, all) = elim (Bool-cases (is_match (cmp c))) [
  | inl hit ↦ rw hit (first, after-matching k cmp cs all)
  | inr miss ↦ rw miss (after-matching k cmp cs all)
]

truncate_next_keeps :
    (k : ℕ) (info : FindInfo)
    → ((truncate_next k info).best ≡ info.best) × ((truncate_next k info).key_beg ≡ info.key_beg)
truncate_next_keeps k info = elim (Bool-cases (ltb k info.key_next || info.key_next == 0)) [
  | inl hit ↦ rw hit (refl, refl)
  | inr miss ↦ rw miss (refl, refl)
]

truncate_end_keeps :
    (c : Blockref) (info : FindInfo)
    → ((truncate_end c info).best ≡ info.best) × ((truncate_end c info).key_beg ≡ info.key_beg)
unfolding truncate_end
truncate_end_keeps c info = elim (Bool-cases (end_key c == 0)) [
  | inl hit ↦ rw hit (refl, refl)
  | inr miss ↦ rw miss (truncate_next_keeps (end_key c) info)
]

-- A later child does not take the place of the best one.
keeps_best :
    (info : FindInfo) (b c : Blockref)
    → info.best ≡ some b
    → IsRanged b
    → info.key_beg ≤ last_key b
    → last_key b < c.key
    → (after : FindInfo) × (hammer2_chain_find_callback c info ≡ some after)
      × (after.best ≡ some b)
      × (after.key_beg ≡ info.key_beg)
unfolding hammer2_chain_find_callback better truncate_end
keeps_best info b c is ranged reach later =
    let flush : (leb b.key info.key_beg && leb c.key info.key_beg) ≡ false = ground arith in
    let nearer : ltb c.key b.key ≡ false = ground arith in
    let same : (c.key == b.key) ≡ false = ground arith in
    let stays : better c info (some b) ≡ some (truncate_next c.key info) =
      rw (flush, nearer, same) refl in
    let called : better c info info.best ≡ some (truncate_next c.key info) =
      ap (better c info) is ∙ stays in
    let (b1, k1) = truncate_next_keeps c.key info in
    let (b2, k2) = truncate_end_keeps c (truncate_next c.key info) in
    (
      truncate_end c (truncate_next c.key info),
      rw (hammer2_chain_find_callback, called) refl,
      b2 ∙ b1 ∙ is,
      k2 ∙ k1,
    )

callbacks_keep :
    (cs : List Blockref) (info : FindInfo) (b : Blockref)
    → info.best ≡ some b
    → IsRanged b
    → info.key_beg ≤ last_key b
    → AllAfter (last_key b) cs
    → (end : FindInfo) × (callbacks cs info ≡ some end) × (end.best ≡ some b)
unfolding callbacks AllAfter
callbacks_keep [] info b is ranged reach all = (info, refl, is)
callbacks_keep (c ∷ cs) info b is ranged reach (later, all) =
    let (after, called, is', beg) = keeps_best info b c is ranged reach later in
    let (end, rest, kept) = callbacks_keep cs after b is' ranged (omega arith) all in
    (end, rw (callbacks, called) rest, kept)

first_is :
    (c : Blockref) (cs : List Blockref)
    → IsRanged c
    → AllAfter (last_key c) cs
    → (n : ℕ) (d : Blockref) → get_elem? (c ∷ cs) n ≡ some d
    → c.key ≤ d.key
first_is c cs ranged later zero d at =
    let same : c ≡ d = some-injective c d at in rw same (omega arith)
first_is c cs ranged later (suc n) d at =
    let after : last_key c < d.key = after_at (last_key c) cs n d later at in omega arith

away_next :
    (cmp : Blockref → Cmp) (c : Blockref) (cs : List Blockref)
    → is_match (cmp c) ≡ false
    → ((n : ℕ) (d : Blockref) → get_elem? cs n ≡ some d → is_match (cmp d) ≡ false)
    → (n : ℕ) (d : Blockref) → get_elem? (c ∷ cs) n ≡ some d
    → is_match (cmp d) ≡ false
away_next cmp c cs miss away zero d at =
    subst (λ x. is_match (cmp x) ≡ false) (some-injective c d at) miss
away_next cmp c cs miss away (suc n) d at = away n d at

least_next :
    (cmp : Blockref → Cmp) (b c : Blockref) (cs : List Blockref)
    → is_match (cmp c) ≡ false
    → ((n : ℕ) (d : Blockref) → get_elem? cs n ≡ some d → is_match (cmp d) ≡ true → b.key ≤ d.key)
    → (n : ℕ) (d : Blockref) → get_elem? (c ∷ cs) n ≡ some d
    → is_match (cmp d) ≡ true
    → b.key ≤ d.key
least_next cmp b c cs miss least zero d at is =
    let miss' : is_match (cmp d) ≡ false =
      subst (λ x. is_match (cmp x) ≡ false) (some-injective c d at) miss in
    absurd (ground (arith, miss', is))
least_next cmp b c cs miss least (suc n) d at is = least n d at is

-- The chains that match, as the tree has them.
first_of :
    (cmp : Blockref → Cmp) (cs : List Blockref)
    → IsOrdered cs
    → ((matching cmp cs ≡ [])
        × ((n : ℕ) (d : Blockref) → get_elem? cs n ≡ some d → is_match (cmp d) ≡ false))
      ⊎ ((c : Blockref) × (rest : List Blockref) × (matching cmp cs ≡ c ∷ rest)
          × (is_match (cmp c) ≡ true)
          × ((n : ℕ) × (get_elem? cs n ≡ some c))
          × IsRanged c
          × AllAfter (last_key c) rest
          × ((n : ℕ) (d : Blockref)
              → get_elem? cs n ≡ some d
              → is_match (cmp d) ≡ true
              → c.key ≤ d.key))
unfolding matching IsOrdered
first_of cmp [] all = inl (refl, λ n d at. absurd (none-ne-some d at))
first_of cmp (c ∷ cs) (ranged, later, ordered) = elim (Bool-cases (is_match (cmp c))) [
  | inl hit ↦ inr (
    c,
    matching cmp cs,
    rw hit refl,
    hit,
    (0, refl),
    ranged,
    after-matching (last_key c) cmp cs later,
    λ n d at is. first_is c cs ranged later n d at,
  )
  | inr miss ↦ elim (first_of cmp cs ordered) [
    | inl (nothing, away) ↦ inl (rw miss nothing, away_next cmp c cs miss away)
    | inr (b, rest, m, is, (n, at), r, after, least) ↦
        inr (b, rest, rw miss m, is, (suc n, at), r, after, least_next cmp b c cs miss least)
  ]
]

-- What `hammer2_chain_find` has found: no child has keys of the range, or the first that has.
pub data Best (cs : List Blockref) (key_beg key_end : ℕ) : Option Blockref → Type 0 where
  no_child :
      ((n : ℕ) (d : Blockref) → get_elem? cs n ≡ some d → meets key_beg key_end d ≡ false)
      → Best cs key_beg key_end none
  child :
      (c : Blockref) (n : ℕ)
      → get_elem? cs n ≡ some c
      → IsRanged c
      → meets key_beg key_end c ≡ true
      → ((m : ℕ) (d : Blockref)
          → get_elem? cs m ≡ some d
          → meets key_beg key_end d ≡ true
          → c.key ≤ d.key)
      → Best cs key_beg key_end (some c)

pub chain_find_lem :
    (rb_scan : RbScan) (cs : List Blockref) (key_next key_beg key_end : ℕ)
    → Scans rb_scan
    → IsOrdered cs
    → (end : FindInfo) × (hammer2_chain_find rb_scan cs key_next key_beg key_end ≡ some end)
      × Best cs key_beg key_end end.best
unfolding hammer2_chain_find callbacks hammer2_chain_find_callback better
chain_find_lem rb_scan cs key_next key_beg key_end scans ordered =
    let info : FindInfo = record {
      best = none;
      key_beg = key_beg;
      key_end = key_end;
      key_next = key_next;
    } in
    let cmp : Blockref → Cmp = hammer2_chain_find_cmp info in
    let scanned = scans cmp cs ordered (cmp-IsMonotone info cs ordered) in
    elim (first_of cmp cs ordered) [
      | inl (nothing, away) ↦ (
        info,
        rw (scanned ∙ nothing) refl,
        no_child (λ n d at. sym (cmp_meets info d) ∙ away n d at),
      )
      | inr (c, rest, m, is, (n, at), ranged, after, least) ↦
          let is' : meets key_beg key_end c ≡ true = sym (cmp_meets info c) ∙ is in
          let first : FindInfo = record info { best = some c } in
          let (b, k) = truncate_end_keeps c first in
          let (end, called, kept) =
            callbacks_keep rest (truncate_end c first) c b ranged (ground (arith, is')) after in
          (
            end,
            rw (scanned ∙ m) called,
            subst (Best cs key_beg key_end) (sym kept)
                (child c n at ranged is' (λ x d at' is''. least x d at' (cmp_meets info d ∙ is''))),
          )
    ]
