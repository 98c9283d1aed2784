-- ===== src/Chain/Lookup.antt =====
-- The lookup of a key among the children of a chain: those in memory, in the tree of the parent, and those
-- that only the block table has. A chain in memory stands by its reference (`chain->bref`), and the tree by
-- its chains in order; `rb_scan` is `RB_SCAN` of the copied hammer2_rb.h, the chains that it calls back for.
use linux_hammer.Base.{
  ℕ, zero, suc, ◌+◌, ◌-◌, ◌*◌, ◌/◌, ◌%◌, ◌^◌, Bool, true, false, not, ◌&&◌, ◌||◌, ◌==◌, ltb, leb,
  if◌then◌else◌, Option, none, some, List, [], ◌∷◌,
}
use linux_hammer.Chain.Table.{
  Blockref, end_key, last_key, Parent, BaseFound, found, hammer2_base_find,
}
pub mod Scan
pub mod Nearest

-- -1, 0 and 1.
pub data Cmp : Type 0 where
  left : Cmp
  overlap : Cmp
  right : Cmp

-- `struct hammer2_chain_find_info`
pub record FindInfo : Type 0 where
  pub best : Option Blockref
  pub key_beg : ℕ
  pub key_end : ℕ
  pub key_next : ℕ

unfoldable pub hammer2_chain_find_cmp : FindInfo → Blockref → Cmp
hammer2_chain_find_cmp info child =
    if ltb (last_key child) info.key_beg
    then Cmp.left
    else (if ltb info.key_end child.key then Cmp.right else Cmp.overlap)

-- `if (info->key_next > key || info->key_next == 0) info->key_next = key`
abbrev pub truncate_next : ℕ → FindInfo → FindInfo
truncate_next key info =
    if ltb key info.key_next || info.key_next == 0 then record info { key_next = key } else info

-- "Always truncate key_next based on child's end-of-range."
unfoldable pub truncate_end : Blockref → FindInfo → FindInfo
truncate_end child info = if end_key child == 0 then info else truncate_next (end_key child) info

-- The best child so far and the next one; `none` is a failed assertion.
unfoldable pub better : Blockref → FindInfo → Option Blockref → Option FindInfo
better child info none = some (record info { best = some child })
better child info (some best) =
    if leb best.key info.key_beg && leb child.key info.key_beg
    then none
    else (if ltb child.key best.key
        then some (truncate_next best.key (record info { best = some child }))
        else (if child.key == best.key then none else some (truncate_next child.key info)))

unfoldable pub hammer2_chain_find_callback : Blockref → FindInfo → Option FindInfo
unfolding better truncate_end
hammer2_chain_find_callback child info = elim (better child info info.best) [
  | none ↦ none
  | some after ↦ some (truncate_end child after)
]

-- The callbacks of a scan.
unfoldable pub callbacks : List Blockref → FindInfo → Option FindInfo
callbacks [] info = some info
callbacks (c ∷ cs) info = elim (hammer2_chain_find_callback c info) [
  | none ↦ none
  | some after ↦ callbacks cs after
]

abbrev pub RbScan : Type 0
RbScan = (Blockref → Cmp) → List Blockref → List Blockref

-- The best child, and `*key_nextp`.
unfoldable pub hammer2_chain_find : RbScan → List Blockref → ℕ → ℕ → ℕ → Option FindInfo
unfolding callbacks hammer2_chain_find_cmp
hammer2_chain_find rb_scan children key_next key_beg key_end =
    let info : FindInfo = record {
      best = none;
      key_beg = key_beg;
      key_end = key_end;
      key_next = key_next;
    } in
    callbacks (rb_scan (hammer2_chain_find_cmp info) children) info

-- What is selected: the chain, if it is one, and the reference.
pub data Choice : Type 0 where
  neither : Choice
  chosen : Option Blockref → Blockref → Choice
  clash : Choice

-- `i` is the index that `hammer2_base_find` gave.
unfoldable pub choose : Parent → ℕ → ℕ → Option Blockref → Choice
choose p i key_beg none = if i == p.count then neither else chosen none (p.base i)
choose p i key_beg (some c) =
    if i == p.count
    then chosen (some c) c
    else (if (leb c.key key_beg && leb (p.base i).key key_beg) || c.key == (p.base i).key
        then (if c.key == (p.base i).key then chosen (some c) c else clash)
        else (if ltb c.key (p.base i).key then chosen (some c) c else chosen none (p.base i)))

-- The chain returned, `*brefp`, `*key_nextp`, and the parent.
pub data Combined : Type 0 where
  combined : Option Blockref → Option Blockref → ℕ → Parent → Combined
  asserted : Combined

-- "If the bref is out of bounds we've exhausted our search."
unfoldable pub in_bounds : ℕ → ℕ → Parent → Choice → Combined
in_bounds key_end key_next p neither = combined none none key_next p
in_bounds key_end key_next p (chosen chain b) =
    if ltb key_end b.key then combined none none key_next p else combined chain (some b) key_next p
in_bounds key_end key_next p clash = asserted

-- With what the tree has.
unfoldable pub with_chain : ℕ → ℕ → ℕ → Parent → Option FindInfo → Combined
unfolding in_bounds choose
with_chain i key_beg key_end p none = asserted
with_chain i key_beg key_end p (some info) =
    in_bounds key_end info.key_next p (choose p i key_beg info.best)

unfoldable pub with_base : RbScan → List Blockref → ℕ → ℕ → BaseFound → Combined
unfolding with_chain hammer2_chain_find
with_base rb_scan children key_beg key_end BaseFound.asserted = asserted
with_base rb_scan children key_beg key_end (found i key_next p) =
    with_chain i key_beg key_end p (hammer2_chain_find rb_scan children key_next key_beg key_end)

unfoldable pub hammer2_combined_find : RbScan → Parent → List Blockref → ℕ → ℕ → Combined
unfolding with_base hammer2_base_find
hammer2_combined_find rb_scan p children key_beg key_end =
    with_base rb_scan children key_beg key_end
      (hammer2_base_find p ((key_end + 1) % 2 ^ 64) key_beg)
