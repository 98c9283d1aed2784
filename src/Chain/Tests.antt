-- ===== src/Chain/Tests.antt =====
-- Runs of the table functions and of the lookup, on a table of four entries.
use linux_hammer.Base.{
  ℕ, zero, suc, sym, ◌≡◌, ◌≢◌, refl, ◌⊎◌, inl, inr, ◌↔◌, Bool, true, false, ◌==◌, if◌then◌else◌,
  Option, some, [], ◌∷◌, arith, ℕ_discrete, get_elem?,
}
use mathlib.Core.Option.{some-injective, none-ne-some}
use linux_hammer.Chain.Table.{
  Blockref, no_blockref, is_empty, last_key, end_key, Parent, found, next_key, hammer2_base_find,
}
use linux_hammer.Chain.Table.Order.{IsSorted, IsTable}
use linux_hammer.Chain.Table.Find.{first_match, base_find-first_match}
use linux_hammer.Chain.Table.Moves.{Holds}
use linux_hammer.Chain.Table.Change.{
  done, panicked, count_in, hammer2_base_insert, hammer2_base_delete,
}
use linux_hammer.Chain.Table.Insert.{base_insert-IsTable}
use linux_hammer.Chain.Table.Place.{IsNew}
use linux_hammer.Chain.Table.Refuse.{base_insert_refuses}
use linux_hammer.Chain.Table.Delete.{base_delete-IsTable}
use linux_hammer.Chain.Lookup.{combined, hammer2_combined_find}
use linux_hammer.Chain.Lookup.Scan.{IsOrdered, matching}
use linux_hammer.Chain.Lookup.Nearest.{IsAgreed, Nearest, combined_find-Nearest}

-- 16 keys of data.
abbrev data_at : ℕ → Blockref
data_at key = record {
  type = 3;
  keybits = 4;
  leaf_count = 0;
  key = key;
  data_off = 14;
  data_count = 0;
  inode_count = 0;
}

abbrev two_entries : ℕ → Blockref
two_entries i = if i == 0 then data_at 0 else (if i == 2 then data_at 64 else no_blockref)

abbrev small_table : Parent
small_table = record {
  counted = true;
  absent = false;
  base = two_entries;
  count = 4;
  cache_index = 3;
  live_zero = 3;
  leaf_count = 2;
  data_count = 32768;
  inode_count = 0;
}

which : (i : ℕ) → is_empty (two_entries i) ≡ false → (i ≡ 0) ⊎ (i ≡ 2)
which i live = elim (ℕ_discrete i 0) [
  | yes first ↦ inl first
  | no not_first ↦ elim (ℕ_discrete i 2) [
    | yes second ↦ inr second
    | no not_second ↦ absurd (ground (arith, not_first, not_second, live))
  ]
]

two_entries-IsSorted : IsSorted two_entries 4
unfolding last_key
two_entries-IsSorted = record {
  ranged = λ i lt live. elim (which i live) [
    | inl first ↦ rw first (omega arith)
    | inr second ↦ rw second (omega arith)
  ];
  sorted = λ i j lt lt' live live'. elim (which i live) [
    | inl first ↦ elim (which j live') [
      | inl first' ↦ absurd (omega arith)
      | inr second' ↦ rw first (rw second' (omega arith))
    ]
    | inr second ↦ elim (which j live') [
      | inl first' ↦ absurd (omega arith)
      | inr second' ↦ absurd (omega arith)
    ]
  ];
}

small_table-IsTable : IsTable small_table
small_table-IsTable = record {
  counted = refl;
  present = refl;
  bounded = omega arith;
  tail = λ i low high. ground (arith, low);
  order = two_entries-IsSorted;
}

data_at-IsNew : IsNew two_entries 4 (data_at 32)
unfolding last_key
data_at-IsNew = record {
  full = refl;
  fits = omega arith;
  apart = λ x lt live. elim (which x live) [
    | inl first ↦ rw first (inl (omega arith))
    | inr second ↦ rw second (inr (omega arith))
  ];
}

base_find-first_match_example :
    (c : ℕ) × (hammer2_base_find small_table 0 20
      ≡ found 2 (next_key 0 (end_key (data_at 64))) (record small_table { cache_index = c }))
unfolding first_match last_key
base_find-first_match_example = base_find-first_match small_table 0 20 small_table-IsTable

base_insert-IsTable_example :
    (p' : Parent) × (hammer2_base_insert small_table (data_at 32) ≡ done p')
    × IsTable p'
    × (p'.count ≡ 4)
    × ((c : Blockref) → Holds p'.base p'.count c ↔ (Holds two_entries 4 c ⊎ (c ≡ data_at 32)))
base_insert-IsTable_example =
    base_insert-IsTable small_table (data_at 32) small_table-IsTable data_at-IsNew 1 (omega arith)
      refl

base_insert_refuses_example :
    (c : ℕ) × (p' : Parent) × (hammer2_base_insert small_table (data_at 0) ≡ panicked p')
    × (p' ≡ count_in (data_at 0) (record small_table { cache_index = c }))
    × (p'.base ≡ two_entries)
    × (p'.count ≡ 4)
    × (p'.live_zero ≡ 3)
unfolding last_key
base_insert_refuses_example =
    base_insert_refuses small_table (data_at 0) small_table-IsTable
      (inl (0, omega arith, refl, omega arith, omega arith))

base_delete-IsTable_example :
    (p' : Parent) × (hint : Bool) × (hammer2_base_delete small_table (data_at 64) false
      ≡ done p' (data_at 64) hint)
    × IsTable p'
    × (p'.count ≡ 4)
    × ((c : Blockref) → Holds p'.base p'.count c ↔ (Holds two_entries 4 c × (c.key ≢ 64)))
base_delete-IsTable_example =
    base_delete-IsTable small_table (data_at 64) false small_table-IsTable 2 (omega arith) refl refl
      (inr refl)

-- A tree with one chain, between the two entries.
one_child-IsOrdered : IsOrdered (data_at 32 ∷ [])
unfolding IsOrdered last_key
one_child-IsOrdered = (omega arith, tt, tt)

the_child : (n : ℕ) (d : Blockref) → get_elem? (data_at 32 ∷ []) n ≡ some d → d ≡ data_at 32
the_child zero d at = sym (some-injective (data_at 32) d at)
the_child (suc n) d at = absurd (none-ne-some d at)

one_child-IsAgreed : IsAgreed small_table (data_at 32 ∷ [])
unfolding last_key
one_child-IsAgreed = record {
  agree = λ x n d lt live at. elim (which x live) [
    | inl first ↦ rw first (rw (the_child n d at) (inr (inr (omega arith))))
    | inr second ↦ rw second (rw (the_child n d at) (inr (inl (omega arith))))
  ];
}

combined_find-Nearest_example :
    (chain : Option Blockref) × (bref : Option Blockref) × (key_next : ℕ) × (c : ℕ)
    × (hammer2_combined_find matching small_table (data_at 32 ∷ []) 20 100
        ≡ combined chain bref key_next (record small_table { cache_index = c }))
    × Nearest two_entries 4 (data_at 32 ∷ []) 20 100 chain bref
combined_find-Nearest_example =
    combined_find-Nearest matching small_table (data_at 32 ∷ []) 20 100
      (λ cmp cs ordered monotone. refl) small_table-IsTable one_child-IsOrdered one_child-IsAgreed
