-- ===== src/Chain/Table/Order.antt =====
-- What a block table keeps: its references are in order of their keys and do not overlap.
use linux_hammer.Base.{ℕ, ◌≤◌, ◌<◌, ◌≡◌, true, false}
use linux_hammer.Chain.Table.{Blockref, is_empty, last_key, Parent}

-- The range of a reference does not go past the last key there is.
abbrev pub IsRanged : Blockref → Type 0
IsRanged b = b.key ≤ last_key b

pub record IsSorted (base : ℕ → Blockref) (count : ℕ) : Type 0 where
  pub ranged : (i : ℕ) → i < count → is_empty (base i) ≡ false → IsRanged (base i)
  pub sorted :
      (i j : ℕ)
      → i < j
      → j < count
      → is_empty (base i) ≡ false
      → is_empty (base j) ≡ false
      → last_key (base i) < (base j).key

-- The table of a live chain: there is nothing from `live_zero` on.
pub record IsTable (p : Parent) : Type 0 where
  pub counted : p.counted ≡ true
  pub present : p.absent ≡ false
  pub bounded : p.live_zero ≤ p.count
  pub tail : (i : ℕ) → p.live_zero ≤ i → i < p.count → is_empty (p.base i) ≡ true
  pub order : IsSorted p.base p.count

-- Entry `i` is the first that ends at the key or after it; it is `count` if there is none.
pub record IsFirst (base : ℕ → Blockref) (count key i : ℕ) : Type 0 where
  pub inside : i ≤ count
  pub hit : i < count → (is_empty (base i) ≡ false) × (key ≤ last_key (base i))
  pub missed : (j : ℕ) → j < i → is_empty (base j) ≡ false → last_key (base j) < key
