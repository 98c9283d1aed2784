-- ===== src/Chain/Table/Change.antt =====
-- `hammer2_base_insert` and `hammer2_base_delete`.
use linux_hammer.Base.{
  ℕ, zero, suc, ◌+◌, ◌-◌, ◌%◌, ◌^◌, Bool, true, false, not, ◌&&◌, ◌||◌, ◌==◌, ltb, leb,
  if◌then◌else◌, Option, none, some,
}
use linux_hammer.Chain.Table.{
  Blockref, no_blockref, is_empty, last_key, Parent, BaseFound, found, hammer2_base_find,
}

abbrev pub bref_inode : ℕ
bref_inode = 1

abbrev pub bref_indirect : ℕ
bref_indirect = 2

abbrev pub bref_data : ℕ
bref_data = 3

abbrev pub bref_dirent : ℕ
bref_dirent = 4

abbrev pub leaf_max : ℕ
leaf_max = 65535

-- `1 << (data_off & HAMMER2_OFF_MASK_RADIX)`, or 0 if that is 1 << 0.
abbrev bytes_of : Blockref → ℕ
bytes_of b = if b.data_off % 64 == 0 then 0 else 2 ^ (b.data_off % 64)

abbrev add64 : ℕ → ℕ → ℕ
add64 a b = (a + b) % 2 ^ 64

abbrev sub64 : ℕ → ℕ → ℕ
sub64 a b = (a + 2 ^ 64 - b) % 2 ^ 64

-- The counts of the parent when a reference is put into its table.
unfoldable pub count_in : Blockref → Parent → Parent
count_in b p =
    let sized = record p { data_count = add64 p.data_count (bytes_of b) } in
    let one_leaf = if p.leaf_count == leaf_max then p.leaf_count else p.leaf_count + 1 in
    let leaves =
      λ (n : ℕ). if ltb (n + b.leaf_count) leaf_max then n + b.leaf_count else leaf_max in
    if b.type == bref_inode
    then record sized {
      inode_count = add64 (add64 p.inode_count 1) b.inode_count;
      leaf_count = one_leaf;
      data_count = add64 (add64 p.data_count (bytes_of b)) b.data_count;
    }
    else (if b.type == bref_data
        then record sized { leaf_count = leaves one_leaf }
        else (if b.type == bref_indirect
            then record sized {
              inode_count = add64 p.inode_count b.inode_count;
              leaf_count = leaves p.leaf_count;
              data_count = add64 (add64 p.data_count (bytes_of b)) b.data_count;
            }
            else (if b.type == bref_dirent then record sized { leaf_count = one_leaf } else sized)))

-- The counts when one is taken out, and whether `HINT_LEAF_COUNT` is set on the chain.
unfoldable pub count_out : Blockref → Parent → Parent × Bool
count_out b p =
    let sized = record p { data_count = sub64 p.data_count (bytes_of b) } in
    let full = p.leaf_count == leaf_max in
    let one_less = if full then p.leaf_count else p.leaf_count - 1 in
    let leaves = λ (n : ℕ).
      if n == leaf_max then n else (if leb n b.leaf_count then 0 else n - b.leaf_count) in
    if b.type == bref_inode
    then (
      record sized {
        inode_count = sub64 (sub64 p.inode_count 1) b.inode_count;
        leaf_count = one_less;
        data_count = sub64 (sub64 p.data_count (bytes_of b)) b.data_count;
      },
      full,
    )
    else (if b.type == bref_data
        then (record sized { leaf_count = leaves one_less }, full)
        else (if b.type == bref_indirect
            then (
              record sized {
                inode_count = sub64 p.inode_count b.inode_count;
                leaf_count = leaves p.leaf_count;
                data_count = sub64 (sub64 p.data_count (bytes_of b)) b.data_count;
              },
              full,
            )
            else (if b.type == bref_dirent
                then (record sized { leaf_count = one_less }, full)
                else (sized, false))))

abbrev pub write_entry : (ℕ → Blockref) → ℕ → Blockref → ℕ → Blockref
write_entry base i b x = if x == i then b else base x

-- The entries after the empty one at `j` go one down, and `b` into the place before `i`.
abbrev pub shift_down : (ℕ → Blockref) → ℕ → ℕ → Blockref → ℕ → Blockref
shift_down base j i b x =
    if x + 1 == i then b else (if leb j x && ltb (x + 1) i then base (x + 1) else base x)

-- The entries from `i` up to the empty one at `k` go one up, and `b` into the place at `i`.
abbrev pub shift_up : (ℕ → Blockref) → ℕ → ℕ → Blockref → ℕ → Blockref
shift_up base i k b x = if x == i then b else (if ltb i x && leb x k then base (x - 1) else base x)

pub data EmptySlot : Type 0 where
  before : ℕ → EmptySlot
  after : ℕ → EmptySlot
  nowhere : EmptySlot

-- "Try to find an empty slot before or after": a turn of the loop after `d` turns.
unfoldable pub find_slot : (ℕ → Blockref) → ℕ → ℕ → ℕ → ℕ → EmptySlot
find_slot base count i zero d = nowhere
find_slot base count i (suc fuel) d =
    let next = find_slot base count i fuel (d + 1) in
    if ltb d i || ltb (i + d) count
    then (if leb (d + 1) i && is_empty (base (i - (d + 1)))
        then before (i - (d + 1))
        else (if ltb (i + d + 1) count && is_empty (base (i + d + 1))
            then after (i + d + 1)
            else next))
    else nowhere

-- The check after `validate`: each reference begins after the one before ends.
unfoldable pub validate : (ℕ → Blockref) → Option ℕ → ℕ → ℕ → Bool
validate base last zero l = true
validate base last (suc left) l =
    let b = base l in
    let next = validate base (if is_empty b then last else some (last_key b)) left (suc l) in
    (is_empty b || elim last [ none ↦ true | some k ↦ ltb k b.key ]) && next

-- `hpanic` leaves the parent as it is then.
pub data Inserted : Type 0 where
  done : Parent → Inserted
  panicked : Parent → Inserted
  asserted : Inserted

unfoldable pub validated : Parent → Inserted
unfolding validate
validated p = if validate p.base none p.count 0 then done p else panicked p

unfoldable pub put_slot : Parent → ℕ → Blockref → EmptySlot → Inserted
unfolding validated
put_slot p i b (before j) = validated (record p { base = shift_down p.base j i b })
put_slot p i b (after k) = validated (record p {
  base = shift_up p.base i k b;
  live_zero = if leb p.live_zero k then k + 1 else p.live_zero;
})
put_slot p i b nowhere = panicked p

-- `i != count && (base[i].key < elm->key || xkey >= base[i].key)`
abbrev pub overlaps : Parent → ℕ → Blockref → Bool
overlaps p i b = not (i == p.count) && (ltb (p.base i).key b.key || leb (p.base i).key (last_key b))

-- After the search and the counts: `i` is the index found.
unfoldable pub place_ref : Blockref → ℕ → Parent → Inserted
unfolding put_slot find_slot
place_ref b i p =
    if i == p.count && ltb p.live_zero p.count
    then done (record p { base = write_entry p.base p.live_zero b; live_zero = p.live_zero + 1 })
    else (if overlaps p i b
        then panicked p
        else put_slot p i b (find_slot p.base p.count i (p.count + 1) 0))

unfoldable pub insert_at : Blockref → BaseFound → Inserted
unfolding count_in place_ref
insert_at b BaseFound.asserted = Inserted.asserted
insert_at b (found i key_next p) =
    if leb i p.count then place_ref b i (count_in b p) else Inserted.asserted

-- The table of the parent; the chain's flag `BLKMAPPED` is set on every path.
unfoldable pub hammer2_base_insert : Parent → Blockref → Inserted
unfolding insert_at hammer2_base_find
hammer2_base_insert p b = insert_at b (hammer2_base_find p 0 b.key)

-- The parent, the reference that was in the table (`*obref`), and whether `HINT_LEAF_COUNT` is set; the
-- chain's flags `BLKMAPPED` and `BLKMAPUPD` are cleared on `done` only.
pub data Deleted : Type 0 where
  done : Parent → Blockref → Bool → Deleted
  panicked : Parent → Deleted
  asserted : Deleted

-- The index after the last entry that is not empty, of those before `i`.
unfoldable pub trim : (ℕ → Blockref) → ℕ → ℕ
trim base zero = zero
trim base (suc i) = if is_empty (base i) then trim base i else suc i

unfoldable pub clear_entry : Parent → ℕ → Parent
unfolding trim
clear_entry p i = record p {
  base = write_entry p.base i no_blockref;
  live_zero = if p.live_zero == i + 1 then trim p.base i else p.live_zero;
}

-- `updating` is the chain's flag `BLKMAPUPD`.
unfoldable pub delete_at : Blockref → Bool → BaseFound → Deleted
unfolding count_out clear_entry
delete_at b updating BaseFound.asserted = Deleted.asserted
delete_at b updating (found i key_next p) =
    let scan = p.base i in
    if i == p.count
      || is_empty scan
      || not (scan.key == b.key)
      || (not updating && not (scan.keybits == b.keybits))
    then panicked p
    else let (q, hint) = count_out scan p in done (clear_entry q i) scan hint

unfoldable pub hammer2_base_delete : Parent → Blockref → Bool → Deleted
unfolding delete_at hammer2_base_find
hammer2_base_delete p b updating = delete_at b updating (hammer2_base_find p 0 b.key)
