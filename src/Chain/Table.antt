-- ===== src/Chain/Table.antt =====
-- The block table of a chain: an array of block references, sorted by key, with empty entries in between.
use linux_hammer.Base.{
  ℕ, zero, suc, ◌+◌, ◌-◌, ◌*◌, ◌/◌, ◌%◌, ◌^◌, Bool, true, false, not, ◌&&◌, ◌||◌, ◌==◌, ltb, leb,
  if◌then◌else◌, Option, none, some,
}
pub mod Change
pub mod Order
pub mod Find
pub mod Moves
pub mod Room
pub mod Place
pub mod Insert
pub mod Delete
pub mod Refuse

abbrev pub type_empty : ℕ
type_empty = 0

-- `struct hammer2_blockref`; the last two are `embed.stats`.
pub record Blockref : Type 0 where
  pub type : ℕ
  pub keybits : ℕ
  pub leaf_count : ℕ
  pub key : ℕ
  pub data_off : ℕ
  pub data_count : ℕ
  pub inode_count : ℕ

abbrev pub no_blockref : Blockref
no_blockref = record {
  type = type_empty;
  keybits = 0;
  leaf_count = 0;
  key = 0;
  data_off = 0;
  data_count = 0;
  inode_count = 0;
}

abbrev pub is_empty : Blockref → Bool
is_empty b = b.type == type_empty

-- The key after the range of the reference, and the last key of it.
unfoldable pub end_key : Blockref → ℕ
end_key b = (b.key + 2 ^ b.keybits) % 2 ^ 64

unfoldable pub last_key : Blockref → ℕ
last_key b = (b.key + 2 ^ b.keybits + (2 ^ 64 - 1)) % 2 ^ 64

-- What the functions use of the parent chain: its flag `COUNTEDBREFS`, the block array (`absent` for a
-- null `base`), and in `bref` its own counts.
pub record Parent : Type 0 where
  pub counted : Bool
  pub absent : Bool
  pub base : ℕ → Blockref
  pub count : ℕ
  pub cache_index : ℕ
  pub live_zero : ℕ
  pub leaf_count : ℕ
  pub data_count : ℕ
  pub inode_count : ℕ

-- The index, and `*key_nextp`; the parent has its `cache_index` moved.
pub data BaseFound : Type 0 where
  found : ℕ → ℕ → Parent → BaseFound
  asserted : BaseFound

unfoldable pub start_index : Parent → ℕ
start_index p = if leb p.live_zero p.cache_index then p.live_zero - 1 else p.cache_index

-- "Search backwards."
unfoldable pub search_back : (ℕ → Blockref) → ℕ → ℕ → ℕ
search_back base key_beg zero = zero
search_back base key_beg (suc i) =
    if is_empty (base (suc i)) || ltb key_beg ((base (suc i)).key)
    then search_back base key_beg i
    else suc i

abbrev pub stops : ℕ → Blockref → Bool
stops key_beg b = not (is_empty b) && (ltb key_beg b.key || leb key_beg (last_key b))

-- "Search forwards", with `left` entries to go; `none` is the return from inside the loop.
unfoldable pub search_forward : (ℕ → Blockref) → ℕ → ℕ → ℕ → ℕ → Option ℕ
search_forward base limit key_beg zero i = some i
search_forward base limit key_beg (suc left) i =
    let next = search_forward base limit key_beg left (suc i) in
    if stops key_beg (base i) then some i else (if leb limit i then none else next)

unfoldable pub next_key : ℕ → ℕ → ℕ
next_key key_next scan_end =
    if not (scan_end == 0) && (ltb scan_end key_next || key_next == 0) then scan_end else key_next

unfoldable pub after_search : Parent → ℕ → ℕ → Option ℕ → BaseFound
unfolding next_key
after_search p key_next j none = found p.count key_next (record p { cache_index = j })
after_search p key_next j (some i) =
    if i == p.count
    then found i key_next (record p { cache_index = j })
    else (if leb p.live_zero i
        then found p.count key_next (record p { cache_index = i })
        else found i (next_key key_next (end_key (p.base i))) (record p { cache_index = i }))

-- Where the search forwards begins.
unfoldable pub back_index : Parent → ℕ → ℕ
unfolding search_back start_index
back_index p key_beg = search_back p.base key_beg (start_index p)

unfoldable pub hammer2_base_find : Parent → ℕ → ℕ → BaseFound
unfolding after_search search_forward back_index start_index
hammer2_base_find p key_next key_beg =
    if not p.counted
    then asserted
    else (if p.count == 0 || p.absent
        then found p.count key_next p
        else (if leb p.count (start_index p)
            then asserted
            else after_search p key_next (back_index p key_beg) (
                search_forward p.base p.live_zero key_beg (p.count - back_index p key_beg)
                  (back_index p key_beg))))
