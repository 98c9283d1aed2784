-- ===== src/Xop/Fifo.antt =====
-- The FIFO of an element's replies: a ring that grows, and is read by the frontend.
use linux_hammer.Base.{
  ℕ, zero, suc, ◌+◌, ◌-◌, ◌*◌, ◌/◌, ◌%◌, ◌^◌, Bool, true, false, not, ◌&&◌, ◌||◌, ◌==◌, ltb, leb,
  if◌then◌else◌, Option, none, some, List, [], ◌∷◌, get_elem?, set,
}
use linux_hammer.Cluster.{Chain}
pub mod Moves
pub mod Ring
pub mod Feed

-- `HAMMER2_XOPFIFO`, the size that the FIFO of an operation begins with.
abbrev pub xopfifo : ℕ
xopfifo = 16

-- `struct hammer2_xop_fifo`; the two arrays are filled from `ri` up to `wi`, each index masked.
-- The indices count the replies, which are fewer than 2^31, as an int that is counted past it is undefined.
pub record Fifo : Type 0 where
  pub array : ℕ → Option Chain
  pub errors : ℕ → ℕ
  pub ri : ℕ
  pub wi : ℕ

-- A write at an index.
abbrev pub write_at {ℓ} : {A : Type ℓ} → (ℕ → A) → ℕ → A → ℕ → A
write_at f i v x = if x == i then v else f x

-- One turn of the loop of `hammer2_xop_fifo_alloc`. The sizes are powers of two, so that a mask is a
-- remainder.
unfoldable pub move_entry : ℕ → ℕ → ℕ → Fifo → Fifo
move_entry new old k f = if k % old == k % new then f else record f {
  array = write_at f.array (k % new) (f.array (k % old));
  errors = write_at f.errors (k % new) (f.errors (k % old));
}

-- The loop, with `left` entries to go.
unfoldable pub move_entries : ℕ → ℕ → ℕ → ℕ → Fifo → Fifo
unfolding move_entry
move_entries new old zero k f = f
move_entries new old (suc left) k f = move_entries new old left (suc k) (move_entry new old k f)

-- `hammer2_xop_fifo_alloc` of a FIFO that has arrays; a `KKASSERT` on the sizes may fail.
unfoldable pub hammer2_xop_fifo_alloc : ℕ → ℕ → Fifo → Option Fifo
unfolding move_entries
hammer2_xop_fifo_alloc new old f =
    if ltb old new && leb xopfifo new
    then some (move_entries new old (f.wi - f.ri) f.ri f)
    else none

-- What the operation has for all elements: `fifo_size`, and whether `run_mask` has the frontend.
pub record Xop : Type 0 where
  pub collect : List Fifo
  pub fifo_size : ℕ
  pub active : Bool

pub data Fed : Type 0 where
  fed : Xop → Fed
  aborted : Fed
  asserted : Fed

-- Every element's FIFO is grown.
unfoldable pub grow_all : ℕ → ℕ → List Fifo → Option (List Fifo)
grow_all new old [] = some []
grow_all new old (f ∷ fs) = elim (hammer2_xop_fifo_alloc new old f) [
  | none ↦ none
  | some f' ↦ elim (grow_all new old fs) [ none ↦ none | some fs' ↦ some (f' ∷ fs') ]
]

-- The reply of a chain is its own error if there is no other.
abbrev pub reply_error : Option Chain → ℕ → ℕ
reply_error none error = error
reply_error (some c) error = if error == 0 then c.error else error

unfoldable pub push_reply : ℕ → Option Chain → ℕ → Fifo → Fifo
push_reply size chain error f = record f {
  array = write_at f.array (f.wi % size) chain;
  errors = write_at f.errors (f.wi % size) (reply_error chain error);
  wi = f.wi + 1;
}

-- What `hammer2_xop_collect` takes from the FIFO, if there is anything.
unfoldable pub take_reply : ℕ → Fifo → Option (Option Chain × ℕ × Fifo)
take_reply size f =
    if f.ri == f.wi
    then none
    else some (f.array (f.ri % size), f.errors (f.ri % size), record f { ri = f.ri + 1 })

-- `fifo->ri == fifo->wi - xop->fifo_size`
abbrev pub is_full : ℕ → Fifo → Bool
is_full size f = f.ri + size == f.wi

-- The rest of `hammer2_xop_feed`, from `if (chain)` on.
unfoldable pub feed_room : Xop → ℕ → Option Chain → ℕ → Option Fifo → Fed
unfolding push_reply
feed_room x clindex chain error none = asserted
feed_room x clindex chain error (some f) =
    fed (record x { collect = set x.collect clindex (push_reply x.fifo_size chain error f) })

-- Every FIFO is grown, and the loop is tried again.
unfoldable pub feed_grown : ℕ → Xop → Option (List Fifo) → Option Xop
feed_grown size x none = none
feed_grown size x (some fs) = some (record x { collect = fs; fifo_size = size })

unfoldable pub full_at : Xop → ℕ → Bool
full_at x clindex = elim (get_elem? x.collect clindex) [
  | none ↦ false
  | some f ↦ is_full x.fifo_size f
]

-- The `while` loop of `hammer2_xop_feed`: the operation with room in the FIFO of the element. `none` is a
-- failed assertion, or no fuel.
unfoldable pub make_room : ℕ → Xop → ℕ → Option Xop
make_room zero x clindex = none
make_room (suc fuel) x clindex = elim (full_at x clindex) [
  | false ↦ some x
  | true ↦
      elim (feed_grown (x.fifo_size * 2) x (grow_all (x.fifo_size * 2) x.fifo_size x.collect)) [
        | none ↦ none
        | some y ↦ make_room fuel y clindex
      ]
]

unfoldable pub feed_made : ℕ → Option Chain → ℕ → Option Xop → Fed
feed_made clindex chain error none = asserted
feed_made clindex chain error (some x) =
    feed_room x clindex chain error (get_elem? x.collect clindex)

unfoldable pub hammer2_xop_feed : ℕ → Xop → ℕ → Option Chain → ℕ → Fed
hammer2_xop_feed fuel x clindex chain error =
    if x.active then feed_made clindex chain error (make_room fuel x clindex) else aborted
