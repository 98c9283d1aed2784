-- ===== src/Xop/Collect.antt =====
-- `hammer2_xop_collect`: the frontend brings the elements to one key and asks the cluster check.
use linux_hammer.Base.{
  ℕ, zero, suc, ◌+◌, ◌-◌, ◌^◌, Bool, true, false, ◌&&◌, ◌||◌, ◌==◌, ltb, if◌then◌else◌, Option,
  none, some, List, [], ◌∷◌,
}
use linux_hammer.Base.Error
use linux_hammer.Cluster.{tid_max, Chain, Slot, Cluster}
use linux_hammer.Cluster.Check.{has_chain, hammer2_cluster_check}
use linux_hammer.Xop.Fifo.{Fifo, Xop, take_reply}
pub mod Rounds
pub mod Ends

-- The operation with its cluster: `xop->cluster` and `xop->collect_key`.
pub record Front : Type 0 where
  pub xop : Xop
  pub cluster : Cluster
  pub collect_key : ℕ

-- The element has no chain, or one of a key that is collected already: `adv` is 1.
abbrev pub is_behind : ℕ → Option Chain → Bool
is_behind key none = true
is_behind key (some c) = ltb c.key key

-- A reply is put into the cluster.
abbrev pub put_reply : Option Chain → ℕ → Slot → Slot
put_reply none error s = record s { chain = none; error = error; null = true }
put_reply (some c) error s = record s { chain = some c; error = error }

-- The turns of the first loop for one element. `none`: the fuel ran out.
unfoldable pub advance : ℕ → ℕ → ℕ → Slot → Fifo → Option (Slot × Fifo)
advance zero size key s f = none
advance (suc fuel) size key s f = elim (is_behind key s.chain) [
  | false ↦ some (s, f)
  | true ↦ elim (take_reply size f) [
    | none ↦ some (record s { chain = none }, f)
    | some (chain, error, f') ↦ advance fuel size key (put_reply chain error s) f'
  ]
]

-- What the first loop comes to: `keynull` is whether `HAMMER2_CHECK_NULL` is set.
pub record Gathered : Type 0 where
  pub slots : List Slot
  pub fifos : List Fifo
  pub lokey : ℕ
  pub keynull : Bool

abbrev pub lower : ℕ → Option Chain → ℕ
lower lokey none = lokey
lower lokey (some c) = if ltb c.key lokey then c.key else lokey

abbrev pub with_element : Slot → Fifo → Option Gathered → Option Gathered
with_element s f none = none
with_element s f (some g) = some (record g { slots = s ∷ g.slots; fifos = f ∷ g.fifos })

-- The first loop. Each element has fuel for its replies.
unfoldable pub gather_elements : ℕ → ℕ → List Slot → List Fifo → ℕ → Bool → Option Gathered
unfolding advance
gather_elements size key [] fs lokey keynull =
    some (record { slots = []; fifos = fs; lokey = lokey; keynull = keynull })
gather_elements size key (s ∷ ss) [] lokey keynull = none
gather_elements size key (s ∷ ss) (f ∷ fs) lokey keynull =
    elim (advance (f.wi - f.ri + 1) size key s f) [
      | none ↦ none
      | some (s', f') ↦ with_element s' f' (
          gather_elements size key ss fs (lower lokey s'.chain)
            (if has_chain s'.chain then false else keynull))
    ]

-- After the check, with the code that it returned: whether the loop goes on, or what is returned.
pub data Next : Type 0 where
  again : Front → Next
  returned : Front → ℕ → Next
  stuck : Next

-- "sufficient elements collected", one way or the other.
abbrev pub is_skip : ℕ → Bool
is_skip error = error == Error.esrch || error == Error.edeadlk

unfoldable pub after_check : ℕ → Front → ℕ → Next
after_check lokey x error =
    let y = record x { collect_key = if lokey == tid_max then lokey else lokey + 1 } in
    if is_skip error
    then (if lokey == tid_max then returned y Error.enoent else again y)
    else returned y error

unfoldable pub checked : ℕ → Front → Option (Cluster × ℕ) → Next
unfolding after_check
checked lokey x none = stuck
checked lokey x (some (cluster, error)) = after_check lokey (record x { cluster = cluster }) error

unfoldable pub with_gathered : Front → Option Gathered → Next
unfolding checked
with_gathered x none = stuck
with_gathered x (some g) =
    let cluster : Cluster = record x.cluster { slots = g.slots } in
    let xop : Xop = record x.xop { collect = g.fifos } in
    checked g.lokey (record x { xop = xop; cluster = cluster })
      (hammer2_cluster_check cluster g.lokey g.keynull)

-- From `again` to the tests of ESRCH and EDEADLK.
unfoldable pub collect_round : Front → Next
unfolding with_gathered gather_elements
collect_round x =
    with_gathered x
      (gather_elements x.xop.fifo_size x.collect_key x.cluster.slots x.xop.collect tid_max true)

-- `none`: no fuel is left, or `stuck`.
unfoldable pub hammer2_xop_collect : ℕ → Front → Option (Front × ℕ)
unfolding collect_round
hammer2_xop_collect zero x = none
hammer2_xop_collect (suc fuel) x = elim (collect_round x) [
  | again y ↦ hammer2_xop_collect fuel y
  | returned y error ↦ some (y, error)
  | stuck ↦ none
]
