-- ===== src/Xop/Fifo/Feed.antt =====
-- The queues of all elements, as `hammer2_xop_feed` changes them.
use mathlib.Core.Option.{some-injective, none-ne-some}
use linux_hammer.Base.{
  ℕ, zero, suc, ◌+◌, ◌*◌, ◌≤◌, ◌≡◌, ◌≢◌, refl, sym, ap, ◌∙◌, true, false, ◌==◌, Option, some, List,
  [], ◌∷◌, ◌++◌, get_elem?, set, arith, ℕ_discrete, subst,
}
use linux_hammer.Cluster.{Chain}
use linux_hammer.Xop.Fifo.{
  Fifo, Xop, fed, grow_all, reply_error, push_reply, feed_room, feed_grown, full_at, make_room,
  feed_made, hammer2_xop_feed,
}
use linux_hammer.Xop.Fifo.Ring.{items, IsRing, items-grow, items-push_reply}

-- What the frontend has still to read, of each element.
unfoldable pub queues : ℕ → List Fifo → List (List (Option Chain × ℕ))
queues size [] = []
queues size (f ∷ fs) = items size f ∷ queues size fs

-- One more at the end of the queue of element `i`.
unfoldable pub enqueue {ℓ} : {A : Type ℓ} → List (List A) → ℕ → A → List (List A)
enqueue [] i x = []
enqueue (q ∷ qs) zero x = (q ++ x ∷ []) ∷ qs
enqueue (q ∷ qs) (suc i) x = q ∷ enqueue qs i x

unfoldable pub AllRings : ℕ → List Fifo → Type 0
AllRings size [] = Unit {0}
AllRings size (f ∷ fs) = IsRing size f × AllRings size fs

-- Every element has the indices that it had.
unfoldable pub Keeps : List Fifo → List Fifo → Type 0
Keeps fs fs' =
    (i : ℕ) (f : Fifo)
    → get_elem? fs i ≡ some f
    → (f' : Fifo) × (get_elem? fs' i ≡ some f') × (f'.ri ≡ f.ri) × (f'.wi ≡ f.wi)

Keeps-next :
    (g g' : Fifo) (gs gs' : List Fifo)
    → g'.ri ≡ g.ri
    → g'.wi ≡ g.wi
    → Keeps gs gs'
    → Keeps (g ∷ gs) (g' ∷ gs')
unfolding Keeps
Keeps-next g g' gs gs' r w k zero f at =
    let same : g ≡ f = some-injective g f at in (g', refl, cc, cc)
Keeps-next g g' gs gs' r w k (suc i) f at = k i f at

pub grow_all_lem :
    (old : ℕ) (fs : List Fifo)
    → AllRings old fs
    → (fs' : List Fifo) × (grow_all (old * 2) old fs ≡ some fs')
      × AllRings (old * 2) fs'
      × (queues (old * 2) fs' ≡ queues old fs)
      × Keeps fs fs'
unfolding grow_all queues Keeps AllRings
grow_all_lem old [] all = ([], refl, tt, refl, λ i f at. absurd (none-ne-some f at))
grow_all_lem old (g ∷ gs) (r, all) =
    let (g', eg, rg, ig, rig, wig) = items-grow old g r in
    let (gs', eq, all', q, there) = grow_all_lem old gs all in
    (g' ∷ gs', rw (grow_all, eg, eq) refl, (rg, all'), cc, Keeps-next g g' gs gs' rig wig there)

-- A reply for an element with room.
pub feed_at :
    (size : ℕ) (chain : Option Chain) (error : ℕ) (fs : List Fifo) (i : ℕ) (f : Fifo)
    → AllRings size fs
    → get_elem? fs i ≡ some f
    → f.wi ≢ f.ri + size
    → AllRings size (set fs i (push_reply size chain error f))
      × (queues size (set fs i (push_reply size chain error f))
          ≡ enqueue (queues size fs) i (chain, reply_error chain error))
unfolding queues enqueue AllRings
feed_at size chain error [] i f all at room = absurd (none-ne-some f at)
feed_at size chain error (g ∷ gs) zero f (r, all) at room =
    let same : g ≡ f = some-injective g f at in
    let within = r.within in
    let room' : g.wi ≢ g.ri + size = rw same room in
    let (r', q) = items-push_reply size chain error g r (omega arith) in
    rw (sym same) ((r', all), cc)
feed_at size chain error (g ∷ gs) (suc i) f (r, all) at room =
    let (all', q) = feed_at size chain error gs i f all at room in ((r, all'), cc)

IsRing-at :
    (size : ℕ) (fs : List Fifo) (i : ℕ) (f : Fifo)
    → AllRings size fs
    → get_elem? fs i ≡ some f
    → IsRing size f
unfolding AllRings
IsRing-at size [] i f all at = absurd (none-ne-some f at)
IsRing-at size (g ∷ gs) zero f (r, all) at =
    let same : g ≡ f = some-injective g f at in subst (IsRing size) same r
IsRing-at size (g ∷ gs) (suc i) f (r, all) at = IsRing-at size gs i f all at

room_now :
    (fuel : ℕ) (x : Xop) (clindex : ℕ) (f : Fifo)
    → get_elem? x.collect clindex ≡ some f
    → f.wi ≢ f.ri + x.fifo_size
    → make_room (suc fuel) x clindex ≡ some x
unfolding make_room full_at
room_now fuel x clindex f at room =
    let test : (f.ri + x.fifo_size == f.wi) ≡ false = ground (arith, room) in
    rw (make_room, full_at, at, test) refl

room_grown :
    (fuel : ℕ) (x : Xop) (clindex : ℕ) (f f' : Fifo) (fs' : List Fifo)
    → get_elem? x.collect clindex ≡ some f
    → f.wi ≡ f.ri + x.fifo_size
    → grow_all (x.fifo_size * 2) x.fifo_size x.collect ≡ some fs'
    → get_elem? fs' clindex ≡ some f'
    → f'.wi ≢ f'.ri + x.fifo_size * 2
    → make_room (suc (suc fuel)) x clindex
      ≡ some (record x { collect = fs'; fifo_size = x.fifo_size * 2 })
unfolding make_room full_at feed_grown
room_grown fuel x clindex f f' fs' at full grown at' room =
    let test : (f.ri + x.fifo_size == f.wi) ≡ true = ground (arith, full) in
    let y : Xop = record x { collect = fs'; fifo_size = x.fifo_size * 2 } in
    rw (make_room, full_at, at, test, grown) (room_now fuel y clindex f' at' room)

fed_lem :
    (x y : Xop) (clindex : ℕ) (f : Fifo) (chain : Option Chain) (error : ℕ)
    → x.active ≡ true
    → make_room 2 x clindex ≡ some y
    → get_elem? y.collect clindex ≡ some f
    → hammer2_xop_feed 2 x clindex chain error
      ≡ fed (record y { collect = set y.collect clindex (push_reply y.fifo_size chain error f) })
unfolding hammer2_xop_feed feed_made feed_room
fed_lem x y clindex f chain error active made at = rw (hammer2_xop_feed, made, active, at) refl

-- A reply that is fed while the frontend is there goes to the end of the element's queue, and no other
-- queue changes, also where every FIFO has to grow for it; the loop needs no third look.
pub xop_feed-enqueue :
    (x : Xop) (clindex : ℕ) (f : Fifo) (chain : Option Chain) (error : ℕ)
    → x.active ≡ true
    → AllRings x.fifo_size x.collect
    → get_elem? x.collect clindex ≡ some f
    → (y : Xop) × (hammer2_xop_feed 2 x clindex chain error ≡ fed y)
      × AllRings y.fifo_size y.collect
      × (queues y.fifo_size y.collect
          ≡ enqueue (queues x.fifo_size x.collect) clindex (chain, reply_error chain error))
unfolding Keeps
xop_feed-enqueue x clindex f chain error active all at =
    elim (ℕ_discrete f.wi (f.ri + x.fifo_size)) [
      | no room ↦
          let (all', q) = feed_at x.fifo_size chain error x.collect clindex f all at room in
          (
            record x { collect = set x.collect clindex (push_reply x.fifo_size chain error f) },
            fed_lem x x clindex f chain error active (room_now 1 x clindex f at room) at,
            all',
            q,
          )
      | yes full ↦
          let (fs', grown, all', q, keeps) = grow_all_lem x.fifo_size x.collect all in
          let (f', at', ri, wi) = keeps clindex f at in
          let ring = IsRing-at x.fifo_size x.collect clindex f all at in
          let places : 16 ≤ x.fifo_size = ring.places in
          let room : f'.wi ≢ f'.ri + x.fifo_size * 2 = λ e. absurd (omega arith) in
          let y : Xop = record x { collect = fs'; fifo_size = x.fifo_size * 2 } in
          let (all'', q') = feed_at (x.fifo_size * 2) chain error fs' clindex f' all' at' room in
          (
            record x {
              collect = set fs' clindex (push_reply (x.fifo_size * 2) chain error f');
              fifo_size = x.fifo_size * 2;
            },
            fed_lem x y clindex f' chain error active
                (room_grown 0 x clindex f f' fs' at full grown at' room) at',
            all'',
            q' ∙ ap (λ qs. enqueue qs clindex (chain, reply_error chain error)) q,
          )
    ]
