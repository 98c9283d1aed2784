-- ===== src/Xop/Tests.antt =====
-- Runs of the FIFO.
use linux_hammer.Base.{ℕ, ◌+◌, ◌≤◌, ◌≡◌, ◌≢◌, refl, true, false, none, some, [], ◌∷◌, arith}
use linux_hammer.Base.Error
use linux_hammer.Cluster.{master, no_flags}
use linux_hammer.Xop.Collect.{Front, hammer2_xop_collect}
use linux_hammer.Xop.Collect.Rounds.{chains, AllOrdered}
use linux_hammer.Xop.Collect.Ends.{pending, IsReady, xop_collect-ends}
use linux_hammer.Xop.Fifo.{Fifo, Xop, fed, hammer2_xop_feed}
use linux_hammer.Xop.Fifo.Feed.{AllRings, queues, enqueue, xop_feed-enqueue}

-- A FIFO that has been read past its end once, with `held` replies that have no chain.
abbrev fifo_with : ℕ → Fifo
fifo_with held = record { array = λ i. none; errors = λ i. i; ri = 20; wi = 20 + held }

-- Two elements, the first of them full.
abbrev full_xop : Xop
full_xop = record { collect = fifo_with 16 ∷ fifo_with 1 ∷ []; fifo_size = 16; active = true }

full_xop-AllRings : AllRings 16 (fifo_with 16 ∷ fifo_with 1 ∷ [])
unfolding AllRings
full_xop-AllRings = (
  record { places = omega arith; ordered = omega arith; within = omega arith },
  (record { places = omega arith; ordered = omega arith; within = omega arith }, tt),
)

xop_feed-enqueue_example :
    (y : Xop) × (hammer2_xop_feed 2 full_xop 0 none 7 ≡ fed y)
    × AllRings y.fifo_size y.collect
    × (queues y.fifo_size y.collect
        ≡ enqueue (queues 16 (fifo_with 16 ∷ fifo_with 1 ∷ [])) 0 (none, 7))
xop_feed-enqueue_example =
    xop_feed-enqueue full_xop 0 (fifo_with 16) none 7 refl full_xop-AllRings refl

-- One element that is a master, at work, with a reply in its FIFO.
abbrev one_front : Front
one_front = record {
  xop = record { collect = fifo_with 1 ∷ []; fifo_size = 16; active = true };
  cluster = record {
    pfs_nmasters = some 1;
    slots =
        record {
          pfs_type = master;
          chain = none;
          error = 0;
          invalid = false;
          femod = false;
          null = false;
        }
        ∷ [];
    focus = none;
    focus_index = 0;
    error = 0;
    flags = no_flags;
    ddflag = false;
  };
  collect_key = 0;
}

one_front-IsReady : IsReady 1 one_front
unfolding chains AllOrdered
one_front-IsReady = record { counted = refl; ordered = (omega arith, tt) }

xop_collect-ends_example :
    (y : Front) × (e : ℕ) × (hammer2_xop_collect (pending one_front + 2) one_front ≡ some (y, e))
    × (e ≢ Error.esrch)
    × (e ≢ Error.edeadlk)
    × IsReady 1 y
    × (pending y ≤ pending one_front)
xop_collect-ends_example = xop_collect-ends one_front 1 one_front-IsReady
