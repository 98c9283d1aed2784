-- ===== src/Io/Change.antt =====
-- A change of one dio of the table, and a dio that is entered.
use linux_hammer.Base.{
  ℕ, ◌+◌, ◌%◌, ◌^◌, ◌<◌, ◌≡◌, subst, true, false, ◌==◌, some, List, ==_self, ℕ_discrete, arith,
}
use linux_hammer.Base.Family.{put, tally-put}
use linux_hammer.Io.{iohash_size, Dio, Hmp}
use linux_hammer.Io.Table.{hammer2_io_hashv, update_dio, dio_of, with_dio}
use linux_hammer.Io.Invariant.{
  free_weight, free_of, IsSound, IsChain, Inv, find-pbase, find-IsSound, update_dio-find,
  update_dio-IsChain, update_dio-free_of,
}

-- The table holds, and `p` is a block of it that has a reference.
pub record IsOwned (hmp : Hmp) (p : ℕ) : Type 0 where
  pub inv : Inv hmp
  pub dio : Dio
  pub at : dio_of hmp p ≡ some dio
  pub refs : 0 < dio.refs

put-IsChain :
    (hash : ℕ → List Dio) (slot : ℕ) (ds : List Dio)
    → ((s : ℕ) → IsChain s (hash s))
    → IsChain slot ds
    → (s : ℕ) → IsChain s (put hash slot ds s)
put-IsChain hash slot ds chains chain s = elim (ℕ_discrete slot s) [
  | yes e ↦
      let here : (slot == s) ≡ true = ground (arith, e) in
      rw here (subst (λ x. IsChain x ds) e chain)
  | no ne ↦ let other : (slot == s) ≡ false = ground arith in rw other (chains s)
]

-- A chain replaced by one with other numbers of free dios.
pub replaced-Inv :
    (hmp : Hmp) (slot : ℕ) (ds : List Dio) (n gone more : ℕ)
    → slot < iohash_size
    → IsChain slot ds
    → free_of ds + gone ≡ free_of (hmp.iohash slot) + more
    → (n + gone) % 2 ^ 32 ≡ (hmp.iofree_count + more) % 2 ^ 32
    → n < 2 ^ 32
    → Inv hmp
    → Inv (record hmp { iohash = put hmp.iohash slot ds; iofree_count = n })
replaced-Inv hmp slot ds n gone more lt chain frees counts small inv = record {
  chains = put-IsChain hmp.iohash slot ds inv.chains chain;
  counted =
      omega
        (arith, tally-put free_of iohash_size hmp.iohash slot ds lt, frees, counts, inv.counted);
}

pub hashv-lt : (p : ℕ) → hammer2_io_hashv p < iohash_size
hashv-lt p = omega arith

module _ (hmp : Hmp) (p : ℕ) (d : Dio) (at : dio_of hmp p ≡ some d) (inv : Inv hmp) where
  pub found-IsSound : IsSound d
  unfolding dio_of
  found-IsSound =
      find-IsSound (hammer2_io_hashv p) p (hmp.iohash (hammer2_io_hashv p)) d
        (inv.chains (hammer2_io_hashv p)) at

  pub found-pbase : d.pbase ≡ p
  unfolding dio_of
  found-pbase = find-pbase p (hmp.iohash (hammer2_io_hashv p)) d at

  module _ (f : Dio → Dio) (same : (f d).pbase ≡ p) (sound : IsSound (f d)) where
    pub changed-Inv :
        (n : ℕ)
        → (n + free_weight d) % 2 ^ 32 ≡ (hmp.iofree_count + free_weight (f d)) % 2 ^ 32
        → n < 2 ^ 32
        → Inv (record (with_dio hmp p f) { iofree_count = n })
    unfolding with_dio dio_of
    changed-Inv n counts small =
        let slot = hammer2_io_hashv p in
        replaced-Inv hmp slot (update_dio p f (hmp.iohash slot)) n (free_weight d)
          (free_weight (f d)) (hashv-lt p)
          (update_dio-IsChain p f d same slot (hmp.iohash slot) at sound (inv.chains slot))
          (update_dio-free_of p f d same (hmp.iohash slot) at) counts small inv

    pub changed-dio_of : dio_of (with_dio hmp p f) p ≡ some (f d)
    unfolding with_dio dio_of
    changed-dio_of =
        rw (==_self (hammer2_io_hashv p))
          (update_dio-find p f d same (hmp.iohash (hammer2_io_hashv p)) at)

    -- The number of references stays, or stays above 0.
    pub kept-Inv : free_weight d ≡ free_weight (f d) → Inv (with_dio hmp p f)
    unfolding with_dio
    kept-Inv e = changed-Inv hmp.iofree_count (omega (arith, e)) (omega (arith, inv.counted))
