-- ===== src/Io/Owned.antt =====
-- A reference taken, a dio touched and a dio entered.
use linux_hammer.Base.{
  ℕ, ◌+◌, ◌%◌, ◌^◌, ◌<◌, ◌≡◌, refl, inl, inr, false, ◌==◌, none, some, List, [], ◌∷◌, Bool-cases,
  ==_self, arith,
}
use linux_hammer.Io.{Dio, Hmp}
use linux_hammer.Io.Table.{
  hammer2_io_hashv, find, add_last, dio_of, with_dio, dec_free, add_ref, take_ref, touch,
}
use linux_hammer.Io.Invariant.{
  free_weight, free_of, IsSound, IsChain, Inv, find_cons-none, find_cons-other,
}
use linux_hammer.Io.Change.{
  IsOwned, found-IsSound, found-pbase, changed-Inv, changed-dio_of, kept-Inv,
}

pub add_ref-IsSound : (d : Dio) → IsSound d → IsSound (add_ref d)
add_ref-IsSound d sound = record { has = sound.has; clean = λ e. absurd (omega (arith, e)) }

touch-IsSound : (now : ℕ) (d : Dio) → IsSound d → IsSound (touch now d)
touch-IsSound now d sound = record { has = sound.has; clean = sound.clean }

dec_counts :
    (hmp : Hmp) (d : Dio)
    → d.refs ≡ 0
    → (dec_free hmp.iofree_count + free_weight d) % 2 ^ 32
      ≡ (hmp.iofree_count + free_weight (add_ref d)) % 2 ^ 32
dec_counts hmp d free = ground (arith, free)

pub with_count :
    (hmp : Hmp) (n p : ℕ) (d : Dio)
    → dio_of hmp p ≡ some d
    → dio_of (record hmp { iofree_count = n }) p ≡ some d
unfolding dio_of
with_count hmp n p d at = at

pub take_ref-IsOwned :
    (hmp : Hmp) (p : ℕ) (d : Dio) → dio_of hmp p ≡ some d → Inv hmp → IsOwned (take_ref hmp d) p
unfolding take_ref
take_ref-IsOwned hmp p d at inv =
    let e = found-pbase hmp p d at inv in
    let sound = add_ref-IsSound d (found-IsSound hmp p d at inv) in
    elim (Bool-cases (d.refs == 0)) [
      | inl free ↦
          rw (free, e)
            (record {
              inv =
                  changed-Inv hmp p d at inv add_ref e sound (dec_free hmp.iofree_count)
                    (dec_counts hmp d (ground (arith, free))) (omega arith);
              dio = add_ref d;
              at =
                  with_count (with_dio hmp p add_ref) (dec_free hmp.iofree_count) p (add_ref d)
                    (changed-dio_of hmp p d at inv add_ref e sound);
              refs = omega arith;
            })
      | inr used ↦
          rw (used, e)
            (record {
              inv = kept-Inv hmp p d at inv add_ref e sound (ground (arith, used));
              dio = add_ref d;
              at = changed-dio_of hmp p d at inv add_ref e sound;
              refs = omega arith;
            })
    ]

pub touch-IsOwned :
    (now : ℕ) (hmp : Hmp) (p : ℕ) → IsOwned hmp p → IsOwned (with_dio hmp p (touch now)) p
touch-IsOwned now hmp p owned =
    let d = owned.dio in
    let e = found-pbase hmp p d owned.at owned.inv in
    let sound = touch-IsSound now d (found-IsSound hmp p d owned.at owned.inv) in
    record {
      inv = kept-Inv hmp p d owned.at owned.inv (touch now) e sound refl;
      dio = touch now d;
      at = changed-dio_of hmp p d owned.at owned.inv (touch now) e sound;
      refs = owned.refs;
    }

-- A dio entered at the end of its chain.
module _ (x : Dio) (used : 0 < x.refs) where
  add_last-find-none :
      (q : ℕ) (ds : List Dio)
      → (x.pbase == q) ≡ false
      → find q ds ≡ none
      → find q (add_last x ds) ≡ none
  unfolding add_last
  add_last-find-none q [] other gone = find_cons-other q x [] other gone
  add_last-find-none q (d ∷ ds) other gone =
      let (apart, rest) = find_cons-none q d ds gone in
      find_cons-other q d (add_last x ds) apart (add_last-find-none q ds other rest)

  pub add_last-find :
      (ds : List Dio) → find x.pbase ds ≡ none → find x.pbase (add_last x ds) ≡ some x
  unfolding add_last find
  add_last-find [] gone = rw (==_self x.pbase) refl
  add_last-find (d ∷ ds) gone =
      let (apart, rest) = find_cons-none x.pbase d ds gone in rw apart (add_last-find ds rest)

  pub add_last-IsChain :
      (slot : ℕ) (ds : List Dio)
      → hammer2_io_hashv x.pbase ≡ slot
      → IsSound x
      → find x.pbase ds ≡ none
      → IsChain slot ds
      → IsChain slot (add_last x ds)
  unfolding add_last IsChain
  add_last-IsChain slot [] belongs sound gone chain = (belongs, sound, gone, tt)
  add_last-IsChain slot (d ∷ ds) belongs sound gone (its, good, fresh, chain) =
      let (apart, rest) = find_cons-none x.pbase d ds gone in
      (
        its,
        good,
        add_last-find-none d.pbase ds (ground (arith, apart)) fresh,
        add_last-IsChain slot ds belongs sound rest chain,
      )

  pub add_last-free_of : (ds : List Dio) → free_of (add_last x ds) ≡ free_of ds
  unfolding add_last free_of
  add_last-free_of [] = ground (arith, used)
  add_last-free_of (d ∷ ds) = omega (arith, add_last-free_of ds)
