-- ===== src/Io/Sweep.antt =====
-- The loop of `hammer2_io_hash_cleanup`, and the cleaning at the end of `hammer2_io_putblk`.
use linux_hammer.Base.{
  ℕ, zero, suc, ◌+◌, ◌-◌, ◌*◌, ◌%◌, ◌^◌, ◌<◌, ◌≡◌, refl, sym, subst, ◌∙◌, inl, inr, true, false,
  ◌&&◌, ◌==◌, ltb, Option, none, some, List, Bool-cases, Option-cases, ℕ_discrete, arith,
}
use linux_hammer.Base.Family.{put}
use linux_hammer.Io.{iohash_size, Dio, Hmp}
use linux_hammer.Io.Table.{hammer2_io_hashv, find, dio_of}
use linux_hammer.Io.Put.{
  clean_chain, clean_slots, clean_table, count_to_free, hammer2_io_hash_cleanup, put_cleanup,
  dio_limit_of,
}
use linux_hammer.Io.Invariant.{Inv}
use linux_hammer.Io.Change.{replaced-Inv}
use linux_hammer.Io.Cleaned.{IsCleaned, IsClean, no_clean, is_cleaned, clean_chain-IsClean}

-- No assertion fails, the table holds, and every dio that has a reference is in it unchanged.
pub record Swept (hmp next : Hmp) : Type 0 where
  pub inv : Inv next
  pub dev : next.dev ≡ hmp.dev
  pub used : (q : ℕ) (d : Dio) → 0 < d.refs → dio_of hmp q ≡ some d → dio_of next q ≡ some d

unfoldable pub IsSwept : Hmp → Option Hmp → Type 0
IsSwept hmp none = ⊥
IsSwept hmp (some next) = Swept hmp next

Swept-self : (hmp : Hmp) → Inv hmp → Swept hmp hmp
Swept-self hmp inv = record { inv = inv; dev = refl; used = λ q d lt at. at }

pub Swept-after : (a b : Hmp) (r : Option Hmp) → Swept a b → IsSwept b r → IsSwept a r
unfolding IsSwept
Swept-after a b none first second = second
Swept-after a b (some c) first second = record {
  inv = second.inv;
  dev = second.dev ∙ first.dev;
  used = λ q d lt at. second.used q d lt (first.used q d lt at);
}

kept_same : (hmp : Hmp) → Inv hmp → IsSwept hmp (some hmp)
unfolding IsSwept
kept_same hmp inv = Swept-self hmp inv

-- One chain walked.
abbrev slot_next : Hmp → ℕ → List Dio → ℕ → Hmp
slot_next hmp slot kept freed = record hmp {
  iohash = put hmp.iohash slot kept;
  io_iterator = (hmp.io_iterator + 1) % 2 ^ 32;
  iofree_count = (hmp.iofree_count + freed * (2 ^ 32 - 1)) % 2 ^ 32;
}

iterated-Inv : (hmp : Hmp) (i : ℕ) → Inv hmp → Inv (record hmp { io_iterator = i })
iterated-Inv hmp i inv = record { chains = inv.chains; counted = inv.counted }

slot-Swept :
    (hmp : Hmp) (slot : ℕ) (kept : List Dio) (freed : ℕ)
    → slot < iohash_size
    → IsCleaned slot (hmp.iohash slot) kept freed
    → Inv hmp
    → Swept hmp (slot_next hmp slot kept freed)
unfolding dio_of
slot-Swept hmp slot kept freed lt cleaned inv = record {
  inv =
      replaced-Inv (record hmp { io_iterator = (hmp.io_iterator + 1) % 2 ^ 32 }) slot kept
        ((hmp.iofree_count + freed * (2 ^ 32 - 1)) % 2 ^ 32) freed 0 lt cleaned.chain
        (omega (arith, cleaned.frees)) (omega arith) (omega arith)
        (iterated-Inv hmp ((hmp.io_iterator + 1) % 2 ^ 32) inv);
  dev = refl;
  used = λ q d lt at. elim (ℕ_discrete slot (hammer2_io_hashv q)) [
    | yes e ↦
        let here : (slot == hammer2_io_hashv q) ≡ true = ground (arith, e) in
        rw here (cleaned.used q d lt (subst (λ s. find q (hmp.iohash s) ≡ some d) (sym e) at))
    | no ne ↦ let other : (slot == hammer2_io_hashv q) ≡ false = ground arith in rw other at
  ];
}

clean_slots-IsSwept :
    (now hz maxscan count : ℕ) (hmp : Hmp)
    → Inv hmp
    → IsSwept hmp (clean_slots now hz maxscan count hmp)
unfolding clean_slots
clean_slots-IsSwept now hz zero count hmp inv = kept_same hmp inv
clean_slots-IsSwept now hz (suc maxscan) count hmp inv =
    let slot = hmp.io_iterator % iohash_size in
    let walked = clean_chain-IsClean now hz slot (hmp.iohash slot) (inv.chains slot) in
    elim (Bool-cases (count == 0)) [
      | inl done ↦ rw (clean_slots, done) (kept_same hmp inv)
      | inr more ↦ elim (Option-cases (clean_chain now hz (hmp.iohash slot))) [
        | inl e ↦
            absurd
              (no_clean slot (hmp.iohash slot) (subst (IsClean slot (hmp.iohash slot)) e walked))
        | inr ((kept, freed), e) ↦
            let cleaned =
              is_cleaned slot (hmp.iohash slot) kept freed
                (subst (IsClean slot (hmp.iohash slot)) e walked) in
            let step = slot-Swept hmp slot kept freed (omega arith) cleaned inv in
            rw (clean_slots, more, e)
              (Swept-after hmp (slot_next hmp slot kept freed)
                (clean_slots now hz maxscan (count - freed) (slot_next hmp slot kept freed)) step
                (clean_slots-IsSwept now hz maxscan (count - freed) (slot_next hmp slot kept freed)
                  step.inv))
      ]
    ]

pub no_sweep : (hmp : Hmp) → IsSwept hmp none → ⊥
unfolding IsSwept
no_sweep hmp swept = swept

pub is_swept : (hmp next : Hmp) → IsSwept hmp (some next) → Swept hmp next
unfolding IsSwept
is_swept hmp next swept = swept

iterated-Swept :
    (hmp next : Hmp) (i : ℕ) → Swept hmp next → IsSwept hmp (some (record next { io_iterator = i }))
unfolding IsSwept dio_of
iterated-Swept hmp next i swept = record {
  inv = iterated-Inv next i swept.inv;
  dev = swept.dev;
  used = λ q d lt at. swept.used q d lt at;
}

clean_table-IsSwept :
    (now hz maxscan count : ℕ) (hmp : Hmp)
    → Inv hmp
    → IsSwept hmp (clean_table now hz maxscan count hmp)
unfolding clean_table
clean_table-IsSwept now hz maxscan count hmp inv =
    let loop = clean_slots-IsSwept now hz maxscan count hmp inv in
    elim (Bool-cases (count == 0)) [
      | inl few ↦ rw (clean_table, few) (kept_same hmp inv)
      | inr many ↦ elim (Option-cases (clean_slots now hz maxscan count hmp)) [
        | inl e ↦ absurd (no_sweep hmp (subst (IsSwept hmp) e loop))
        | inr (next, e) ↦
            let swept = is_swept hmp next (subst (IsSwept hmp) e loop) in
            rw (clean_table, many, e)
              (iterated-Swept hmp next ((next.io_iterator + 1) % 2 ^ 32) swept)
      ]
    ]

cleanup-IsSwept :
    (now hz limit : ℕ) (hmp : Hmp)
    → Inv hmp
    → IsSwept hmp (hammer2_io_hash_cleanup now hz limit hmp)
unfolding hammer2_io_hash_cleanup
cleanup-IsSwept now hz limit hmp inv =
    clean_table-IsSwept now hz iohash_size (count_to_free hmp.iofree_count limit) hmp inv

pub put_cleanup-IsSwept :
    (now hz limit : ℕ) (hmp : Hmp) → Inv hmp → IsSwept hmp (put_cleanup now hz limit hmp)
unfolding put_cleanup
put_cleanup-IsSwept now hz limit hmp inv =
    elim (Bool-cases (ltb hmp.iofree_count (2 ^ 31) && ltb (dio_limit_of limit) hmp.iofree_count)) [
      | inl e ↦ rw (put_cleanup, e) (cleanup-IsSwept now hz (dio_limit_of limit) hmp inv)
      | inr e ↦ rw (put_cleanup, e) (kept_same hmp inv)
    ]
