-- ===== src/Io/Unmount.antt =====
-- `hammer2_io_hash_cleanup_all`, at the end of a mount: every dio is freed.
use linux_hammer.Base.{
  ℕ, zero, suc, ◌+◌, ◌-◌, ◌*◌, ◌%◌, ◌^◌, ◌≤◌, ◌<◌, ◌≡◌, refl, ap, subst, ◌∙◌, true, false, not,
  ◌||◌, ◌==◌, if◌then◌else◌, Option, none, some, List, [], ◌∷◌, ℕ_discrete, dec_lt, arith,
}
use linux_hammer.Base.Family.{put, tally-none}
use linux_hammer.Io.{iohash_size, Dio, Hmp}
use linux_hammer.Io.Put.{is_folio}
use linux_hammer.Io.Invariant.{free_of, IsChain, Inv}
use linux_hammer.Io.Change.{replaced-Inv, hashv-lt}
use linux_hammer.Io.Cleaned.{bare_folio}

-- The walk over a chain: how many dios are freed, and how many of them "dirty buffer" is said of; `none` is an
-- assertion that fails.
unfoldable pub free_chain : List Dio → Option (ℕ × ℕ)
free_chain [] = some (0, 0)
free_chain (d ∷ ds) = elim (free_chain ds) [
  | none ↦ none
  | some (freed, dirty) ↦
      if is_folio d.held || not (d.refs == 0)
      then none
      else some (freed + 1, if d.dirty then dirty + 1 else dirty)
]

-- The loop, `left` turns from slot `i` on, with the number of dirty buffers so far.
unfoldable pub free_slots : ℕ → ℕ → ℕ → Hmp → Option (Hmp × ℕ)
unfolding free_chain
free_slots zero i dirty hmp = some (hmp, dirty)
free_slots (suc left) i dirty hmp = elim (free_chain (hmp.iohash i)) [
  | none ↦ none
  | some (freed, more) ↦ free_slots left (suc i) (dirty + more) (record hmp {
    iohash = put hmp.iohash i [];
    iofree_count = (hmp.iofree_count + freed * (2 ^ 32 - 1)) % 2 ^ 32;
  })
]

unfoldable pub hammer2_io_hash_cleanup_all : Hmp → Option (Hmp × ℕ)
unfolding free_slots
hammer2_io_hash_cleanup_all hmp = free_slots iohash_size 0 0 hmp

-- No dio of the chain has a reference.
unfoldable pub AllFree : List Dio → Type 0
AllFree [] = Unit
AllFree (d ∷ ds) = (d.refs ≡ 0) × AllFree ds

free_chain_frees :
    (slot : ℕ) (ds : List Dio) → IsChain slot ds → AllFree ds → free_chain ds ≡ some (free_of ds, 0)
unfolding free_chain IsChain AllFree free_of
free_chain_frees slot [] chain free = refl
free_chain_frees slot (d ∷ ds) (_, sound, _, rest) (free, others) =
    let (bad, clean) = sound.clean free in
    let unused : (d.refs == 0) ≡ true = ground (arith, free) in
    rw (free_chain_frees slot ds rest others, bare_folio d.held (sound.has ∙ bad), unused, clean)
      (ap (λ n. some (n, 0)) (omega arith))

-- The chains before slot `i` are empty, and no dio of the others has a reference.
IsFreeFrom : ℕ → Hmp → Type 0
IsFreeFrom i hmp = ((s : ℕ) → s < i → hmp.iohash s ≡ []) × ((s : ℕ) → AllFree (hmp.iohash s))

abbrev freed_slot : Hmp → ℕ → Hmp
freed_slot hmp i = record hmp {
  iohash = put hmp.iohash i [];
  iofree_count = (hmp.iofree_count + free_of (hmp.iohash i) * (2 ^ 32 - 1)) % 2 ^ 32;
}

from_free : (i : ℕ) (hmp : Hmp) → IsFreeFrom i hmp → (s : ℕ) → AllFree (hmp.iohash s)
unfolding IsFreeFrom
from_free i hmp (_, free) = free

-- No block belongs to a slot past the table.
unused_slot : (slot : ℕ) (ds : List Dio) → IsChain slot ds → ¬ (slot < iohash_size) → ds ≡ []
unfolding IsChain
unused_slot slot [] chain out = refl
unused_slot slot (d ∷ ds) (belongs, _, _, _) out =
    absurd (out (omega (arith, belongs, hashv-lt d.pbase)))

freed_slot-Inv : (hmp : Hmp) (i : ℕ) → i < iohash_size → Inv hmp → Inv (freed_slot hmp i)
unfolding IsChain free_of
freed_slot-Inv hmp i lt inv =
    replaced-Inv hmp i [] ((hmp.iofree_count + free_of (hmp.iohash i) * (2 ^ 32 - 1)) % 2 ^ 32)
      (free_of (hmp.iohash i)) 0 lt tt (omega arith) (omega arith) (omega arith) inv

freed_slot-IsFreeFrom :
    (hmp : Hmp) (i : ℕ) → IsFreeFrom i hmp → IsFreeFrom (suc i) (freed_slot hmp i)
unfolding IsFreeFrom AllFree
freed_slot-IsFreeFrom hmp i (empty, free) = (
  λ s lt. elim (ℕ_discrete i s) [
    | yes e ↦ let here : (i == s) ≡ true = ground (arith, e) in rw here refl
    | no ne ↦ let other : (i == s) ≡ false = ground arith in rw other (empty s (omega arith))
  ],
  λ s. elim (ℕ_discrete i s) [
    | yes e ↦ let here : (i == s) ≡ true = ground (arith, e) in rw here tt
    | no ne ↦ let other : (i == s) ≡ false = ground arith in rw other (free s)
  ],
)

free_slots_frees :
    (left i n dirty : ℕ) (hmp : Hmp)
    → left + i ≡ n
    → n ≤ iohash_size
    → Inv hmp
    → IsFreeFrom i hmp
    → (next : Hmp) × (free_slots left i dirty hmp ≡ some (next, dirty))
      × Inv next
      × IsFreeFrom n next
unfolding free_slots
free_slots_frees zero i n dirty hmp e le inv from =
    (hmp, refl, inv, subst (λ x. IsFreeFrom x hmp) (omega arith) from)
free_slots_frees (suc left) i n dirty hmp e le inv from =
    let (next, returns, held, done) =
      free_slots_frees left (suc i) n (dirty + 0) (freed_slot hmp i) (omega arith) le
        (freed_slot-Inv hmp i (omega arith) inv) (freed_slot-IsFreeFrom hmp i from) in
    let same : dirty + 0 ≡ dirty = omega arith in
    (
      next,
      rw (free_slots, free_chain_frees i (hmp.iohash i) (inv.chains i) (from_free i hmp from i))
          (returns ∙ ap (λ x. some (next, x)) same),
      held,
      done,
    )

-- At the end of a mount: if no dio of a table that holds has a reference, `hammer2_io_hash_cleanup_all` fails
-- no assertion, frees every dio, of which none is dirty, and leaves `iofree_count` at 0.
pub cleanup_all_frees :
    (hmp : Hmp)
    → Inv hmp
    → ((s : ℕ) → AllFree (hmp.iohash s))
    → (next : Hmp) × (hammer2_io_hash_cleanup_all hmp ≡ some (next, 0))
      × ((s : ℕ) → next.iohash s ≡ [])
      × (next.iofree_count ≡ 0)
unfolding hammer2_io_hash_cleanup_all IsFreeFrom free_of
cleanup_all_frees hmp inv free =
    let (next, returns, held, (empty, _)) =
      free_slots_frees iohash_size 0 iohash_size 0 hmp (omega arith) (omega arith) inv
        (λ s lt. absurd (omega arith), free) in
    let gone : (s : ℕ) → next.iohash s ≡ [] = λ s. elim (dec_lt s iohash_size) [
      | yes lt ↦ empty s lt
      | no out ↦ unused_slot s (next.iohash s) (held.chains s) out
    ] in
    (
      next,
      returns,
      gone,
      omega
          (arith, held.counted, tally-none free_of iohash_size next.iohash (λ s. rw (gone s) refl)),
    )
