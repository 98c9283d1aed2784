-- ===== src/Io/Drop.antt =====
-- The drop of a reference, in the table.
use linux_hammer.Base.{
  ℕ, ◌+◌, ◌%◌, ◌^◌, ◌<◌, ◌≡◌, ◌≢◌, refl, ap, ◌∙◌, inl, inr, Bool, true, false, not, ◌&&◌, ◌==◌,
  if◌then◌else◌, some, [], ◌∷◌, Bool-cases, ℕ_discrete, arith,
}
use linux_hammer.Io.{Dio, Hmp}
use linux_hammer.Io.Table.{hammer2_io_hashv, find, dio_of, with_dio, inc_free}
use linux_hammer.Io.Put.{drop_ref, written}
use linux_hammer.Io.Invariant.{free_weight, IsSound, Inv, update_dio-find_other}
use linux_hammer.Io.Change.{found-IsSound, found-pbase, changed-Inv, kept-Inv}
use linux_hammer.Io.Owned.{with_count}

-- The table holds, and the dios of other blocks that have a reference are unchanged.
pub record IsPut (hmp next : Hmp) (p : ℕ) : Type 0 where
  pub inv : Inv next
  pub dev : next.dev ≡ hmp.dev
  pub others :
      (q : ℕ) (x : Dio) → q ≢ p → 0 < x.refs → dio_of hmp q ≡ some x → dio_of next q ≡ some x

drop_ref-IsSound : (d : Dio) → IsSound d → d.refs ≢ 0 → IsSound (drop_ref d)
drop_ref-IsSound d sound held = elim (Bool-cases (d.refs == 1)) [
  | inl last ↦ rw last (record { has = refl; clean = λ e. (refl, refl) })
  | inr more ↦
      rw more (record { has = sound.has; clean = λ e. absurd (ground (arith, e, more, held)) })
]

drop_ref-pbase : (d : Dio) → (drop_ref d).pbase ≡ d.pbase
drop_ref-pbase d = elim (Bool-cases (d.refs == 1)) [ inl e ↦ rw e refl | inr e ↦ rw e refl ]

pub with_dio-others :
    (hmp : Hmp) (p : ℕ) (d : Dio) (f : Dio → Dio)
    → dio_of hmp p ≡ some d
    → (f d).pbase ≡ p
    → (q : ℕ) → q ≢ p
    → dio_of (with_dio hmp p f) q ≡ dio_of hmp q
unfolding with_dio dio_of
with_dio-others hmp p d f at same q ne =
    elim (ℕ_discrete (hammer2_io_hashv p) (hammer2_io_hashv q)) [
      | yes e ↦
          let here : (hammer2_io_hashv p == hammer2_io_hashv q) ≡ true = ground (arith, e) in
          rw here (
            update_dio-find_other p f d same q (hmp.iohash (hammer2_io_hashv p)) at ne
            ∙ ap (λ s. find q (hmp.iohash s)) e)
      | no apart ↦
          let other : (hammer2_io_hashv p == hammer2_io_hashv q) ≡ false = ground (arith, apart) in
          rw other refl
    ]

shared_weight :
    (d : Dio) → d.refs ≢ 0 → (d.refs == 1) ≡ false → free_weight d ≡ free_weight (drop_ref d)
shared_weight d held more = ground (arith, held, more)

one_ref : (d : Dio) → (d.refs == 1) ≡ true → d.refs ≡ 1
one_ref d last = ground (arith, last)

one_held : (d : Dio) → (d.refs == 1) ≡ true → d.refs ≢ 0
one_held d last e = omega (arith, e, one_ref d last)

last_counts :
    (n : ℕ) (d : Dio)
    → (d.refs == 1) ≡ true
    → (inc_free n + free_weight d) % 2 ^ 32 ≡ (n + free_weight (drop_ref d)) % 2 ^ 32
last_counts n d last = ground (arith, last)

module _ (hmp : Hmp) (p : ℕ) (d : Dio) (at : dio_of hmp p ≡ some d) (inv : Inv hmp) where
  -- A drop that is not the last.
  pub shared-IsPut : d.refs ≢ 0 → (d.refs == 1) ≡ false → IsPut hmp (with_dio hmp p drop_ref) p
  unfolding with_dio
  shared-IsPut held more =
      let same = drop_ref-pbase d ∙ found-pbase hmp p d at inv in
      record {
        inv =
            kept-Inv hmp p d at inv drop_ref same
              (drop_ref-IsSound d (found-IsSound hmp p d at inv) held) (shared_weight d held more);
        dev = refl;
        others = λ q x ne lt there. with_dio-others hmp p d drop_ref at same q ne ∙ there;
      }

  pub last-IsPut :
      (d.refs == 1) ≡ true
      → IsPut hmp (record (with_dio hmp p drop_ref) { iofree_count = inc_free hmp.iofree_count }) p
  unfolding with_dio
  last-IsPut last =
      let same = drop_ref-pbase d ∙ found-pbase hmp p d at inv in
      record {
        inv =
            changed-Inv hmp p d at inv drop_ref same
              (drop_ref-IsSound d (found-IsSound hmp p d at inv) (one_held d last))
              (inc_free hmp.iofree_count) (last_counts hmp.iofree_count d last) (omega arith);
        dev = refl;
        others = λ q x ne lt there.
            with_count (with_dio hmp p drop_ref) (inc_free hmp.iofree_count) q x
              (with_dio-others hmp p d drop_ref at same q ne ∙ there);
      }

  -- What the last drop of a sound dio writes.
  pub written_sound :
      (device_error : Bool)
      → written device_error d ≡ (
          if d.refs == 1 && d.good && d.dirty && not device_error
          then record { block = p; through = d.flush } ∷ []
          else [])
  unfolding written
  written_sound device_error =
      let sound = found-IsSound hmp p d at inv in
      let place = found-pbase hmp p d at inv in
      elim (Bool-cases (d.refs == 1)) [
        | inr shared ↦ rw shared refl
        | inl last ↦ elim (Bool-cases d.good) [
          | inr bad ↦ rw (last, bad, sound.has ∙ bad) refl
          | inl good ↦ rw (last, good, sound.has ∙ good, place) refl
        ]
      ]
