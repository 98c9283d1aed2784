-- ===== src/Io/Alloc.antt =====
-- `hammer2_io_alloc`: the table holds, and the dio returned has a reference.
use linux_hammer.Base.{
  ℕ, ◌%◌, ◌<◌, ◌≡◌, refl, ◌∙◌, inl, inr, ◌⊎◌, ◌≢◌, Bool, true, false, ◌==◌, Bool-cases,
  Option-cases, ==_self, arith,
}
use linux_hammer.Freemap.Iterate.{level1_size}
use linux_hammer.Ondisk.Load.{Dev, VolumeAt, no_volume_at, volume_at, unopened, hammer2_get_volume}
use linux_hammer.Io.{Dio, Hmp, pbase_of}
use linux_hammer.Io.Table.{
  hammer2_io_hashv, find, add_last, dio_of, with_dio, take_ref, hammer2_io_hash_lookup,
  hammer2_io_hash_enter, new_dio, Alloced, null, alloced, asserted, is_illegal, touch, end_alloc,
  create_dio, hammer2_io_alloc,
}
use linux_hammer.Io.Invariant.{IsSound, Inv}
use linux_hammer.Io.Change.{IsOwned, replaced-Inv, hashv-lt}
use linux_hammer.Io.Owned.{
  take_ref-IsOwned, touch-IsOwned, add_last-find, add_last-IsChain, add_last-free_of,
}

-- A volume of the device starts at a multiple of 1 GiB.
unfoldable pub IsAligned : Dev → Type 0
IsAligned dev =
    (p i : ℕ) → hammer2_get_volume dev p ≡ volume_at i → (dev.volumes i).offset % level1_size ≡ 0

-- A volume that an offset is in has an open device.
unfoldable pub IsOpened : Dev → Type 0
IsOpened dev = (p : ℕ) → hammer2_get_volume dev p ≢ unopened

-- What is returned: no dio, or that of the place with a reference; no assertion fails if the devices are open.
unfoldable pub IsGot : Dev → ℕ → Alloced → Type 0
IsGot dev place null = Unit
IsGot dev place (alloced hmp p) = IsOwned hmp p × (hmp.dev ≡ dev) × (p ≡ place)
IsGot dev place asserted = IsOpened dev → ⊥

enter-IsOwned :
    (hmp : Hmp) (x : Dio)
    → 0 < x.refs
    → IsSound x
    → Inv hmp
    → IsOwned (hammer2_io_hash_enter hmp x) x.pbase
unfolding hammer2_io_hash_enter dio_of
enter-IsOwned hmp x used sound inv =
    let slot = hammer2_io_hashv x.pbase in
    elim (Option-cases (find x.pbase (hmp.iohash slot))) [
      | inl gone ↦
          rw (hammer2_io_hash_enter, gone)
            (record {
              inv =
                  replaced-Inv hmp slot (add_last x (hmp.iohash slot)) hmp.iofree_count 0 0
                    (hashv-lt x.pbase)
                    (add_last-IsChain x used slot (hmp.iohash slot) refl sound gone
                      (inv.chains slot))
                    (omega (arith, add_last-free_of x used (hmp.iohash slot))) refl
                    (omega (arith, inv.counted)) inv;
              dio = x;
              at = rw (==_self slot) (add_last-find x used (hmp.iohash slot) gone);
              refs = used;
            })
      | inr (d, there) ↦
          rw (hammer2_io_hash_enter, there) (take_ref-IsOwned hmp x.pbase d there inv)
    ]

take_ref-dev : (hmp : Hmp) (d : Dio) → (take_ref hmp d).dev ≡ hmp.dev
unfolding take_ref with_dio
take_ref-dev hmp d = elim (Bool-cases (d.refs == 0)) [ inl e ↦ rw e refl | inr e ↦ rw e refl ]

enter-dev : (hmp : Hmp) (x : Dio) → (hammer2_io_hash_enter hmp x).dev ≡ hmp.dev
unfolding hammer2_io_hash_enter
enter-dev hmp x = elim (Option-cases (dio_of hmp x.pbase)) [
  | inl e ↦ rw (hammer2_io_hash_enter, e) refl
  | inr (d, e) ↦ rw (hammer2_io_hash_enter, e) (take_ref-dev hmp d)
]

pub with_dio-dev : (hmp : Hmp) (p : ℕ) (f : Dio → Dio) → (with_dio hmp p f).dev ≡ hmp.dev
unfolding with_dio
with_dio-dev hmp p f = refl

end_alloc-IsGot :
    (now : ℕ) (hmp : Hmp) (p : ℕ) (dev : Dev)
    → IsOwned hmp p
    → hmp.dev ≡ dev
    → IsGot dev p (end_alloc now hmp p)
unfolding end_alloc IsGot
end_alloc-IsGot now hmp p dev owned same =
    let touched = touch-IsOwned now hmp p owned in
    let used : (touched.dio.refs == 0) ≡ false = ground (arith, touched.refs) in
    rw (end_alloc, touched.at) (rw used (touched, with_dio-dev hmp p (touch now) ∙ same, refl))

new_dio-IsSound : (p dbase btype : ℕ) → IsSound (new_dio p dbase btype)
new_dio-IsSound p dbase btype = record { has = refl; clean = λ e. absurd (omega (arith, e)) }

volume_at-cases :
    (v : VolumeAt) → (v ≡ no_volume_at) ⊎ (((i : ℕ) × (v ≡ volume_at i)) ⊎ (v ≡ unopened))
volume_at-cases no_volume_at = inl refl
volume_at-cases (volume_at i) = inr (inl (i, refl))
volume_at-cases unopened = inr (inr refl)

create_dio-IsGot :
    (now : ℕ) (hmp : Hmp) (p btype : ℕ)
    → IsAligned hmp.dev
    → Inv hmp
    → IsGot hmp.dev p (create_dio now hmp p btype)
unfolding create_dio IsGot IsAligned IsOpened
create_dio-IsGot now hmp p btype aligned inv =
    elim (volume_at-cases (hammer2_get_volume hmp.dev p)) [
      | inl e ↦ rw (create_dio, e) tt
      | inr (inr e) ↦ rw (create_dio, e) (λ opened. opened p e)
      | inr (inl (i, e)) ↦
          let good : ((hmp.dev.volumes i).offset % level1_size == 0) ≡ true =
            ground (arith, aligned p i e) in
          let x = new_dio p (hmp.dev.volumes i).offset btype in
          let entered : Hmp = hammer2_io_hash_enter hmp x in
          rw (create_dio, e, good)
            (end_alloc-IsGot now entered p hmp.dev
              (enter-IsOwned hmp x (omega arith)
                (new_dio-IsSound p (hmp.dev.volumes i).offset btype) inv)
              (enter-dev hmp x))
    ]

pub alloc-IsGot :
    (now : ℕ) (hmp : Hmp) (data_off btype : ℕ) (createit : Bool)
    → IsAligned hmp.dev
    → Inv hmp
    → IsGot hmp.dev (pbase_of data_off) (hammer2_io_alloc now hmp data_off btype createit)
unfolding hammer2_io_alloc hammer2_io_hash_lookup IsGot
alloc-IsGot now hmp data_off btype createit aligned inv =
    let p = pbase_of data_off in
    elim (Bool-cases (is_illegal data_off)) [
      | inl bad ↦ rw bad tt
      | inr legal ↦ elim (Option-cases (dio_of hmp p)) [
        | inr (d, there) ↦
            rw (legal, there)
              (end_alloc-IsGot now (take_ref hmp d) p hmp.dev (take_ref-IsOwned hmp p d there inv)
                (take_ref-dev hmp d))
        | inl gone ↦ elim (Bool-cases createit) [
          | inl yes_create ↦
              rw (legal, gone, yes_create) (create_dio-IsGot now hmp p btype aligned inv)
          | inr no_create ↦ rw (legal, gone, no_create) tt
        ]
      ]
    ]
