-- ===== src/Ondisk/Placed.antt =====
-- `hammer2_init_volumes`: every device that is given is in its place in the set that is accepted.
use linux_hammer.Base.{
  ℕ, ◌≡◌, ◌≢◌, refl, sym, ap, subst, ◌∙◌, inl, inr, true, ◌==◌, ==_self, leb, some, List, [], ◌∷◌,
  Bool-cases, Option-cases, ℕ_discrete,
}
use linux_hammer.Ondisk.{max_volumes, einval, Volume, VolumeData, is_present}
use linux_hammer.Ondisk.Header.{Device, Icrc32, hammer2_read_volume_header}
use linux_hammer.Ondisk.Verify.{hammer2_verify_volumes}
use linux_hammer.Ondisk.Load.{
  Loading, start_loading, Loaded, loading, failed, asserted, write_volume, volume_of, load_header,
  unless_failed, load_devices, finish_loading, hammer2_init_volumes,
}
use mathlib.Core.Option.{some-injective}
use linux_hammer.Ondisk.Kept.{Keeps, load_header-Keeps, best-Keeps, load_devices-Keeps}

-- No device has a header of that id.
unfoldable pub NoneHas : Icrc32 → ℕ → List Device → Type 0
NoneHas icrc32 id [] = Unit
NoneHas icrc32 id (d ∷ ds) =
    ((zone : ℕ) (h : VolumeData)
      → hammer2_read_volume_header icrc32 d ≡ some (zone, h)
      → h.volu_id ≢ id)
    × NoneHas icrc32 id ds

-- Each device has a header, is the volume that its header says, and no later one has the same id.
unfoldable pub AllPlaced : Icrc32 → (ℕ → Volume) → List Device → Type 0
unfolding NoneHas
AllPlaced icrc32 volumes [] = Unit
AllPlaced icrc32 volumes (d ∷ ds) =
    ((zone : ℕ) × (h : VolumeData) × (hammer2_read_volume_header icrc32 d ≡ some (zone, h))
      × (volumes h.volu_id ≡ volume_of d h)
      × NoneHas icrc32 h.volu_id ds)
    × AllPlaced icrc32 volumes ds

-- If the loading goes on, no device has a header of that id.
IsNoneHas : Icrc32 → ℕ → List Device → Loaded → Type 0
unfolding NoneHas
IsNoneHas icrc32 id ds (loading l) = NoneHas icrc32 id ds
IsNoneHas icrc32 id ds (failed e) = Unit
IsNoneHas icrc32 id ds asserted = Unit

none_more :
    (icrc32 : Icrc32) (id : ℕ) (d : Device) (ds : List Device) (zone : ℕ) (h : VolumeData)
    (r : Loaded)
    → hammer2_read_volume_header icrc32 d ≡ some (zone, h)
    → h.volu_id ≢ id
    → IsNoneHas icrc32 id ds r
    → IsNoneHas icrc32 id (d ∷ ds) r
unfolding IsNoneHas NoneHas
none_more icrc32 id d ds zone h (loading l) read other rest = (
  λ z g e.
      subst (λ (b : ℕ × VolumeData). b.1.volu_id ≢ id)
        (some-injective (zone, h) (z, g) (sym read ∙ e)) other,
  rest,
)
none_more icrc32 id d ds zone h (failed e) read other rest = tt
none_more icrc32 id d ds zone h asserted read other rest = tt

unless_failed-IsNoneHas :
    (icrc32 : Icrc32) (id : ℕ) (ds : List Device) (v : Volume) (r : Loaded)
    (next : Loading → Loaded)
    → ((l : Loading) → l.volumes id ≡ v → IsNoneHas icrc32 id ds (next l))
    → Keeps id v r
    → IsNoneHas icrc32 id ds (unless_failed r next)
unfolding Keeps IsNoneHas
unless_failed-IsNoneHas icrc32 id ds v (loading l) next free at = free l at
unless_failed-IsNoneHas icrc32 id ds v (failed e) next free at = tt
unless_failed-IsNoneHas icrc32 id ds v asserted next free at = tt

taken_fails :
    (d : Device) (zone : ℕ) (h : VolumeData) (l : Loading)
    → is_present (l.volumes h.volu_id) ≡ true
    → load_header d (some (zone, h)) l ≡ failed einval
unfolding load_header
taken_fails d zone h l there = elim (Bool-cases (leb max_volumes h.volu_id)) [
  | inl great ↦ rw great refl
  | inr small ↦ rw (small, there) refl
]

load_devices-IsNoneHas :
    (icrc32 : Icrc32) (id : ℕ) (v : Volume) (ds : List Device) (l : Loading)
    → l.volumes id ≡ v
    → is_present v ≡ true
    → IsNoneHas icrc32 id ds (load_devices icrc32 ds l)
unfolding load_devices load_header IsNoneHas NoneHas
load_devices-IsNoneHas icrc32 id v [] l at there = tt
load_devices-IsNoneHas icrc32 id v (d ∷ ds) l at there =
    elim (Option-cases (hammer2_read_volume_header icrc32 d)) [
      | inl unread ↦ rw (load_devices, unread, load_header) tt
      | inr ((zone, h), read) ↦ elim (ℕ_discrete h.volu_id id) [
        | yes same ↦
            let taken : is_present (l.volumes h.volu_id) ≡ true =
              subst (λ x. is_present (l.volumes x) ≡ true) (sym same) (ap is_present at ∙ there) in
            rw (load_devices, read) (rw (taken_fails d zone h l taken) tt)
        | no other ↦
            rw (load_devices, read)
              (unless_failed-IsNoneHas icrc32 id (d ∷ ds) v (load_header d (some (zone, h)) l)
                (load_devices icrc32 ds)
                (λ next kept.
                  none_more icrc32 id d ds zone h (load_devices icrc32 ds next) read other
                    (load_devices-IsNoneHas icrc32 id v ds next kept there))
                (best-Keeps id v d (some (zone, h)) l at there))
      ]
    ]

-- If the loading goes on, the devices are in their places.
IsAllPlaced : Icrc32 → List Device → Loaded → Type 0
IsAllPlaced icrc32 ds (loading l) = AllPlaced icrc32 l.volumes ds
IsAllPlaced icrc32 ds (failed e) = Unit
IsAllPlaced icrc32 ds asserted = Unit

one_more :
    (icrc32 : Icrc32) (d : Device) (ds : List Device) (zone : ℕ) (h : VolumeData) (r : Loaded)
    → hammer2_read_volume_header icrc32 d ≡ some (zone, h)
    → Keeps h.volu_id (volume_of d h) r
    → IsNoneHas icrc32 h.volu_id ds r
    → IsAllPlaced icrc32 ds r
    → IsAllPlaced icrc32 (d ∷ ds) r
unfolding Keeps IsNoneHas IsAllPlaced AllPlaced
one_more icrc32 d ds zone h (loading l) read at free rest = ((zone, h, read, at, free), rest)
one_more icrc32 d ds zone h (failed e) read at free rest = tt
one_more icrc32 d ds zone h asserted read at free rest = tt

unless_failed-IsAllPlaced :
    (icrc32 : Icrc32) (ds : List Device) (i : ℕ) (v : Volume) (r : Loaded) (next : Loading → Loaded)
    → ((l : Loading) → l.volumes i ≡ v → IsAllPlaced icrc32 ds (next l))
    → Keeps i v r
    → IsAllPlaced icrc32 ds (unless_failed r next)
unfolding Keeps IsAllPlaced
unless_failed-IsAllPlaced icrc32 ds i v (loading l) next placed at = placed l at
unless_failed-IsAllPlaced icrc32 ds i v (failed e) next placed at = tt
unless_failed-IsAllPlaced icrc32 ds i v asserted next placed at = tt

written_here : (volumes : ℕ → Volume) (n : ℕ) (v : Volume) → write_volume volumes n v n ≡ v
written_here volumes n v = rw (==_self n) refl

load_devices-IsAllPlaced :
    (icrc32 : Icrc32) (ds : List Device) (l : Loading)
    → IsAllPlaced icrc32 ds (load_devices icrc32 ds l)
unfolding load_devices load_header IsAllPlaced AllPlaced
load_devices-IsAllPlaced icrc32 [] l = tt
load_devices-IsAllPlaced icrc32 (d ∷ ds) l =
    elim (Option-cases (hammer2_read_volume_header icrc32 d)) [
      | inl unread ↦ rw (load_devices, unread, load_header) tt
      | inr ((zone, h), read) ↦
          let here =
            load_header-Keeps h.volu_id (volume_of d h) d zone h l
              (λ gone. written_here l.volumes h.volu_id (volume_of d h)) in
          rw (load_devices, read)
            (unless_failed-IsAllPlaced icrc32 (d ∷ ds) h.volu_id (volume_of d h)
              (load_header d (some (zone, h)) l) (load_devices icrc32 ds)
              (λ next at.
                one_more icrc32 d ds zone h (load_devices icrc32 ds next) read
                  (load_devices-Keeps h.volu_id (volume_of d h) icrc32 ds next at refl)
                  (load_devices-IsNoneHas icrc32 h.volu_id (volume_of d h) ds next at refl)
                  (load_devices-IsAllPlaced icrc32 ds next))
              here)
    ]

finish_loading-IsAllPlaced :
    (icrc32 : Icrc32) (ds : List Device) (r : Loaded)
    → IsAllPlaced icrc32 ds r
    → IsAllPlaced icrc32 ds (finish_loading r)
unfolding finish_loading IsAllPlaced
finish_loading-IsAllPlaced icrc32 ds (loading l) placed =
    elim (Bool-cases (l.rootvoldata.version == 0)) [
      | inl missing ↦ rw missing tt
      | inr there ↦ elim (Bool-cases (hammer2_verify_volumes l.volumes l.rootvoldata == 0)) [
        | inl good ↦ rw (there, good) placed
        | inr bad ↦ rw (there, bad) tt
      ]
    ]
finish_loading-IsAllPlaced icrc32 ds (failed e) placed = tt
finish_loading-IsAllPlaced icrc32 ds asserted placed = tt

-- Where `hammer2_init_volumes` returns 0, every device that it was given has a good header, and is the
-- volume of its header's id, with the header's size and the offset that the header has for that id; and no
-- later one has a header of the same id.
pub init_volumes-AllPlaced :
    (icrc32 : Icrc32) (devices : List Device) (l : Loading)
    → hammer2_init_volumes icrc32 devices ≡ loading l
    → AllPlaced icrc32 l.volumes devices
unfolding hammer2_init_volumes IsAllPlaced
init_volumes-AllPlaced icrc32 devices l returns = subst (IsAllPlaced icrc32 devices) returns (
    finish_loading-IsAllPlaced icrc32 devices (load_devices icrc32 devices start_loading)
      (load_devices-IsAllPlaced icrc32 devices start_loading))
