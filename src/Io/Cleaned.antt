-- ===== src/Io/Cleaned.antt =====
-- `hammer2_io_hash_cleanup`: it frees dios that have no reference, and no others.
use linux_hammer.Base.{
  ℕ, ◌+◌, ◌<◌, ◌≡◌, refl, sym, ap, subst, ◌∙◌, inl, inr, true, false, ◌==◌, if◌then◌else◌, Option,
  none, some, List, [], ◌∷◌, Bool-cases, Option-cases, arith,
}
use linux_hammer.Io.{Held, nothing, folio, own, is_held, Dio}
use linux_hammer.Io.Table.{find}
use linux_hammer.Io.Put.{is_folio, cool, stays_cached, clean_chain}
use linux_hammer.Io.Invariant.{
  free_weight, free_of, IsSound, IsChain, find_cons-none, find_cons-other, empty_found, head_found,
  tail_found,
}

-- A chain less dios that have no reference.
pub record IsCleaned (slot : ℕ) (ds kept : List Dio) (freed : ℕ) : Type 0 where
  pub chain : IsChain slot kept
  pub frees : free_of kept + freed ≡ free_of ds
  pub gone : (q : ℕ) → find q ds ≡ none → find q kept ≡ none
  pub used : (q : ℕ) (d : Dio) → 0 < d.refs → find q ds ≡ some d → find q kept ≡ some d

pub IsClean : ℕ → List Dio → Option (List Dio × ℕ) → Type 0
IsClean slot ds none = ⊥
IsClean slot ds (some (kept, freed)) = IsCleaned slot ds kept freed

pub bare_folio : (h : Held) → is_held h ≡ false → is_folio h ≡ false
bare_folio nothing e = refl
bare_folio folio e = absurd (ground (arith, e))
bare_folio own e = refl

cool-IsSound : (now hz : ℕ) (d : Dio) → IsSound d → IsSound (cool now hz d)
cool-IsSound now hz d sound = elim (Bool-cases (d.act == 0)) [
  | inl e ↦ rw e sound
  | inr e ↦ rw e (record { has = sound.has; clean = sound.clean })
]

cool-same :
    (now hz : ℕ) (d : Dio) → ((cool now hz d).pbase ≡ d.pbase) × ((cool now hz d).refs ≡ d.refs)
cool-same now hz d = elim (Bool-cases (d.act == 0)) [
  | inl e ↦ rw e (refl, refl)
  | inr e ↦ rw e (refl, refl)
]

weight_same : (x y : Dio) → y.refs ≡ x.refs → free_weight y ≡ free_weight x
weight_same x y refs = ap (λ n. if n == 0 then 1 else 0) refs

-- The head of a chain stays, perhaps changed: it has the same block, and is the same if it has a reference.
module _ (slot : ℕ) (x : Dio) (ds kept : List Dio) (freed : ℕ)
    (cleaned : IsCleaned slot ds kept freed) where
  keep_head :
      (y : Dio)
      → y.pbase ≡ x.pbase
      → y.refs ≡ x.refs
      → (0 < x.refs → y ≡ x)
      → IsSound y
      → IsChain slot (x ∷ ds)
      → IsCleaned slot (x ∷ ds) (y ∷ kept) freed
  unfolding IsChain free_of find
  keep_head y place refs same sound (belongs, _, fresh, _) = record {
    chain = (rw place belongs, sound, rw place (cleaned.gone x.pbase fresh), cleaned.chain);
    frees = omega (arith, weight_same x y refs, cleaned.frees);
    gone = λ q none_there.
        let (apart, rest) = find_cons-none q x ds none_there in
        find_cons-other q y kept (rw place apart) (cleaned.gone q rest);
    used = λ q d lt at. elim (Bool-cases (x.pbase == q)) [
      | inl here ↦
          let e = head_found q x d ds here at in
          let y_here : (y.pbase == q) ≡ true = ground (arith, here, place) in
          rw y_here (ap (λ z. some z) (same (subst (λ z. 0 < z.refs) e lt) ∙ sym e))
      | inr other ↦
          let y_other : (y.pbase == q) ≡ false = ground (arith, other, place) in
          rw y_other (cleaned.used q d lt (tail_found q x d ds other at))
    ];
  }

  free_head : x.refs ≡ 0 → IsCleaned slot (x ∷ ds) kept (freed + 1)
  unfolding free_of find
  free_head free = record {
    chain = cleaned.chain;
    frees = ground (arith, free, cleaned.frees);
    gone = λ q none_there. let (_, rest) = find_cons-none q x ds none_there in cleaned.gone q rest;
    used = λ q d lt at. elim (Bool-cases (x.pbase == q)) [
      | inl here ↦
          let e = head_found q x d ds here at in
          absurd (omega (arith, free, subst (λ z. 0 < z.refs) e lt))
      | inr other ↦ cleaned.used q d lt (tail_found q x d ds other at)
    ];
  }

pub no_clean : (slot : ℕ) (ds : List Dio) → IsClean slot ds none → ⊥
unfolding IsClean
no_clean slot ds clean = clean

pub is_cleaned :
    (slot : ℕ) (ds kept : List Dio) (freed : ℕ)
    → IsClean slot ds (some (kept, freed))
    → IsCleaned slot ds kept freed
unfolding IsClean
is_cleaned slot ds kept freed clean = clean

chain_head : (slot : ℕ) (x : Dio) (ds : List Dio) → IsChain slot (x ∷ ds) → IsSound x
unfolding IsChain
chain_head slot x ds (_, sound, _, _) = sound

-- One step of the walk.
head-IsClean :
    (now hz slot : ℕ) (x : Dio) (ds kept : List Dio) (freed : ℕ)
    → IsCleaned slot ds kept freed
    → IsChain slot (x ∷ ds)
    → IsClean slot (x ∷ ds) (
        if stays_cached now hz x
        then some ((if x.refs == 0 then cool now hz x else x) ∷ kept, freed)
        else (if is_folio x.held then none else some (kept, freed + 1)))
unfolding IsClean stays_cached
head-IsClean now hz slot x ds kept freed cleaned chain =
    let sound = chain_head slot x ds chain in
    let (place, refs) = cool-same now hz x in
    elim (Bool-cases (x.refs == 0)) [
      | inr used ↦
          rw used (keep_head slot x ds kept freed cleaned x refl refl (λ lt. refl) sound chain)
      | inl free ↦
          let none_left : x.refs ≡ 0 = ground (arith, free) in
          elim (Bool-cases ((cool now hz x).act == 0)) [
            | inl cold ↦
                let (bad, _) = sound.clean none_left in
                let bare = bare_folio x.held (sound.has ∙ bad) in
                rw (free, cold, bare) (free_head slot x ds kept freed cleaned none_left)
            | inr warm ↦
                rw (free, warm)
                  (keep_head slot x ds kept freed cleaned (cool now hz x) place refs
                    (λ lt. absurd (omega (arith, lt, none_left))) (cool-IsSound now hz x sound)
                    chain)
          ]
    ]

pub clean_chain-IsClean :
    (now hz slot : ℕ) (ds : List Dio) → IsChain slot ds → IsClean slot ds (clean_chain now hz ds)
unfolding clean_chain IsClean IsChain free_of find
clean_chain-IsClean now hz slot [] chain = record {
  chain = tt;
  frees = refl;
  gone = λ q e. e;
  used = λ q d lt at. absurd (empty_found q d at);
}
clean_chain-IsClean now hz slot (x ∷ ds) (belongs, sound, fresh, rest) =
    let before = clean_chain-IsClean now hz slot ds rest in
    elim (Option-cases (clean_chain now hz ds)) [
      | inl e ↦ absurd (no_clean slot ds (subst (IsClean slot ds) e before))
      | inr ((kept, freed), e) ↦
          let cleaned = is_cleaned slot ds kept freed (subst (IsClean slot ds) e before) in
          rw e (head-IsClean now hz slot x ds kept freed cleaned (belongs, sound, fresh, rest))
    ]
