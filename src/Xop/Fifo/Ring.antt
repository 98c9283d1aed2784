-- ===== src/Xop/Fifo/Ring.antt =====
-- The ring as a queue: what it holds, in order.
use linux_hammer.Base.{
  ℕ, zero, suc, ◌+◌, ◌-◌, ◌*◌, ◌%◌, ◌≤◌, ◌<◌, ◌≡◌, ◌≢◌, refl, ap, ◌∙◌, ◌⊎◌, inl, inr, true, ◌&&◌,
  ◌==◌, ltb, leb, Option, none, some, List, [], ◌∷◌, ◌++◌, arith, ℕ_discrete, ==_self, subst,
}
use linux_hammer.Cluster.{Chain}
use linux_hammer.Xop.Fifo.{
  Fifo, write_at, move_entries, push_reply, take_reply, reply_error, xopfifo,
  hammer2_xop_fifo_alloc,
}
use linux_hammer.Xop.Fifo.Moves.{mod_apart, move_array, move_entries-arrays, move_at}

-- The replies that are not read yet, the next one first: `left` of them, from index `k`.
unfoldable pub items_from : (ℕ → Option Chain) → (ℕ → ℕ) → ℕ → ℕ → ℕ → List (Option Chain × ℕ)
items_from array errors size zero k = []
items_from array errors size (suc left) k =
    (array (k % size), errors (k % size)) ∷ items_from array errors size left (suc k)

unfoldable pub items : ℕ → Fifo → List (Option Chain × ℕ)
unfolding items_from
items size f = items_from f.array f.errors size (f.wi - f.ri) f.ri

-- No more is held than there is room for.
pub record IsRing (size : ℕ) (f : Fifo) : Type 0 where
  pub places : xopfifo ≤ size
  pub ordered : f.ri ≤ f.wi
  pub within : f.wi ≤ f.ri + size

items-same :
    (array array' : ℕ → Option Chain) (errors errors' : ℕ → ℕ) (size size' left k : ℕ)
    → ((j : ℕ)
        → k ≤ j
        → j < k + left
        → (array (j % size) ≡ array' (j % size')) × (errors (j % size) ≡ errors' (j % size')))
    → items_from array errors size left k ≡ items_from array' errors' size' left k
unfolding items_from
items-same array array' errors errors' size size' zero k same = refl
items-same array array' errors errors' size size' (suc left) k same =
    let (a, e) = same k (omega arith) (omega arith) in
    let rest =
      items-same array array' errors errors' size size' left (suc k)
        (λ j low high. same j (omega arith) (omega arith)) in
    cc

items-snoc :
    (array : ℕ → Option Chain) (errors : ℕ → ℕ) (size left k : ℕ)
    → items_from array errors size (suc left) k
      ≡ items_from array errors size left k
        ++ (array ((k + left) % size), errors ((k + left) % size)) ∷ []
unfolding items_from
items-snoc array errors size zero k = let at : k + 0 ≡ k = omega arith in rw at refl
items-snoc array errors size (suc left) k =
    let at : suc k + left ≡ k + suc left = omega arith in
    rw at at
      (ap (◌∷◌ (array (k % size), errors (k % size))) (items-snoc array errors size left (suc k)))

-- What was just written is the last.
items-written :
    (a : ℕ → Option Chain) (e : ℕ → ℕ) (size left k w : ℕ) (chain : Option Chain) (error : ℕ)
    → k + left ≡ w
    → items_from (write_at a (w % size) chain) (write_at e (w % size) error) size (suc left) k
      ≡ items_from (write_at a (w % size) chain) (write_at e (w % size) error) size left k
        ++ (chain, error) ∷ []
items-written a e size left k w chain error end =
    let array : ℕ → Option Chain = write_at a (w % size) chain in
    let errors : ℕ → ℕ = write_at e (w % size) error in
    let self : (w % size == w % size) ≡ true = ==_self (w % size) in
    let first : array (w % size) ≡ chain = rw self refl in
    let second : errors (w % size) ≡ error = rw self refl in
    let snoc : items_from array errors size (suc left) k
        ≡ items_from array errors size left k ++ (array (w % size), errors (w % size)) ∷ [] =
      subst
        (λ x.
          items_from array errors size (suc left) k
          ≡ items_from array errors size left k ++ (array (x % size), errors (x % size)) ∷ [])
        end (items-snoc array errors size left k) in
    snoc
    ∙ ap (λ c. items_from array errors size left k ++ (c, errors (w % size)) ∷ []) first
    ∙ ap (λ c. items_from array errors size left k ++ (chain, c) ∷ []) second

-- A FIFO made twice as large holds what it held.
pub items-grow :
    (old : ℕ) (f : Fifo)
    → IsRing old f
    → (f' : Fifo) × (hammer2_xop_fifo_alloc (old * 2) old f ≡ some f')
      × IsRing (old * 2) f'
      × (items (old * 2) f' ≡ items old f)
      × (f'.ri ≡ f.ri)
      × (f'.wi ≡ f.wi)
unfolding hammer2_xop_fifo_alloc items
items-grow old f r =
    let places : 16 ≤ old = r.places in
    let ordered = r.ordered in
    let within = r.within in
    let n : ℕ = old * 2 in
    let left : ℕ = f.wi - f.ri in
    let (a, e, ri, wi) = move_entries-arrays n old left f.ri f in
    let f' : Fifo = move_entries n old left f.ri f in
    let grows : (ltb old n && leb xopfifo n) ≡ true = ground arith in
    let moved : items_from f'.array f'.errors n (f'.wi - f'.ri) f'.ri
        ≡ items_from (move_array n old left f.ri f.array) (move_array n old left f.ri f.errors) n
            left f.ri =
      cc in
    (
      f',
      rw grows refl,
      record { places = omega arith; ordered = omega arith; within = omega arith },
      moved
          ∙ items-same (move_array n old left f.ri f.array) f.array
              (move_array n old left f.ri f.errors) f.errors n old left f.ri
              (λ j low high. (
                move_at old (omega arith) left f.ri j f.array (omega arith) low high,
                move_at old (omega arith) left f.ri j f.errors (omega arith) low high,
              )),
      ri,
      wi,
    )

-- A reply fed to a FIFO with room comes last.
pub items-push_reply :
    (size : ℕ) (chain : Option Chain) (error : ℕ) (f : Fifo)
    → IsRing size f
    → f.wi < f.ri + size
    → IsRing size (push_reply size chain error f)
      × (items size (push_reply size chain error f)
          ≡ items size f ++ (chain, reply_error chain error) ∷ [])
unfolding push_reply items
items-push_reply size chain error f r room =
    let places : 16 ≤ size = r.places in
    let ordered = r.ordered in
    let left : ℕ = f.wi - f.ri in
    let array : ℕ → Option Chain = write_at f.array (f.wi % size) chain in
    let errors : ℕ → ℕ = write_at f.errors (f.wi % size) (reply_error chain error) in
    let count : f.wi + 1 - f.ri ≡ suc left = omega arith in
    let end : f.ri + left ≡ f.wi = omega arith in
    let same : items_from array errors size left f.ri ≡ items_from f.array f.errors size left f.ri =
      items-same array f.array errors f.errors size size left f.ri (λ j low high.
        let d : f.wi ≡ j + (f.wi - j) = omega arith in
        let apart : f.wi % size ≢ j % size =
          λ e. mod_apart j (f.wi - j) size (omega arith) (omega arith) (rw d at e) in
        (ground (arith, apart), ground (arith, apart))) in
    (
      record { places = r.places; ordered = omega arith; within = omega arith },
      rw count (
          items-written f.array f.errors size left f.ri f.wi chain (reply_error chain error) end
          ∙ ap (λ l. l ++ (chain, reply_error chain error) ∷ []) same),
    )

-- The frontend takes the replies in the order in which they were fed.
items-take_reply :
    (size : ℕ) (f : Fifo)
    → IsRing size f
    → ((take_reply size f ≡ none) × (items size f ≡ []))
      ⊎ ((chain : Option Chain) × (error : ℕ) × (f' : Fifo) × (take_reply size f
            ≡ some (chain, error, f'))
          × IsRing size f'
          × (items size f ≡ (chain, error) ∷ items size f'))
unfolding take_reply items items_from
items-take_reply size f r =
    let ordered = r.ordered in
    let within = r.within in
    elim (ℕ_discrete f.ri f.wi) [
      | yes empty ↦
          let gone : f.wi - f.ri ≡ 0 = omega arith in inl (ground (arith, empty), rw gone refl)
      | no some_left ↦
          let count : f.wi - f.ri ≡ suc (f.wi - (f.ri + 1)) = omega arith in
          let next : f.ri + 1 ≡ suc f.ri = omega arith in
          inr (
            f.array (f.ri % size),
            f.errors (f.ri % size),
            record f { ri = f.ri + 1 },
            ground (arith, some_left),
            record { places = r.places; ordered = omega arith; within = omega arith },
            rw count (rw next refl),
          )
    ]
