-- ===== src/Controller/Round.antt =====
-- One broadcast of controller/controller.py: what holds between the steps of its calls.
use flash_reduce_dev.Common.{
  ℕ, zero, suc, ◌<◌, ◌≡◌, ◌≢◌, ◌⊎◌, ◌∙◌, refl, sym, subst, inl, inr, Bool, true, false, true≢false,
  Bool-cases, ◌&&◌, ltb, ◌==◌, none, some, List, [], ◌∷◌, All, length, get_elem?, set,
  get_elem?-set_other, arith, ==→eq, ==→ne,
}
use mathlib.Core.Option.{some-injective, some-ne-none}
use flash_reduce_dev.Controller.Barrier.{put}
use flash_reduce_dev.Controller.Broadcast.{Operation, Broadcasts, Stage, all_true, clean_up}

no_and : (b : Bool) → b && false ≡ false
no_and true = refl
no_and false = refl

-- A rank whose call is not over keeps its operation from being deleted.
pub all_true-false :
    (bits : List Bool) (r : ℕ) → get_elem? bits r ≡ some false → all_true bits ≡ false
all_true-false [] r h = absurd (some-ne-none false (sym h))
all_true-false (bit ∷ bits) zero h = rw (some-injective bit false h) refl
all_true-false (bit ∷ bits) (suc r) h = rw (all_true-false bits r h) (no_and bit)

pub all_true-true :
    (bits : List Bool)
    → ((r : ℕ) → r < length bits → get_elem? bits r ≡ some true)
    → all_true bits ≡ true
all_true-true [] h = refl
all_true-true (bit ∷ bits) h =
    rw (some-injective bit true (h 0 (omega arith)))
      (all_true-true bits (λ r l. h (suc r) (omega (arith, l))))

abbrev pub IsComplete : Operation → Type 0
IsComplete o = all_true o.bitmap ≡ true

pub clean_up-IsComplete : (ops : List Operation) → All IsComplete ops → clean_up ops ≡ []
clean_up-IsComplete [] h = refl
clean_up-IsComplete (o ∷ ops) h = rw h.0 (clean_up-IsComplete ops h.1)

module _ (root v : ℕ) where
  -- How far the call of rank `r` is in the operation `o`.
  abbrev pub Fits : Operation → (r : ℕ) → Stage → Type 0
  Fits o r Stage.calling = get_elem? o.bitmap r ≡ some false
  Fits o r (Stage.waiting event idx) =
      (event ≡ o.event) × (idx ≡ 0) × (r ≢ root) × (get_elem? o.bitmap r ≡ some false)
  Fits o r (Stage.marking idx) =
      (idx ≡ 0) × (o.value ≡ some v) × (get_elem? o.bitmap r ≡ some false)
  Fits o r (Stage.reading idx) = (idx ≡ 0) × (o.value ≡ some v) × (get_elem? o.bitmap r ≡ some true)
  Fits o r (Stage.returned value) =
      (value ≡ some v) × (o.value ≡ some v) × (get_elem? o.bitmap r ≡ some true)
  Fits o r Stage.index_error = ⊥

  -- The operation `o` of the calls at `stages`, with the events' flags.
  pub record IsGoing (n : ℕ) (o : Operation) (is_set : ℕ → Bool) (stages : ℕ → Stage) : Type 0 where
    pub size : length o.bitmap ≡ n
    pub given :
        ((o.value ≡ none) × (is_set o.event ≡ false))
        ⊎ ((o.value ≡ some v) × (is_set o.event ≡ true))
    pub fits : (r : ℕ) → r < n → Fits o r (stages r)

  -- It is the only one.
  pub record Going (n : ℕ) (b : Broadcasts) (stages : ℕ → Stage) : Type 0 where
    pub o : Operation
    pub alone : b.operations ≡ o ∷ []
    pub going : IsGoing n o b.is_set stages

  -- The call of rank `r` gets to a stage at which it fits, and the others are where they were.
  pub Fits-put :
      (o o' : Operation) (n : ℕ) (stages : ℕ → Stage) (r : ℕ) (stage : Stage)
      → ((k : ℕ) → k < n → Fits o k (stages k))
      → ((k : ℕ) (s : Stage) → k ≢ r → Fits o k s → Fits o' k s)
      → Fits o' r stage
      → (k : ℕ) → k < n
      → Fits o' k (put stages r stage k)
  Fits-put o o' n stages r stage fits others own k l = elim (Bool-cases (k == r)) [
    | inl here ↦ rw here (subst (λ x. Fits o' x stage) (sym (==→eq k r here)) own)
    | inr there ↦ rw there (others k (stages k) (==→ne k r there) (fits k l))
  ]

  -- Another rank's mark leaves a call where it is.
  pub Fits-marked :
      (o : Operation) (r k : ℕ) (s : Stage)
      → k ≢ r
      → Fits o k s
      → Fits (record o { bitmap = set o.bitmap r true }) k s
  Fits-marked o r k Stage.calling h f = get_elem?-set_other o.bitmap r k true h ∙ f
  Fits-marked o r k (Stage.waiting e i) h f =
      (f.0, f.1, f.2, get_elem?-set_other o.bitmap r k true h ∙ f.3)
  Fits-marked o r k (Stage.marking i) h f =
      (f.0, f.1, get_elem?-set_other o.bitmap r k true h ∙ f.2)
  Fits-marked o r k (Stage.reading i) h f =
      (f.0, f.1, get_elem?-set_other o.bitmap r k true h ∙ f.2)
  Fits-marked o r k (Stage.returned x) h f =
      (f.0, f.1, get_elem?-set_other o.bitmap r k true h ∙ f.2)
  Fits-marked o r k Stage.index_error h f = f

  -- So does the value.
  pub Fits-given :
      (o : Operation) (k : ℕ) (s : Stage) → Fits o k s → Fits (record o { value = some v }) k s
  Fits-given o k Stage.calling f = f
  Fits-given o k (Stage.waiting e i) f = f
  Fits-given o k (Stage.marking i) f = (f.0, refl, f.2)
  Fits-given o k (Stage.reading i) f = (f.0, refl, f.2)
  Fits-given o k (Stage.returned x) f = (f.0, refl, f.2)
  Fits-given o k Stage.index_error f = f

  module _ (n : ℕ) (f : ℕ → Bool) (stages : ℕ → Stage) (o : Operation)
      (g : IsGoing n o f stages) where
    pub room : (r : ℕ) → r < n → ltb r (length o.bitmap) ≡ true
    room r r_in = rw g.size (ground (arith, r_in))

    -- The flag is up when the value is there.
    pub flag_up : o.value ≡ some v → f o.event ≡ true
    flag_up has = elim g.given [
      | inl no_value ↦ absurd (some-ne-none v (sym has ∙ no_value.0))
      | inr given ↦ given.1
    ]

    pub value_there : f o.event ≡ true → o.value ≡ some v
    value_there up = elim g.given [
      | inl no_value ↦ absurd (true≢false (sym up ∙ no_value.1))
      | inr given ↦ given.0
    ]
