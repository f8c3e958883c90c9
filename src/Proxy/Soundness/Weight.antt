-- ===== src/Proxy/Soundness/Weight.antt =====
-- How much work a ring of csrc/proxy.cc holds, in rounds of the thread.
use flash_reduce_dev.Common.{
  ℕ, suc, ◌∙◌, Bool, sym, ◌+◌, ◌<◌, ◌≤◌, ◌≡◌, refl, ap, inl, inr, true, false, List, [], ◌∷◌, ◌++◌,
  ◌==◌, if◌then◌else◌, length, length-append, arith, Bool-cases, ==→eq,
}
use flash_reduce_dev.Proxy.State.{Ptr, null, is_none, ProxyArgs}
use flash_reduce_dev.Proxy.Chain.{first}
use flash_reduce_dev.Proxy.Channels.{Chan, jobs, heads, members}
use flash_reduce_dev.Proxy.Soundness.Turn.{total}
use flash_reduce_dev.Proxy.Rotate.{rotate}
use flash_reduce_dev.Proxy.Advance.{promote, drop_op, advance_ring}

-- The calls that an entry may still take; `left n` bounds those after the next one.
abbrev pub cost : (left : ProxyArgs → ℕ) → ProxyArgs → ℕ
cost left n = if is_none n.state then 0 else suc (left n)

-- The calls that the entries of a list may still take.
abbrev pub calls : (left : ProxyArgs → ℕ) → (Ptr → ProxyArgs) → List Ptr → ℕ
calls left node = total λ x. cost left (node x)

-- A round for each entry to leave, two for each call, and one more if the first has finished.
unfoldable pub weight : (left : ProxyArgs → ℕ) → (Ptr → ProxyArgs) → List Chan → ℕ
weight left node [] = 0
weight left node (c ∷ cs) =
    length (members (c ∷ cs))
    + calls left node (members (c ∷ cs))
    + calls left node (members (c ∷ cs))
    + (if is_none (node c.head).state then 1 else 0)

module _ (left : ProxyArgs → ℕ) (node : Ptr → ProxyArgs) where
  calls-append :
      (xs ys : List Ptr) → calls left node (xs ++ ys) ≡ calls left node xs + calls left node ys
  calls-append [] ys = omega arith
  calls-append (x ∷ xs) ys = omega (arith, calls-append xs ys)

  calls-members :
      (r : List Chan) (c : Chan)
      → calls left node (members (r ++ c ∷ []))
        ≡ calls left node (jobs c) + calls left node (members r)
  calls-members [] c = omega (arith, calls-append (jobs c) [])
  calls-members (d ∷ r) c = omega (
    arith,
    calls-append (jobs d) (members r),
    calls-append (jobs d) (members (r ++ c ∷ [])),
    calls-members r c,
  )

  length-members :
      (r : List Chan) (c : Chan)
      → length (members (r ++ c ∷ [])) ≡ length (jobs c) + length (members r)
  length-members [] c = omega (arith, length-append (jobs c) [])
  length-members (d ∷ r) c = omega (
    arith,
    length-append (jobs d) (members r),
    length-append (jobs d) (members (r ++ c ∷ [])),
    length-members r c,
  )

  pub weight-calls :
      (r : List Chan)
      → weight left node r
        ≤ length (members r) + calls left node (members r) + calls left node (members r) + 1
  unfolding weight
  weight-calls [] = omega arith
  weight-calls (c ∷ cs) = ground arith

  weight-promote :
      (k : Ptr) (ps : List Ptr) (ds : List Chan)
      → weight left node (promote k ps ds)
        ≤ length (ps ++ members ds)
          + calls left node (ps ++ members ds)
          + calls left node (ps ++ members ds)
          + 1
  unfolding weight promote
  weight-promote k [] [] = omega arith
  weight-promote k [] (e ∷ es) = ground arith
  weight-promote k (y ∷ ys) ds = ground arith

  -- Behind a finished operation the section makes the ring lighter.
  drop_weight :
      (d : Chan) (ds : List Chan)
      → is_none (node d.head).state ≡ true
      → weight left node (drop_op (d ∷ ds))
        ≤ length (members (d ∷ ds))
          + calls left node (members (d ∷ ds))
          + calls left node (members (d ∷ ds))
  unfolding drop_op
  drop_weight d ds done = ground (arith, weight-promote d.cell d.rest ds)

  pub weight-advance :
      (c : Chan) (cs : List Chan)
      → is_none (node c.head).state ≡ true
      → weight left node
          (advance_ring (is_none (node (first null (heads (rotate (c ∷ cs))))).state) (c ∷ cs))
        < weight left node (c ∷ cs)
  unfolding weight rotate advance_ring
  weight-advance c [] done = rw done (ground (arith, done, drop_weight c [] done))
  weight-advance c (d ∷ ds) done = elim (Bool-cases (is_none (node d.head).state)) [
    | inl next ↦ rw next (
        ground (
          arith,
          done,
          next,
          drop_weight d (ds ++ c ∷ []) next,
          length-members (d ∷ ds) c,
          calls-members (d ∷ ds) c,
          length-append (jobs c) (members (d ∷ ds)),
          calls-append (jobs c) (members (d ∷ ds)),
        ))
    | inr going ↦ rw going (
        ground (
          arith,
          done,
          going,
          length-members (d ∷ ds) c,
          calls-members (d ∷ ds) c,
          length-append (jobs c) (members (d ∷ ds)),
          calls-append (jobs c) (members (d ∷ ds)),
        ))
  ]

  -- Behind one that is not finished it gets no heavier.
  pub weight-rotate :
      (c : Chan) (cs : List Chan)
      → is_none (node c.head).state ≡ false
      → weight left node
          (advance_ring (is_none (node (first null (heads (rotate (c ∷ cs))))).state) (c ∷ cs))
        ≤ weight left node (c ∷ cs)
  unfolding weight rotate advance_ring
  weight-rotate c [] going = rw going (ground (arith, going))
  weight-rotate c (d ∷ ds) going = elim (Bool-cases (is_none (node d.head).state)) [
    | inl next ↦ rw next (
        ground (
          arith,
          going,
          next,
          drop_weight d (ds ++ c ∷ []) next,
          length-members (d ∷ ds) c,
          calls-members (d ∷ ds) c,
          length-append (jobs c) (members (d ∷ ds)),
          calls-append (jobs c) (members (d ∷ ds)),
        ))
    | inr more ↦ rw more (
        ground (
          arith,
          going,
          more,
          length-members (d ∷ ds) c,
          calls-members (d ∷ ds) c,
          length-append (jobs c) (members (d ∷ ds)),
          calls-append (jobs c) (members (d ∷ ds)),
        ))
  ]

abbrev flag : Bool → ℕ
flag b = if b then 1 else 0

flag_le : (b : Bool) → flag b ≤ 1
flag_le true = omega arith
flag_le false = omega arith

-- When the entry at `a` has come to a smaller cost, and the others are as they were, so has a list.
module _ (left : ProxyArgs → ℕ) (node node' : Ptr → ProxyArgs) (a : Ptr)
    (same : (x : Ptr) → (x == a) ≡ false → node' x ≡ node x) where
  calls-le :
      (xs : List Ptr)
      → cost left (node' a) ≤ cost left (node a)
      → calls left node' xs ≤ calls left node xs
  calls-le [] less = omega arith
  calls-le (x ∷ xs) less = elim (Bool-cases (x == a)) [
    | inl hit ↦ omega (
      arith,
      less,
      calls-le xs less,
      ap (λ (y : Ptr). cost left (node' y)) (==→eq x a hit),
      ap (λ (y : Ptr). cost left (node y)) (==→eq x a hit),
    )
    | inr miss ↦ omega (arith, ap (cost left) (same x miss), calls-le xs less)
  ]

  -- A call for the first operation makes the ring lighter.
  pub weight-call :
      (c : Chan) (cs : List Chan)
      → c.head ≡ a
      → cost left (node' a) + 1 ≤ cost left (node a)
      → weight left node' (c ∷ cs) + 1 ≤ weight left node (c ∷ cs)
  unfolding weight
  weight-call c cs at less = omega (
    arith,
    less,
    calls-le (c.rest ++ members cs) (omega (arith, less)),
    ap (λ (y : Ptr). cost left (node' y)) at,
    ap (λ (y : Ptr). cost left (node y)) at,
    flag_le (is_none (node' c.head).state),
  )

  -- None is needed for an operation that has finished.
  pub weight-keep :
      (c : Chan) (cs : List Chan)
      → c.head ≡ a
      → (is_none (node a).state ≡ true) × (is_none (node' a).state ≡ true)
      → cost left (node' a) ≤ cost left (node a)
      → weight left node' (c ∷ cs) ≤ weight left node (c ∷ cs)
  unfolding weight
  weight-keep c cs at (done, done') less = omega (
    arith,
    less,
    calls-le (c.rest ++ members cs) less,
    ap (λ (y : Ptr). cost left (node' y)) at,
    ap (λ (y : Ptr). cost left (node y)) at,
    ap flag (
        ap (λ (y : Ptr). is_none (node' y).state) at
        ∙ done'
        ∙ sym done
        ∙ sym (ap (λ (y : Ptr). is_none (node y).state) at)),
  )

module _ (left : ProxyArgs → ℕ) (node node' : Ptr → ProxyArgs)
    (same : (x : Ptr) → is_none (node' x).state ≡ is_none (node x).state)
    (same_cost : (x : Ptr) → cost left (node' x) ≡ cost left (node x)) where
  calls_cong : (xs : List Ptr) → calls left node' xs ≡ calls left node xs
  calls_cong [] = refl
  calls_cong (x ∷ xs) = omega (arith, same_cost x, calls_cong xs)

  -- Entries of equal costs give an equal weight.
  pub weight_cong : (r : List Chan) → weight left node' r ≡ weight left node r
  unfolding weight
  weight_cong [] = refl
  weight_cong (c ∷ cs) = omega (arith, ap flag (same c.head), calls_cong (members (c ∷ cs)))

pub weight_pos :
    (left : ProxyArgs → ℕ) (node : Ptr → ProxyArgs) (c : Chan) (cs : List Chan)
    → 0 < weight left node (c ∷ cs)
unfolding weight
weight_pos left node c cs = omega arith
