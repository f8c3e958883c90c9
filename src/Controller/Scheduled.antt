-- ===== src/Controller/Scheduled.antt =====
-- Whole broadcasts of controller/controller.py, by schedules of the calls' steps.
use flash_reduce_dev.Common.{
  ℕ, ◌+◌, ◌<◌, ◌≤◌, ◌≡◌, ◌⊎◌, ◌∙◌, refl, sym, ap, subst, inl, inr, Bool, true, false, true≢false,
  Bool-cases, ltb, ◌==◌, Option, none, some, List, [], ◌∷◌, All, length, count, get_elem?, arith,
  eq→==, ne→==, ==→eq, ==→ne,
}
use flash_reduce_dev.Messages.BroadcastCall.{BroadcastRequest}
use flash_reduce_dev.Controller.Barrier.{put}
use flash_reduce_dev.Controller.Broadcast.{
  Operation, Broadcasts, Stage, broadcast_turn, IsBack, BroadcastRun, mark_at, read_value,
}
use flash_reduce_dev.Controller.Returning.{remaining, broadcast_turn-remaining}

-- The call has taken its first step.
abbrev pub has_begun : Stage → Bool
has_begun Stage.calling = false
has_begun (Stage.waiting event idx) = true
has_begun (Stage.marking idx) = true
has_begun (Stage.reading idx) = true
has_begun (Stage.returned value) = true
has_begun Stage.index_error = true

mark-has_begun :
    (rank idx : ℕ) (b : Broadcasts) (o : Option Operation)
    → has_begun (mark_at rank idx b o).0 ≡ true
mark-has_begun rank idx b none = refl
mark-has_begun rank idx b (some o) = elim (Bool-cases (ltb rank (length o.bitmap))) [
  | inl room ↦ rw room refl
  | inr out ↦ rw out refl
]

read-has_begun : (o : Option Operation) → has_begun (read_value o) ≡ true
read-has_begun none = refl
read-has_begun (some o) = refl

module _ {U : Type 0} (q : BroadcastRequest U) (b : Broadcasts) where
  turn-has_begun : (s : Stage) → has_begun s ≡ true → has_begun (broadcast_turn q b s).0 ≡ true
  unfolding broadcast_turn
  turn-has_begun Stage.calling h = absurd (true≢false (sym h))
  turn-has_begun (Stage.waiting event idx) h = elim (Bool-cases (b.is_set event)) [
    | inl up ↦ rw up refl
    | inr down ↦ rw down refl
  ]
  turn-has_begun (Stage.marking idx) h = mark-has_begun q.rank idx b (get_elem? b.operations idx)
  turn-has_begun (Stage.reading idx) h = read-has_begun (get_elem? b.operations idx)
  turn-has_begun (Stage.returned value) h = refl
  turn-has_begun Stage.index_error h = refl

  turn-IsBack : (s : Stage) → IsBack s → IsBack (broadcast_turn q b s).0
  unfolding broadcast_turn
  turn-IsBack Stage.calling h = absurd h
  turn-IsBack (Stage.waiting event idx) h = absurd h
  turn-IsBack (Stage.marking idx) h = absurd h
  turn-IsBack (Stage.reading idx) h = absurd h
  turn-IsBack (Stage.returned value) h = tt
  turn-IsBack Stage.index_error h = absurd h

-- Steps of the calls of these ranks, one after the other.
abbrev pub serve :
    {U : Type 0}
    → (ℕ → BroadcastRequest U)
    → (schedule : List ℕ) → Broadcasts × (ℕ → Stage)
    → Broadcasts × (ℕ → Stage)
serve reqs [] s = s
serve reqs (r ∷ rs) s =
    let (stage, b) = broadcast_turn (reqs r) s.0 (s.1 r) in serve reqs rs (b, put s.1 r stage)

Dec-IsBack : (s : Stage) → IsBack s ⊎ ¬ IsBack s
Dec-IsBack Stage.calling = inr (λ h. h)
Dec-IsBack (Stage.waiting event idx) = inr (λ h. h)
Dec-IsBack (Stage.marking idx) = inr (λ h. h)
Dec-IsBack (Stage.reading idx) = inr (λ h. h)
Dec-IsBack (Stage.returned value) = inl tt
Dec-IsBack Stage.index_error = inr (λ h. h)

IsBack-remaining : (s : Stage) → remaining s ≡ 0 → IsBack s
IsBack-remaining Stage.calling h = absurd (omega (arith, h))
IsBack-remaining (Stage.waiting event idx) h = absurd (omega (arith, h))
IsBack-remaining (Stage.marking idx) h = absurd (omega (arith, h))
IsBack-remaining (Stage.reading idx) h = absurd (omega (arith, h))
IsBack-remaining (Stage.returned value) h = tt
IsBack-remaining Stage.index_error h = absurd (omega (arith, h))

remaining-IsBack : (s : Stage) → IsBack s → remaining s ≡ 0
remaining-IsBack Stage.calling h = absurd h
remaining-IsBack (Stage.waiting event idx) h = absurd h
remaining-IsBack (Stage.marking idx) h = absurd h
remaining-IsBack (Stage.reading idx) h = absurd h
remaining-IsBack (Stage.returned value) h = refl
remaining-IsBack Stage.index_error h = absurd h

count_here : (r k : ℕ) (ks : List ℕ) → (k == r) ≡ true → count r (k ∷ ks) ≡ 1 + count r ks
count_here r k ks h = rw h refl

count_there : (r k : ℕ) (ks : List ℕ) → (k == r) ≡ false → count r (k ∷ ks) ≡ count r ks
count_there r k ks h = rw h (omega arith)

module _ {U : Type 0} (n root : ℕ) (reqs : ℕ → BroadcastRequest U) where
  -- Once the root's call has begun, every schedule in which the workers' calls take steps brings
  -- each call back that has as many of them as it has left, four at most, whatever the others do.
  pub serve-IsBack :
      (schedule : List ℕ) (b : Broadcasts) (stages : ℕ → Stage) (r : ℕ)
      → BroadcastRun n root reqs b stages
      → All (λ k. k < n) schedule
      → r < n
      → has_begun (stages root) ≡ true
      → remaining (stages r) ≤ count r schedule
      → IsBack ((serve reqs schedule (b, stages)).1 r)
  serve-IsBack [] b stages r run all r_in begun enough =
      IsBack-remaining (stages r) (omega (arith, enough))
  serve-IsBack (k ∷ ks) b stages r run all r_in begun enough =
      serve-IsBack ks step.1 (put stages k step.0) r
        (BroadcastRun.moved root reqs b stages k all.0 run) all.1 r_in root_begun less
    where
      step : Stage × Broadcasts
      step = broadcast_turn (reqs k) b (stages k)

      root_begun : has_begun (put stages k step.0 root) ≡ true
      root_begun = elim (Bool-cases (root == k)) [
        | inl here ↦ rw here (
            turn-has_begun (reqs k) b (stages k)
              (subst (λ x. has_begun (stages x) ≡ true) (==→eq root k here) begun))
        | inr there ↦ rw there begun
      ]

      own : r ≡ k → remaining step.0 ≤ count r ks
      own e = elim (Dec-IsBack (stages k)) [
        | inl back ↦ omega (arith, remaining-IsBack step.0 (turn-IsBack (reqs k) b (stages k) back))
        | inr on ↦ omega (
          arith,
          enough,
          count_here r k ks (eq→== k r (sym e)),
          ap (λ x. remaining (stages x)) e,
          broadcast_turn-remaining n root reqs b stages k run all.0
              (λ h. true≢false (sym begun ∙ ap has_begun h)) on,
        )
      ]

      less : remaining (put stages k step.0 r) ≤ count r ks
      less = elim (Bool-cases (r == k)) [
        | inl here ↦ rw here (own (==→eq r k here))
        | inr there ↦
            rw there
              (omega (arith, enough, count_there r k ks (ne→== k r (λ e. ==→ne r k there (sym e)))))
      ]
