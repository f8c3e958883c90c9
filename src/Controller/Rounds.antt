-- ===== src/Controller/Rounds.antt =====
-- The broadcasts of controller/controller.py, one after the other.
use flash_reduce_dev.Common.{
  ℕ, ◌<◌, ◌≡◌, ◌⊎◌, ◌∙◌, refl, sym, ap, subst, inl, inr, true, some, All, get_elem?, arith,
}
use flash_reduce_dev.Messages.BroadcastCall.{BroadcastRequest}
use flash_reduce_dev.Controller.Barrier.{put}
use flash_reduce_dev.Controller.Broadcast.{
  Operation, Broadcasts, Stage, broadcast_turn, IsBack, IsRound, BroadcastRun,
}
use flash_reduce_dev.Controller.Serving.{turn-Going, turn-opened}
use flash_reduce_dev.Controller.Round.{Fits, Going, IsComplete, all_true-true}

-- Between two broadcasts the operations that are there are complete; then there is one.
abbrev pub InRound : (root v n : ℕ) → Broadcasts → (ℕ → Stage) → Type 0
InRound root v n b stages =
    (All IsComplete b.operations × ((r : ℕ) → r < n → stages r ≡ Stage.calling))
    ⊎ Going root v n b stages

module _ (root v : ℕ) where
  back_true :
      (o : Operation) (r : ℕ) (s : Stage)
      → Fits root v o r s
      → IsBack s
      → get_elem? o.bitmap r ≡ some true
  back_true o r Stage.calling fit gone = absurd gone
  back_true o r (Stage.waiting event idx) fit gone = absurd gone
  back_true o r (Stage.marking idx) fit gone = absurd gone
  back_true o r (Stage.reading idx) fit gone = absurd gone
  back_true o r (Stage.returned value) fit gone = fit.2
  back_true o r Stage.index_error fit gone = absurd gone

  -- When all calls are back, their operation is complete.
  all_back :
      (n : ℕ) (b : Broadcasts) (stages : ℕ → Stage)
      → root < n
      → InRound root v n b stages
      → ((r : ℕ) → r < n → IsBack (stages r))
      → All IsComplete b.operations
  all_back n b stages root_in (inl start) gone = start.0
  all_back n b stages root_in (inr g) gone = subst (All IsComplete) (sym g.alone) (
    all_true-true g.o.bitmap (λ r l.
        back_true g.o r (stages r) (g.going.fits r (omega (arith, l, g.going.size)))
          (gone r (omega (arith, l, g.going.size)))),
    tt,
  )

  module _ {U : Type 0} (n : ℕ) (stages : ℕ → Stage) (q : BroadcastRequest U) (r_in : q.rank < n)
      (agreed : q.root ≡ root) (asked : q.num_workers ≡ n)
      (says : q.rank ≡ root → q.value ≡ v) where
    turn-InRound :
        (b : Broadcasts)
        → InRound root v n b stages
        → InRound root v n
            (broadcast_turn q b (stages q.rank)).1
            (put stages q.rank (broadcast_turn q b (stages q.rank)).0)
    turn-InRound b (inl start) = inr (
        subst
          (λ s.
            Going root v n (broadcast_turn q b s).1 (put stages q.rank (broadcast_turn q b s).0))
          (sym (start.1 q.rank r_in))
          (turn-opened root v n b.next_event b.is_set stages q r_in agreed says b.operations start.0
            asked start.1))
    turn-InRound b (inr g) = inr (
        subst
          (λ ops.
            let b' = record b { operations = ops } in
            Going root v n (broadcast_turn q b' (stages q.rank)).1
              (put stages q.rank (broadcast_turn q b' (stages q.rank)).0))
          (sym g.alone)
          (turn-Going root v n b.next_event b.is_set stages q r_in agreed says g.o (stages q.rank)
            g.going (g.going.fits q.rank r_in)))

module _ {U : Type 0} (n : ℕ) where
  pub BroadcastRun-IsRound :
      (root : ℕ) (reqs : ℕ → BroadcastRequest U) (b : Broadcasts) (stages : ℕ → Stage)
      → BroadcastRun n root reqs b stages
      → IsRound n root reqs
  BroadcastRun-IsRound root reqs b stages (BroadcastRun.begun root1 reqs1 round) = round
  BroadcastRun-IsRound root reqs b stages
        (BroadcastRun.moved root1 reqs1 b1 stages1 r r_in before) =
      BroadcastRun-IsRound root1 reqs1 b1 stages1 before
  BroadcastRun-IsRound root reqs b stages
        (BroadcastRun.begun_again root1 reqs1 b1 stages1 root2 reqs2 before gone round) =
      round

  pub BroadcastRun-InRound :
      (root : ℕ) (reqs : ℕ → BroadcastRequest U) (b : Broadcasts) (stages : ℕ → Stage)
      → BroadcastRun n root reqs b stages
      → InRound root (reqs root).value n b stages
  BroadcastRun-InRound root reqs b stages (BroadcastRun.begun root1 reqs1 round) =
      inl (tt, λ r l. refl)
  BroadcastRun-InRound root reqs b stages
        (BroadcastRun.moved root1 reqs1 b1 stages1 r r_in before) =
      let round = BroadcastRun-IsRound root1 reqs1 b1 stages1 before in
      subst
        (λ k.
          InRound root1 (reqs1 root1).value n (broadcast_turn (reqs1 r) b1 (stages1 k)).1
            (put stages1 k (broadcast_turn (reqs1 r) b1 (stages1 k)).0))
        (round.ranks r r_in)
        (turn-InRound root1 (reqs1 root1).value n stages1 (reqs1 r)
          (subst (λ k. k < n) (sym (round.ranks r r_in)) r_in) (round.roots r r_in)
          (round.sizes r r_in) (λ e. ap (λ k. (reqs1 k).value) (sym (round.ranks r r_in) ∙ e)) b1
          (subst (λ k. InRound root1 (reqs1 root1).value n b1 stages1) (round.ranks r r_in)
            (BroadcastRun-InRound root1 reqs1 b1 stages1 before)))
  BroadcastRun-InRound root reqs b stages
        (BroadcastRun.begun_again root1 reqs1 b1 stages1 root2 reqs2 before gone round) =
      inl (
        all_back root1 (reqs1 root1).value n b1 stages1
            (BroadcastRun-IsRound root1 reqs1 b1 stages1 before).root_in
            (BroadcastRun-InRound root1 reqs1 b1 stages1 before) gone,
        λ r l. refl,
      )

-- A call that is back has the value, and none ends in an `IndexError`.
abbrev pub Agrees : (v : ℕ) → Stage → Type 0
Agrees v Stage.calling = Unit
Agrees v (Stage.waiting event idx) = Unit
Agrees v (Stage.marking idx) = Unit
Agrees v (Stage.reading idx) = Unit
Agrees v (Stage.returned value) = value ≡ some v
Agrees v Stage.index_error = ⊥

Fits-Agrees : (root v : ℕ) (o : Operation) (r : ℕ) (s : Stage) → Fits root v o r s → Agrees v s
Fits-Agrees root v o r Stage.calling fit = tt
Fits-Agrees root v o r (Stage.waiting event idx) fit = tt
Fits-Agrees root v o r (Stage.marking idx) fit = tt
Fits-Agrees root v o r (Stage.reading idx) fit = tt
Fits-Agrees root v o r (Stage.returned value) fit = fit.0
Fits-Agrees root v o r Stage.index_error fit = fit

module _ {U : Type 0} (n root : ℕ) (reqs : ℕ → BroadcastRequest U) (b : Broadcasts)
    (stages : ℕ → Stage) (r : ℕ) where
  -- In broadcasts of any number of workers, one after the other, with the calls' steps in any order,
  -- no call ends in an `IndexError`, and each that is back has the value that the root has sent.
  pub BroadcastRun-Agrees :
      BroadcastRun n root reqs b stages → r < n → Agrees (reqs root).value (stages r)
  BroadcastRun-Agrees run r_in = elim (BroadcastRun-InRound n root reqs b stages run) [
    | inl start ↦ subst (Agrees (reqs root).value) (sym (start.1 r r_in)) tt
    | inr g ↦ Fits-Agrees root (reqs root).value g.o r (stages r) (g.going.fits r r_in)
  ]
