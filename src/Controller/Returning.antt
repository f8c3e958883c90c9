-- ===== src/Controller/Returning.antt =====
-- How a call of `Broadcast` of controller/controller.py gets to its return.
use flash_reduce_dev.Common.{
  ℕ, ◌<◌, ◌≡◌, ◌≢◌, ◌∙◌, refl, sym, ap, subst, inl, inr, Bool, some, [], ◌∷◌, arith, ne→==,
}
use flash_reduce_dev.Messages.BroadcastCall.{BroadcastRequest}
use flash_reduce_dev.Controller.Broadcast.{
  Operation, Broadcasts, Stage, broadcast_turn, IsBack, BroadcastRun, mark, await,
}
use flash_reduce_dev.Controller.Round.{Fits, IsGoing, all_true-false, room, flag_up}
use flash_reduce_dev.Controller.Rounds.{BroadcastRun-IsRound, BroadcastRun-InRound}

-- What is left of a call: the steps to its return, when it has nothing to wait for. A call that has
-- ended in an error never returns.
abbrev pub remaining : Stage → ℕ
remaining Stage.calling = 4
remaining (Stage.waiting event idx) = 3
remaining (Stage.marking idx) = 2
remaining (Stage.reading idx) = 1
remaining (Stage.returned value) = 0
remaining Stage.index_error = 5

-- Once the root's call has begun its operation has the value.
root_given :
    (root v : ℕ) (o : Operation) (s : Stage)
    → Fits root v o root s
    → s ≢ Stage.calling
    → o.value ≡ some v
root_given root v o Stage.calling fit begun = absurd (begun refl)
root_given root v o (Stage.waiting event idx) fit begun = absurd (fit.2 refl)
root_given root v o (Stage.marking idx) fit begun = fit.1
root_given root v o (Stage.reading idx) fit begun = fit.1
root_given root v o (Stage.returned value) fit begun = fit.1
root_given root v o Stage.index_error fit begun = absurd fit

module _ (n root v e : ℕ) (f : ℕ → Bool) (stages : ℕ → Stage) (o : Operation)
    (g : IsGoing root v n o f stages) (given : o.value ≡ some v) where
  mark_remaining :
      (r : ℕ)
      → r < n
      → (mark r 0 (record { operations = o ∷ []; next_event = e; is_set = f })).0 ≡ Stage.reading 0
  mark_remaining r r_in = rw (room root v n f stages o g r r_in) refl

  turn_remaining :
      {U : Type 0} (q : BroadcastRequest U) (stage : Stage)
      → q.rank < n
      → q.root ≡ root
      → (q.rank ≡ root → stage ≢ Stage.calling)
      → Fits root v o q.rank stage
      → ¬ IsBack stage
      → remaining
          (broadcast_turn q (record { operations = o ∷ []; next_event = e; is_set = f }) stage).0
        < remaining stage
  unfolding broadcast_turn
  turn_remaining q Stage.calling r_in agreed begun fit on =
      rw (all_true-false o.bitmap q.rank fit) (
        rw fit (
          rw (ne→== q.rank q.root (λ h. begun (h ∙ agreed) refl)) (
            subst
              (λ x.
                remaining
                  (await q.rank 0 o (record { operations = o ∷ []; next_event = e; is_set = f })
                    x).0
                < 4)
              (sym given) (rw (mark_remaining q.rank r_in) (omega arith)))))
  turn_remaining q (Stage.waiting event idx) r_in agreed begun fit on =
      rw (ap f fit.0 ∙ flag_up root v n f stages o g given) (omega arith)
  turn_remaining q (Stage.marking idx) r_in agreed begun fit on =
      rw fit.0 (rw (mark_remaining q.rank r_in) (omega arith))
  turn_remaining q (Stage.reading idx) r_in agreed begun fit on = rw fit.0 (omega arith)
  turn_remaining q (Stage.returned value) r_in agreed begun fit on = absurd (on tt)
  turn_remaining q Stage.index_error r_in agreed begun fit on = absurd fit

module _ {U : Type 0} (n root : ℕ) (reqs : ℕ → BroadcastRequest U) (b : Broadcasts)
    (stages : ℕ → Stage) (r : ℕ) where
  -- Once the root's call has begun, each step of a call that is not back yet takes it closer to its
  -- return: four steps are enough.
  pub broadcast_turn-remaining :
      BroadcastRun n root reqs b stages
      → r < n
      → stages root ≢ Stage.calling
      → ¬ IsBack (stages r)
      → remaining (broadcast_turn (reqs r) b (stages r)).0 < remaining (stages r)
  broadcast_turn-remaining run r_in begun on =
      elim (BroadcastRun-InRound n root reqs b stages run) [
        | inl start ↦
            absurd (begun (start.1 root (BroadcastRun-IsRound n root reqs b stages run).root_in))
        | inr g ↦
            let round = BroadcastRun-IsRound n root reqs b stages run in
            subst (λ k. remaining (broadcast_turn (reqs r) b (stages k)).0 < remaining (stages k))
              (round.ranks r r_in)
              (subst
                (λ ops.
                  remaining
                    (broadcast_turn (reqs r) (record b { operations = ops })
                      (stages (reqs r).rank)).0
                  < remaining (stages (reqs r).rank))
                (sym g.alone)
                (turn_remaining n root (reqs root).value b.next_event b.is_set stages g.o g.going
                  (root_given root (reqs root).value g.o (stages root)
                    (g.going.fits root round.root_in) begun)
                  (reqs r) (stages (reqs r).rank) (rw (round.ranks r r_in) r_in)
                  (round.roots r r_in) (λ h. rw h begun)
                  (g.going.fits (reqs r).rank (rw (round.ranks r r_in) r_in))
                  (rw (round.ranks r r_in) on)))
      ]
