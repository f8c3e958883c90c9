-- ===== src/Grpc/BroadcastExamples.antt =====
-- Broadcasts of two and of three workers by csrc/grpc_client.cc and controller/controller.py.
use flash_reduce_dev.Common.{ℕ, ◌+◌, ◌≡◌, refl, List, arith, done, [], ◌∷◌}
use flash_reduce_dev.Messages.Examples.{raw}
use flash_reduce_dev.Messages.BroadcastCall.{BroadcastRequest}
use flash_reduce_dev.Controller.Barrier.{put}
use flash_reduce_dev.Controller.Broadcast.{
  Broadcasts, Stage, IsBack, IsRound, BroadcastRun, broadcast_turn, new_broadcasts,
}
use flash_reduce_dev.Controller.Rounds.{Agrees, BroadcastRun-Agrees}
use flash_reduce_dev.Controller.Scheduled.{serve, serve-IsBack}
use flash_reduce_dev.Grpc.Calls.{broadcast_request, broadcast}
use flash_reduce_dev.Grpc.Broadcast.{respond_value, broadcast-Agrees}

-- The requests of `n` workers, the value of each being 40 more than its rank.
abbrev asks : (n root : ℕ) → ℕ → BroadcastRequest (List ℕ)
asks n root k = broadcast_request raw (k + 40) k n root

-- One step of the call of a rank.
abbrev go : (n root : ℕ) → Broadcasts × (ℕ → Stage) → ℕ → Broadcasts × (ℕ → Stage)
go n root s r = let (stage, b) = broadcast_turn (asks n root r) s.0 (s.1 r) in (b, put s.1 r stage)

-- Worker 0 of two waits, and the root, worker 1, has given the value.
abbrev both : Broadcasts × (ℕ → Stage)
both = go 2 1 (go 2 1 (new_broadcasts, λ r. Stage.calling) 0) 1

-- Worker 0 is woken, marks the operation and reads the value.
abbrev gone : Broadcasts × (ℕ → Stage)
gone = go 2 1 (go 2 1 (go 2 1 both 0) 0) 0

two : IsRound 2 1 (asks 2 1)
unfolding broadcast_request
two = record {
  root_in = omega arith;
  ranks = λ r l. refl;
  roots = λ r l. refl;
  sizes = λ r l. refl;
}

to_both : BroadcastRun 2 1 (asks 2 1) both.0 both.1
to_both =
    BroadcastRun.moved 1 (asks 2 1) _ _ 1 (omega arith)
      (BroadcastRun.moved 1 (asks 2 1) _ _ 0 (omega arith) (BroadcastRun.begun 1 (asks 2 1) two))

to_gone : BroadcastRun 2 1 (asks 2 1) gone.0 gone.1
to_gone = BroadcastRun.moved 1 (asks 2 1) _ _ 0 (omega arith) (
    BroadcastRun.moved 1 (asks 2 1) _ _ 0 (omega arith)
      (BroadcastRun.moved 1 (asks 2 1) _ _ 0 (omega arith) to_both))

BroadcastRun-Agrees_example : Agrees 41 (gone.1 0)
unfolding broadcast_turn broadcast_request
BroadcastRun-Agrees_example =
    BroadcastRun-Agrees 2 1 (asks 2 1) gone.0 gone.1 0 to_gone (omega arith)

-- Worker 0 has three steps left, and the root's steps come in between.
serve-IsBack_example : IsBack ((serve (asks 2 1) (0 ∷ 1 ∷ 0 ∷ 0 ∷ []) (both.0, both.1)).1 0)
unfolding broadcast_turn broadcast_request
serve-IsBack_example =
    serve-IsBack 2 1 (asks 2 1) (0 ∷ 1 ∷ 0 ∷ 0 ∷ []) both.0 both.1 0 to_both
      (omega arith, (omega arith, (omega arith, (omega arith, tt)))) (omega arith) refl
      (omega arith)

broadcast-Agrees_example : broadcast raw (λ req. respond_value raw (gone.1 0)) 40 0 2 1 ≡ done 41
unfolding broadcast_turn broadcast_request
broadcast-Agrees_example =
    broadcast-Agrees raw 2 1 (λ k. k + 40) gone.0 gone.1 0 (λ req. respond_value raw (gone.1 0))
      (omega arith) to_gone tt refl

-- The call of a rank that is back begins again.
abbrev call_again : ℕ → Broadcasts × (ℕ → Stage) → Broadcasts × (ℕ → Stage)
call_again r s = (s.0, put s.1 r Stage.calling)

-- Three workers: the root, worker 0, and worker 1 finish their calls, and worker 1 waits in the
-- second broadcast before worker 2 has called.
abbrev ahead : Broadcasts × (ℕ → Stage)
ahead =
    let s = go 3 0 (go 3 0 (new_broadcasts, λ r. Stage.calling) 0) 0 in
    let s = go 3 0 (go 3 0 s 1) 1 in go 3 0 (call_again 1 s) 1

-- Worker 2 completes the first broadcast, and the root calls again.
abbrev shifted : Broadcasts × (ℕ → Stage)
shifted = let s = go 3 0 (go 3 0 ahead 2) 2 in go 3 0 (call_again 0 s) 0

-- Worker 1 waits at the second operation, which is the first one by now.
ahead_waits : ahead.1 1 ≡ Stage.waiting 1 1
unfolding broadcast_turn broadcast_request
ahead_waits = refl

shifted_fails : (go 3 0 (go 3 0 shifted 1) 1).1 1 ≡ Stage.index_error
unfolding broadcast_turn broadcast_request
shifted_fails = refl
