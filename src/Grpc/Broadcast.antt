-- ===== src/Grpc/Broadcast.antt =====
-- `gRPCClient::Broadcast` of csrc/grpc_client.cc against the controller's `Broadcast`.
use flash_reduce_dev.Common.{ℕ, ◌∙◌, ◌<◌, ◌≡◌, refl, ap, Option, none, some, ltb, true, done, arith}
use flash_reduce_dev.Messages.Wire.{Wire}
use flash_reduce_dev.Messages.BroadcastCall.{BroadcastRequest}
use flash_reduce_dev.Messages.BroadcastReply.{BroadcastResponse, new_broadcast_response}
use flash_reduce_dev.Controller.Broadcast.{Broadcasts, Stage, IsBack, BroadcastRun}
use flash_reduce_dev.Controller.Rounds.{Agrees, BroadcastRun-Agrees, BroadcastRun-IsRound}
use flash_reduce_dev.Grpc.Calls.{broadcast_request, broadcast}

module _ {U : Type 0} (w : Wire U) where
  -- `BroadcastResponse(value=value)`, which leaves the field alone for `None`.
  abbrev pub value_response : Option ℕ → BroadcastResponse U
  value_response none = new_broadcast_response w
  value_response (some v) = record (new_broadcast_response w) { value = v }

  -- The response of a call that is back; one that ends in an exception has none.
  abbrev pub respond_value : Stage → Option (BroadcastResponse U)
  respond_value Stage.calling = none
  respond_value (Stage.waiting event idx) = none
  respond_value (Stage.marking idx) = none
  respond_value (Stage.reading idx) = none
  respond_value (Stage.returned value) = some (value_response value)
  respond_value Stage.index_error = none

  respond-Agrees :
      (v : ℕ) (s : Stage) → Agrees v s → IsBack s → respond_value s ≡ some (value_response (some v))
  respond-Agrees v Stage.calling a gone = absurd gone
  respond-Agrees v (Stage.waiting event idx) a gone = absurd gone
  respond-Agrees v (Stage.marking idx) a gone = absurd gone
  respond-Agrees v (Stage.reading idx) a gone = absurd gone
  respond-Agrees v (Stage.returned value) a gone = ap (λ x. some (value_response x)) a
  respond-Agrees v Stage.index_error a gone = absurd gone

  below_lem : (a n : ℕ) → a < n → ltb a n ≡ true
  below_lem a n h = ground arith

  -- The clients of `n` workers call `Broadcast` on one controller with one root, in any order of
  -- the calls' steps and maybe after earlier broadcasts whose calls are all back. A client whose
  -- call is back gets the value of the root's client.
  pub broadcast-Agrees :
      (n root : ℕ) (values : ℕ → ℕ) (b : Broadcasts) (stages : ℕ → Stage) (r : ℕ)
      (call : BroadcastRequest U → Option (BroadcastResponse U))
      → r < n
      → BroadcastRun n root (λ k. broadcast_request w (values k) k n root) b stages
      → IsBack (stages r)
      → call (broadcast_request w (values r) r n root) ≡ respond_value (stages r)
      → broadcast w call (values r) r n root ≡ done (values root)
  unfolding broadcast broadcast_request
  broadcast-Agrees n root values b stages r call r_in run gone answered =
      let root_in =
        (BroadcastRun-IsRound n root (λ k. broadcast_request w (values k) k n root) b stages
          run).root_in in
      rw (below_lem 0 n (omega (arith, r_in))) (
        rw (below_lem r n r_in) (
          rw (below_lem root n root_in) (
            rw
              (answered
                ∙ respond-Agrees (values root) (stages r)
                    (BroadcastRun-Agrees n root _ b stages r run r_in) gone)
              refl)))
