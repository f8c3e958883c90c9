-- ===== src/Grpc/Session.antt =====
-- `gRPCClient::RdmaSession` of csrc/grpc_client.cc against the controller's `RdmaSession`.
use flash_reduce_dev.Common.{
  ℕ, sym, ◌∙◌, ◌<◌, ◌≡◌, ap, Option, none, some, List, ◌∷◌, [], ◌++◌, All, Any, length, true, done,
}
use flash_reduce_dev.Messages.Wire.{Wire}
use flash_reduce_dev.Messages.SessionRequest.{RdmaSessionRequest}
use flash_reduce_dev.Messages.SessionResponse.{RdmaSessionResponse}
use flash_reduce_dev.Rdma.QueuePair.{QpInfo}
use flash_reduce_dev.Controller.Barrier.{Mark}
use flash_reduce_dev.Controller.Session.{Caller, Controller, SessionRun, answer}
use flash_reduce_dev.Controller.Calls.{is_back}
use flash_reduce_dev.Controller.Exchange.{IsOther, answer-IsOther}
use flash_reduce_dev.Grpc.Calls.{session_request, rdma_session}
use flash_reduce_dev.Grpc.Exchange.{relay, rdma_session-relay}

module _ {U : Type 0} (w : Wire U) where
  -- The response that the call ends with, or `none` when it ends in an exception.
  abbrev pub respond : Option (RdmaSessionRequest U) → Option (RdmaSessionResponse U)
  respond none = none
  respond (some q) = some (relay w q)

  -- Clients that are as many as they say call `RdmaSession` on one controller, in any order of the
  -- calls' steps. One whose call is back from the barrier appends the queue pair of the other side,
  -- as it is there, to what it knew, when all requests of the other kind in its session are that
  -- side's; the other's `lid` has 16 bits.
  pub rdma_session-answer :
      (n : ℕ) (k : Controller U) (front : List (Caller U)) (c : Caller U) (back : List (Caller U))
      (log : List Mark)
      (session_id rank root mac ipv4 other_rank other_root other_mac other_ipv4 : ℕ)
      (local other : QpInfo) (more remote : List QpInfo)
      → 0 < n
      → SessionRun k (front ++ c ∷ back) log
      → length (front ++ c ∷ back) ≡ n
      → All (λ d. d.request.num_workers ≡ n) (front ++ c ∷ back)
      → c.request ≡ session_request w session_id rank n root mac ipv4 local
      → Any (λ d. IsOther c.request d.request) (front ++ c ∷ back)
      → All
          (λ d.
            IsOther c.request d.request
            → d.request
              ≡ session_request w session_id other_rank n other_root other_mac other_ipv4 other)
          (front ++ c ∷ back)
      → is_back c.phase ≡ true
      → other.lid < 65536
      → rdma_session w
          (λ req. respond (answer k.sessions req))
          session_id
          rank
          n
          root
          mac
          ipv4
          (local ∷ more)
          remote
        ≡ done (remote ++ other ∷ [])
  rdma_session-answer n k front c back log sid rank root mac ipv4 rank' root' mac' ipv4' local other
        more remote some_workers run many asked own there same gone small =
      rdma_session-relay w (λ req. respond (answer k.sessions req)) sid rank rank' n root root' mac
        ipv4 mac' ipv4' local other more remote small
        (ap respond (
          ap (answer k.sessions) (sym own)
          ∙ answer-IsOther n some_workers k front c back log _ run many asked there same gone))
