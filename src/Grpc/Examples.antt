-- ===== src/Grpc/Examples.antt =====
-- The theorems of csrc/grpc_client.cc applied to two workers.
use flash_reduce_dev.Common.{
  ℕ, ◌≡◌, sym, refl, inl, inr, true≢false, some, List, [], ◌∷◌, arith, done,
}
use flash_reduce_dev.Messages.Examples.{raw}
use flash_reduce_dev.Rdma.QueuePair.{QpInfo}
use flash_reduce_dev.Grpc.Calls.{session_request, rdma_session}
use flash_reduce_dev.Controller.Barrier.{Phase, Mark, turn, arrive_at, check_at, leave_at, complete}
use flash_reduce_dev.Controller.Session.{
  Caller, Controller, session_turn, new_controller, SessionRun, answer,
}
use flash_reduce_dev.Controller.Exchange.{answer-IsOther}
use flash_reduce_dev.Grpc.Session.{respond, rdma_session-answer}

abbrev first_worker : QpInfo
first_worker = record {
  rkey = 1;
  raddr = 4096;
  qp_num = 17;
  psn = 5;
  gid = record { subnet_prefix = 0; interface_id = 9 };
  lid = 0;
}

abbrev second_worker : QpInfo
second_worker = record {
  rkey = 2;
  raddr = 8192;
  qp_num = 18;
  psn = 6;
  gid = record { subnet_prefix = 0; interface_id = 10 };
  lid = 65535;
}

-- The second worker is the session's root.
abbrev root_caller : Phase → Caller (List ℕ)
root_caller p = record { request = session_request raw 7 1 2 1 12 34 second_worker; phase = p }

abbrev worker_caller : Phase → Caller (List ℕ)
worker_caller p = record { request = session_request raw 7 0 2 0 56 78 first_worker; phase = p }

-- The worker arrives and waits.
abbrev worker_in : Controller (List ℕ)
worker_in = (session_turn new_controller (worker_caller Phase.calling)).1

-- The root arrives.
abbrev root_in : Controller (List ℕ)
root_in = (session_turn worker_in (root_caller Phase.calling)).1

-- The worker is woken and leaves.
abbrev met : Controller (List ℕ)
met = (session_turn root_in (worker_caller (Phase.leaving 0))).1

to_root_in :
    SessionRun root_in
      (worker_caller (Phase.waiting 0) ∷ root_caller (Phase.checking 0) ∷ [])
      (Mark.arrival 0 ∷ Mark.arrival 0 ∷ [])
unfolding turn arrive_at check_at complete session_request
to_root_in =
    SessionRun.moved worker_in (worker_caller (Phase.waiting 0) ∷ []) (root_caller Phase.calling) []
      (Mark.arrival 0 ∷ [])
      (SessionRun.moved worker_in [] (worker_caller (Phase.checking 0))
        (root_caller Phase.calling ∷ []) (Mark.arrival 0 ∷ [])
        (SessionRun.moved new_controller [] (worker_caller Phase.calling)
          (root_caller Phase.calling ∷ []) []
          (SessionRun.opened (worker_caller Phase.calling ∷ root_caller Phase.calling ∷ [])
            (refl, (refl, tt)))))

to_met :
    SessionRun met
      (worker_caller (Phase.returned 0) ∷ root_caller (Phase.checking 0) ∷ [])
      (Mark.return 0 ∷ Mark.arrival 0 ∷ Mark.arrival 0 ∷ [])
unfolding turn arrive_at check_at leave_at complete session_request
to_met =
    SessionRun.moved root_in [] (worker_caller (Phase.leaving 0))
      (root_caller (Phase.checking 0) ∷ []) (Mark.arrival 0 ∷ Mark.arrival 0 ∷ [])
      (SessionRun.moved root_in [] (worker_caller (Phase.waiting 0))
        (root_caller (Phase.checking 0) ∷ []) (Mark.arrival 0 ∷ Mark.arrival 0 ∷ []) to_root_in)

-- The worker's request is answered with the root's.
answer-IsOther_example :
    answer met.sessions (session_request raw 7 0 2 0 56 78 first_worker)
    ≡ some (session_request raw 7 1 2 1 12 34 second_worker)
unfolding session_request
answer-IsOther_example =
    answer-IsOther 2 (omega arith) met [] (worker_caller (Phase.returned 0))
      (root_caller (Phase.checking 0) ∷ []) (Mark.return 0 ∷ Mark.arrival 0 ∷ Mark.arrival 0 ∷ [])
      (session_request raw 7 1 2 1 12 34 second_worker) to_met refl (refl, (refl, tt))
      (inr (inl (refl, refl))) ((λ o. absurd (true≢false (sym o.0))), ((λ o. refl), tt)) refl

rdma_session-answer_example :
    rdma_session raw
      (λ req. respond raw (answer met.sessions req))
      7
      0
      2
      0
      56
      78
      (first_worker ∷ [])
      []
    ≡ done (second_worker ∷ [])
unfolding session_request
rdma_session-answer_example =
    rdma_session-answer raw 2 met [] (worker_caller (Phase.returned 0))
      (root_caller (Phase.checking 0) ∷ []) (Mark.return 0 ∷ Mark.arrival 0 ∷ Mark.arrival 0 ∷ []) 7
      0 0 56 78 1 1 12 34 first_worker second_worker [] [] (omega arith) to_met refl
      (refl, (refl, tt)) refl (inr (inl (refl, refl)))
      ((λ o. absurd (true≢false (sym o.0))), ((λ o. refl), tt)) refl (omega arith)
