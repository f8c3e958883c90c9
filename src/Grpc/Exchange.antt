-- ===== src/Grpc/Exchange.antt =====
-- Workers that exchange queue pairs through the controller, controller/controller.py.
use flash_reduce_dev.Common.{
  ℕ, ◌<◌, ◌^◌, ◌%◌, ◌≡◌, ap, Option, some, List, [], ◌∷◌, ◌++◌, arith, done,
}
use flash_reduce_dev.Messages.Wire.{Wire}
use flash_reduce_dev.Messages.SessionRequest.{RdmaSessionRequest}
use flash_reduce_dev.Messages.SessionResponse.{RdmaSessionResponse, new_session_response}
use flash_reduce_dev.Rdma.QueuePair.{QpInfo}
use flash_reduce_dev.Grpc.Calls.{qp_info_of, session_request, rdma_session}

cut_to_16 : (n : ℕ) → n < 65536 → n % 2 ^ 16 ≡ n
cut_to_16 n small = omega arith

module _ {U : Type 0} (w : Wire U) where
  -- The response that the controller makes of the request `req` of the other side.
  unfoldable pub relay : RdmaSessionRequest U → RdmaSessionResponse U
  relay req = record (new_session_response w) {
    rkey = req.rkey;
    raddr = req.raddr;
    qpn = req.qpn;
    psn = req.psn;
    gid_subnet = req.gid_subnet;
    gid_iface = req.gid_iface;
    lid = req.lid;
  }

  -- When the controller answers with the other worker's request, the caller appends that worker's
  -- queue pair, as it is there, to what it knew; the other's `lid` has 16 bits.
  pub rdma_session-relay :
      (call : RdmaSessionRequest U → Option (RdmaSessionResponse U))
      (session_id rank other_rank num_workers root other_root mac ipv4 other_mac other_ipv4 : ℕ)
      (local other : QpInfo) (more remote : List QpInfo)
      → other.lid < 65536
      → call (session_request w session_id rank num_workers root mac ipv4 local)
        ≡ some (
            relay (
              session_request w session_id other_rank num_workers other_root other_mac other_ipv4
                other))
      → rdma_session w call session_id rank num_workers root mac ipv4 (local ∷ more) remote
        ≡ done (remote ++ other ∷ [])
  unfolding rdma_session qp_info_of relay session_request
  rdma_session-relay call sid rank other_rank n root other_root mac ipv4 other_mac other_ipv4 local
        other more remote small answer =
      rw answer
        (ap (λ (l : ℕ). done (remote ++ record other { lid = l } ∷ [])) (cut_to_16 other.lid small))
