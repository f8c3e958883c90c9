-- ===== src/Grpc/Calls.antt =====
-- The methods of `gRPCClient`. A stub's call is a parameter: `none` is a status that is not ok.
use flash_reduce_dev.Common.{
  ℕ, ◌%◌, ◌^◌, Bool, true, Option, none, some, List, [], ◌∷◌, ◌++◌, if◌then◌else◌, ltb, Outcome,
  done, check_failed, undefined,
}
use flash_reduce_dev.Messages.Wire.{Wire}
use flash_reduce_dev.Messages.SessionRequest.{RdmaSessionRequest, new_session_request}
use flash_reduce_dev.Messages.SessionResponse.{RdmaSessionResponse}
use flash_reduce_dev.Messages.Barrier.{BarrierRequest, new_barrier_request}
use flash_reduce_dev.Messages.BroadcastCall.{BroadcastRequest, new_broadcast_request}
use flash_reduce_dev.Messages.BroadcastReply.{BroadcastResponse}
use flash_reduce_dev.Messages.SessionRequest.Fields as Session
use flash_reduce_dev.Messages.BroadcastCall.Fields as Call
use flash_reduce_dev.Messages.Barrier.Fields as Sync
use flash_reduce_dev.Rdma.QueuePair.{QpInfo}

-- `CHECK(status.ok())` and what follows it.
abbrev pub checked : {A B : Type 0} → Option A → (A → Outcome B) → Outcome B
checked none k = check_failed
checked (some a) k = k a

-- The queue pair that a response describes; `lid` is cut to 16 bits.
unfoldable pub qp_info_of : {U : Type 0} → RdmaSessionResponse U → QpInfo
qp_info_of response = record {
  rkey = response.rkey;
  raddr = response.raddr;
  qp_num = response.qpn;
  psn = response.psn;
  gid = record { subnet_prefix = response.gid_subnet; interface_id = response.gid_iface };
  lid = response.lid % 2 ^ 16;
}

module _ {U : Type 0} (w : Wire U) where
  -- The request of `RdmaSession`.
  unfoldable pub session_request :
      (session_id rank num_workers root mac ipv4 : ℕ) (local : QpInfo) → RdmaSessionRequest U
  session_request session_id rank num_workers root mac ipv4 local =
      let request = new_session_request w in
      let request = Session.set_session_id session_id request in
      let request = Session.set_rank rank request in
      let request = Session.set_num_workers num_workers request in
      let request = Session.set_root root request in
      let request = Session.set_mac mac request in
      let request = Session.set_ipv4 ipv4 request in
      let request = Session.set_rkey local.rkey request in
      let request = Session.set_raddr local.raddr request in
      let request = Session.set_qpn local.qp_num request in
      let request = Session.set_psn local.psn request in
      let request = Session.set_gid_subnet local.gid.subnet_prefix request in
      let request = Session.set_gid_iface local.gid.interface_id request in
      let request = Session.set_lid local.lid request in request

  -- The result is `remote_qp_infos` after the call. `local_qp_infos[0]` of an empty vector is
  -- undefined.
  unfoldable pub rdma_session :
      (call : RdmaSessionRequest U → Option (RdmaSessionResponse U))
      (session_id rank num_workers root mac ipv4 : ℕ) (local_qp_infos remote_qp_infos : List QpInfo)
      → Outcome (List QpInfo)
  rdma_session call session_id rank num_workers root mac ipv4 [] remote = undefined
  rdma_session call session_id rank num_workers root mac ipv4 (local ∷ others) remote =
      checked (call (session_request session_id rank num_workers root mac ipv4 local))
        λ response. done (remote ++ qp_info_of response ∷ [])

  unfoldable pub barrier :
      (call : BarrierRequest U → Option (Unit {0})) → (num_workers : ℕ) → Outcome Bool
  barrier call num_workers =
      checked (call (Sync.set_num_workers num_workers (new_barrier_request w)))
        λ response. done true

  -- The request of `Broadcast`.
  unfoldable pub broadcast_request : (value rank num_workers root : ℕ) → BroadcastRequest U
  broadcast_request value rank num_workers root =
      let request = new_broadcast_request w in
      let request = Call.set_value value request in
      let request = Call.set_rank rank request in
      let request = Call.set_num_workers num_workers request in
      let request = Call.set_root root request in request

  unfoldable pub broadcast :
      (call : BroadcastRequest U → Option (BroadcastResponse U)) (value rank num_workers root : ℕ)
      → Outcome ℕ
  broadcast call value rank num_workers root =
      if ltb 0 num_workers
      then (if ltb rank num_workers
          then (if ltb root num_workers
              then checked (call (broadcast_request value rank num_workers root))
                  (λ response. done response.value)
              else check_failed)
          else check_failed)
      else check_failed
