-- ===== src/Benchmark/Setup.antt =====
-- What `main` of examples/proxy_send_recv.cc sets up before it starts the proxy.
use flash_reduce_dev.Common.{
  ℕ, ℤ, is_zero, is_nonneg, zero, suc, ◌+◌, ◌*◌, pos, Bool, false, if◌then◌else◌, Outcome, done,
  check_failed, undefined,
}
use flash_reduce_dev.Proxy.State.{op_ready, Ptr, ProxyArgs}
use flash_reduce_dev.Rdma.WorkRequest.{rdma_write_with_imm, zero_recv_wr, zero_send_wr}
use flash_reduce_dev.Rdma.QueuePair.{QpInfo, Gid, ModifyQp, modify_qp_to_init, modify_qp_to_rts}
use flash_reduce_dev.Benchmark.Device.{Device}
use flash_reduce_dev.Benchmark.Progress.{set_recv_id}

abbrev pub send_queue_depth : ℕ
send_queue_depth = 256

abbrev pub receive_queue_depth : ℕ
receive_queue_depth = 512

-- The enumeration's number of `IBV_MTU_256`.
abbrev pub mtu : ℕ
mtu = 1

-- 16384 numbers of four bytes.
abbrev pub buffer_size : ℕ
buffer_size = 16384 * 4

-- The attributes that `ibv_create_qp` gets, the type of the queue pair being `IBV_QPT_UC`.
pub record QpInitAttr : Type 0 where
  pub send_cq : Ptr
  pub recv_cq : Ptr
  pub reliable : Bool
  pub max_send_wr : ℕ
  pub max_recv_wr : ℕ
  pub max_send_sge : ℕ
  pub max_recv_sge : ℕ
  pub max_inline_data : ℕ

abbrev pub init_attributes : (cq : Ptr) → QpInitAttr
init_attributes cq = record {
  send_cq = cq;
  recv_cq = cq;
  reliable = false;
  max_send_wr = send_queue_depth;
  max_recv_wr = receive_queue_depth;
  max_send_sge = 1;
  max_recv_sge = 1;
  max_inline_data = 16;
}

-- The entry from `allocateArgs`, with `channel` the address of the local tail pointer.
abbrev pub ready_entry : (channel : Ptr) → ProxyArgs → ProxyArgs
ready_entry channel n = record n { state = op_ready; proxy_tail = channel }

-- With the queues created.
abbrev pub bind_entry : (cq qp : Ptr) → ProxyArgs → ProxyArgs
bind_entry cq qp n = record n { endpoint = record n.endpoint { cq = cq; qp = qp }; iterations = 0 }

abbrev pub prepare : (channel cq qp : Ptr) → ProxyArgs → ProxyArgs
prepare channel cq qp n = bind_entry cq qp (ready_entry channel n)

-- What is sent to the neighbour.
abbrev pub local_info : (rkey raddr qp_num : ℕ) → (gid : Gid) → (lid : ℕ) → QpInfo
local_info rkey raddr qp_num gid lid = record {
  rkey = rkey;
  raddr = raddr;
  qp_num = qp_num;
  psn = 0;
  gid = gid;
  lid = lid;
}

-- The check after `modify_qp_to_rts`, which lets an error number through.
unfoldable pub checked_rts : {Qp : Type 0} → Outcome (ℤ × Qp) → Outcome Qp
checked_rts (done (ret, qp)) = if is_nonneg ret then done qp else check_failed
checked_rts check_failed = check_failed
checked_rts undefined = undefined

-- The transitions of the queue pair, with what the neighbour sent.
unfoldable pub connect_qp : {Qp : Type 0} → ModifyQp Qp → Qp → QpInfo → Outcome Qp
connect_qp modify qp neighbor =
    let (ret, qp) = modify_qp_to_init modify qp in
    if is_zero ret
    then checked_rts (modify_qp_to_rts modify qp neighbor mtu false)
    else check_failed

module _ {D : Type 0} (v : Device D) where
  -- The loop over `i`, with `left` rounds left. The result of `ibv_post_recv` is not looked at.
  unfoldable pub post_receives : (left i : ℕ) → ProxyArgs → D → ProxyArgs × D
  post_receives zero i n d = (n, d)
  post_receives (suc left) i n d =
      post_receives left (i + 1) (set_recv_id i n) (v.post_recv d n.endpoint.qp i)

  -- The server's entry, up to `syncReady`. `progress` is the address of `recv_benchmark`.
  unfoldable pub fill_receiver : (progress : ℕ) → ProxyArgs → D → ProxyArgs × D
  fill_receiver progress n d =
      let n = record n { endpoint = record n.endpoint { recv_wr = zero_recv_wr } } in
      let (n', d') = post_receives send_queue_depth 0 n d in
      (
        record n' {
          endpoint = record n'.endpoint { available_wqes = pos receive_queue_depth };
          progress = progress;
        },
        d',
      )

-- The client's entry. `sge` is the address of the entry's own `sge`, `flags` the number of
-- `IBV_SEND_SIGNALED` and `progress` the address of `send_benchmark`.
abbrev pub fill_sender :
    (progress buffer lkey sge flags : ℕ) → (neighbor : QpInfo) → ProxyArgs → ProxyArgs
fill_sender progress buffer lkey sge flags neighbor n = record n {
  endpoint = record n.endpoint {
    sge = record { addr = buffer; length = buffer_size; lkey = lkey };
    send_wr = record zero_send_wr {
      wr_id = 0;
      next = 0;
      sg_list = sge;
      num_sge = 1;
      opcode = rdma_write_with_imm;
      send_flags = flags;
      imm_data = 0;
      remote_addr = neighbor.raddr;
      rkey = neighbor.rkey;
    };
    available_wqes = pos send_queue_depth;
  };
  progress = progress;
}
