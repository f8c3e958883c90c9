-- ===== src/Benchmark/Prepared.antt =====
-- How the sender, the receiver and the queue pair fare that `main` of examples/proxy_send_recv.cc
-- sets up.
use flash_reduce_dev.Common.{
  ℕ, ℤ, is_zero, is_nonneg, zero, suc, ◌+◌, ◌≤◌, ◌≡◌, ◌∙◌, refl, ap, inl, inr, pos, true, false,
  length, arith, Outcome, done, check_failed, undefined, Bool-cases,
}
use flash_reduce_dev.Proxy.State.{is_none, Ptr, ProxyArgs}
use flash_reduce_dev.Rdma.WorkRequest.{zero_recv_wr}
use flash_reduce_dev.Rdma.QueuePair.{QpState, qps_reset, qps_rts, QpInfo, Gid, ModifyQp}
use flash_reduce_dev.Rdma.Connect.{VerbsLaws, Connected, modify_qp_to_rts-Connected}
use flash_reduce_dev.Benchmark.Device.{Device, DeviceLaws}
use flash_reduce_dev.Benchmark.Progress.{
  send_benchmark, recv_benchmark, turns, turns-none, turns-busy, set_recv_id,
}
use flash_reduce_dev.Benchmark.Sending.{numbered, send_turns-numbered}
use flash_reduce_dev.Benchmark.Rounds.{Balanced}
use flash_reduce_dev.Benchmark.Receiving.{recv_benchmark-Received}
use flash_reduce_dev.Benchmark.Setup.{
  prepare, fill_sender, fill_receiver, post_receives, connect_qp, checked_rts, mtu, init_attributes,
}

module _ {D : Type 0} (v : Device D) (l : DeviceLaws v) where
  -- The sender that `main` prepares, from whatever entry of the pool, ends after ten turns of the
  -- proxy thread. It has posted the requests 1 to 10, one in each turn, and has 246 free work queue
  -- entries left.
  pub prepared_sender-numbered :
      (progress buffer lkey sge flags : ℕ) (neighbor : QpInfo) (channel cq qp : Ptr) (n : ProxyArgs)
      (d : D)
      → let r =
          turns
            (send_benchmark v)
            10
            (fill_sender progress buffer lkey sge flags neighbor (prepare channel cq qp n))
            d in
        (is_none r.0.state ≡ true)
        × (r.0.endpoint.available_wqes ≡ pos 246)
        × (l.sent r.1 ≡ numbered 0 10 (l.sent d))
  prepared_sender-numbered progress buffer lkey sge flags neighbor channel cq qp n d =
      send_turns-numbered v l 9
        (fill_sender progress buffer lkey sge flags neighbor (prepare channel cq qp n)) d 246 refl
        refl refl

  -- An entry with as many receives posted as rounds.
  record Posts (k : ℕ) (n : ProxyArgs) (d : D) (n' : ProxyArgs) (d' : D) : Type 0 where
    state : n'.state ≡ n.state
    iterations : n'.iterations ≡ n.iterations
    more : length (l.received d') ≡ length (l.received d) + k
    same : l.completed d' ≡ l.completed d

  post_receives-Posts :
      (k i : ℕ) (n : ProxyArgs) (d : D)
      → Posts k n d (post_receives v k i n d).0 (post_receives v k i n d).1
  unfolding post_receives
  post_receives-Posts zero i n d = record {
    state = refl;
    iterations = refl;
    more = omega arith;
    same = refl;
  }
  post_receives-Posts (suc k) i n d =
      let p = post_receives-Posts k (i + 1) (set_recv_id i n) (v.post_recv d n.endpoint.qp i) in
      record {
        state = p.state;
        iterations = p.iterations;
        more = omega (arith, p.more, ap (length {0}) (l.post_recv-received d n.endpoint.qp i));
        same = p.same ∙ l.post_recv-completed d n.endpoint.qp i;
      }

  turns-Balanced :
      (k : ℕ) (n : ProxyArgs) (d : D)
      → n.iterations ≤ 10
      → Balanced v l d (turns (recv_benchmark v) k n d).1
  unfolding turns
  turns-Balanced zero n d le = refl
  turns-Balanced (suc k) n d le = elim (Bool-cases (is_none n.state)) [
    | inl over ↦ rw (turns-none (recv_benchmark v) k n d over) (turns-Balanced k n d le)
    | inr busy ↦
        let r = recv_benchmark-Received v l n d busy le in
        let rest = turns-Balanced k (recv_benchmark v n d).0 (recv_benchmark v n d).1 r.within in
        rw (turns-busy (recv_benchmark v) k n d busy) (omega (arith, r.balanced, rest))
  ]

  -- From its set-up on, after any number of turns, the receiver that `main` prepares has posted 256
  -- receive requests more than the completions that it has taken from the queue, which is within
  -- the capacity with which the queue pair is created.
  pub prepared_receiver-outstanding :
      (progress : ℕ) (channel cq qp : Ptr) (n : ProxyArgs) (d : D) (k : ℕ)
      → let r = fill_receiver v progress (prepare channel cq qp n) d in
        let e = turns (recv_benchmark v) k r.0 r.1 in
        (length (l.received e.1) + l.completed d ≡ length (l.received d) + 256 + l.completed e.1)
        × (256 ≤ (init_attributes cq).max_recv_wr)
  unfolding fill_receiver
  prepared_receiver-outstanding progress channel cq qp n d k =
      let p = post_receives-Posts 256 0 start d in
      let r = fill_receiver v progress (prepare channel cq qp n) d in
      (
        omega (arith, p.more, p.same, turns-Balanced k r.0 r.1 (omega (arith, p.iterations))),
        omega arith,
      )
    where
      start : ProxyArgs
      start = record (prepare channel cq qp n) {
        endpoint = record (prepare channel cq qp n).endpoint { recv_wr = zero_recv_wr };
      }

-- `main` goes on with a queue pair that is ready to send to `info`.
abbrev pub Joined :
    {Qp : Type 0} (state : Qp → QpState) (peer : Qp → ℕ × Gid) → QpInfo → Outcome Qp → Type 0
Joined state peer info (done qp) = (state qp ≡ qps_rts) × (peer qp ≡ (info.qp_num, info.gid))
Joined state peer info check_failed = ⊥
Joined state peer info undefined = ⊥

checked_rts-Joined :
    {Qp : Type 0} (state : Qp → QpState) (peer : Qp → ℕ × Gid) (info : QpInfo)
    (r : Outcome (ℤ × Qp))
    → Connected state peer info r
    → Joined state peer info (checked_rts r)
unfolding checked_rts
checked_rts-Joined state peer info (done (ret, qp)) (zero_ret, at, to) =
    rw (ap is_nonneg zero_ret) (at, to)
checked_rts-Joined state peer info check_failed h = h
checked_rts-Joined state peer info undefined h = h

module _ {Qp : Type 0} (modify : ModifyQp Qp) where
  -- With a device that follows the manual, `main` takes a new queue pair to ready-to-send, with the
  -- neighbour that it was told of as its peer, and no check fails.
  pub connect_qp-Joined :
      (l : VerbsLaws modify false) (qp : Qp) (neighbor : QpInfo)
      → l.state qp ≡ qps_reset
      → Joined l.state l.peer neighbor (connect_qp modify qp neighbor)
  unfolding connect_qp
  connect_qp-Joined l qp neighbor reset =
      let (ret, connected) = modify_qp_to_rts-Connected modify false l qp neighbor mtu reset in
      rw (ap is_zero ret) (checked_rts-Joined l.state l.peer neighbor _ connected)
