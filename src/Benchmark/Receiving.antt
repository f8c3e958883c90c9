-- ===== src/Benchmark/Receiving.antt =====
-- What the receiver of examples/proxy_send_recv.cc keeps up.
use flash_reduce_dev.Common.{◌≤◌, ◌≡◌, false, ◌==◌, arith}
use flash_reduce_dev.Proxy.State.{is_none, ProxyArgs}
use flash_reduce_dev.Proxy.System.{SameLinks}
use flash_reduce_dev.Benchmark.Device.{Device, DeviceLaws}
use flash_reduce_dev.Benchmark.Progress.{recv_benchmark, recv_end, recv_start, recv_round}
use flash_reduce_dev.Benchmark.Rounds.{
  chain, Balanced, recv_round-Round, recv_round_within, recv_end-Closing,
}

module _ {D : Type 0} (v : Device D) (l : DeviceLaws v) where
  pub recv_benchmark-SameLinks : (n : ProxyArgs) (d : D) → SameLinks n (recv_benchmark v n d).0
  unfolding recv_benchmark
  recv_benchmark-SameLinks n d =
      let r = recv_round v (recv_start n) d in
      chain n r.0 (recv_end v r.0 r.1).0
        (chain n (recv_start n) r.0 started (recv_round-Round v l (recv_start n) d).links)
        (recv_end-Closing v l r.0 r.1).links
    where
      started : SameLinks n (recv_start n)
      started = (ground arith, ground arith, ground arith)

  -- What a call of `recv_benchmark` leaves.
  pub record Received (n : ProxyArgs) (d : D) (n' : ProxyArgs) (d' : D) : Type 0 where
    pub links : SameLinks n n'
    pub within : n'.iterations ≤ 10
    pub ended : is_none n'.state ≡ (n'.iterations == 10)
    pub balanced : Balanced v l d d'

  -- An unfinished receiver that has counted ten polls at most keeps its links and stays within ten.
  -- It is finished exactly when it has counted ten, and each completion that the call takes from
  -- the queue is answered by one new receive request, also when the poll fails.
  pub recv_benchmark-Received :
      (n : ProxyArgs) (d : D)
      → is_none n.state ≡ false
      → n.iterations ≤ 10
      → Received n d (recv_benchmark v n d).0 (recv_benchmark v n d).1
  unfolding recv_benchmark
  recv_benchmark-Received n d busy le =
      let round = recv_round-Round v l start d in
      let within = recv_round_within v l start d (ground arith) in
      let closing = recv_end-Closing v l (recv_round v start d).0 (recv_round v start d).1 in
      record {
        links = recv_benchmark-SameLinks n d;
        within = omega (arith, closing.iterations, within);
        ended = ground (arith, closing.ended, closing.iterations, round.state, under_way);
        balanced = omega (arith, round.balanced, closing.balanced);
      }
    where
      start : ProxyArgs
      start = recv_start n

      under_way : is_none start.state ≡ false
      under_way = ground (arith, busy)
