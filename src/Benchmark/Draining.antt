-- ===== src/Benchmark/Draining.antt =====
-- The proxy's thread with operations of examples/proxy_send_recv.cc to send.
use flash_reduce_dev.Common.{
  ℕ, ◌-◌, ◌<◌, ◌≡◌, ◌⊎◌, ap, inl, inr, true, false, not, ltb, arith, Bool-cases,
}
use flash_reduce_dev.Proxy.State.{Proxy, ProxyArgs, is_none}
use flash_reduce_dev.Proxy.Thread.{Thread}
use flash_reduce_dev.Proxy.Soundness.Pace.{Paces}
use flash_reduce_dev.Benchmark.Device.{Device, DeviceLaws}
use flash_reduce_dev.Benchmark.Progress.{send_benchmark}

module _ {D : Type 0} (v : Device D) (l : DeviceLaws v) where
  pub sender-closer :
      (d : D) (n : ProxyArgs)
      → not (ltb 10 n.iterations) ≡ true
      → is_none n.state ≡ false
      → let m = (send_benchmark v (record n { idle = false }) d).0 in
        (is_none m.state ≡ true)
        ⊎ ((not (ltb 10 m.iterations) ≡ true) × (10 - m.iterations < 10 - n.iterations))
  unfolding send_benchmark
  sender-closer d n good busy = elim (Bool-cases (ltb n.iterations 10)) [
    | inl more ↦ inr (ground (arith, more), ground (arith, more))
    | inr last ↦ inl (ground (arith, last, good, busy))
  ]

-- `d k` is what the device has come to in the turn after which `k` are left.
module _ {D : Type 0} (v : Device D) (l : DeviceLaws v) (d : ℕ → D) where
  -- Every entry's progress function is `send_benchmark`.
  abbrev pub sender : ℕ → ℕ → ProxyArgs → ProxyArgs
  sender k f n = (send_benchmark v n (d k)).0

  abbrev pub sender_pace : Paces sender
  sender_pace = record {
    left = λ n. 10 - n.iterations;
    good = λ n. not (ltb 10 n.iterations);
    left_same = λ n m e. ap (λ (k : ProxyArgs). 10 - k.iterations) e;
    good_same = λ n m e. ap (λ (k : ProxyArgs). not (ltb 10 k.iterations)) e;
    closer = λ k f n good busy. sender-closer v l (d k) n good busy;
  }
