-- ===== src/Benchmark/Device.antt =====
-- What the progress functions of examples/proxy_send_recv.cc use of the device.
use flash_reduce_dev.Common.{ℕ, ◌+◌, ◌≡◌, ℤ, rounds, List, ◌∷◌, length}

-- The calls on a device in the state `D`. `poll_cq` gives the number of completions, or a negative
-- one on failure, and their `wr_id`s, which it writes to the caller's array.
pub record Device (D : Type 0) : Type 0 where
  pub poll_cq : D → (cq max : ℕ) → D × ℤ × List ℕ
  pub post_send : D → (qp wr_id : ℕ) → D
  pub post_recv : D → (qp wr_id : ℕ) → D
  pub get_cycles : D → D × ℕ

-- What the manual says of them: a posted request joins its queue, and a poll takes as many
-- completions as it says.
pub record DeviceLaws {D : Type 0} (v : Device D) : Type 0 where
  pub sent : D → List ℕ
  pub received : D → List ℕ
  pub completed : D → ℕ
  pub post_send-sent : (d : D) (qp w : ℕ) → sent (v.post_send d qp w) ≡ w ∷ sent d
  pub poll_cq-sent : (d : D) (cq max : ℕ) → sent (v.poll_cq d cq max).0 ≡ sent d
  pub post_recv-received : (d : D) (qp w : ℕ) → received (v.post_recv d qp w) ≡ w ∷ received d
  pub poll_cq-received : (d : D) (cq max : ℕ) → received (v.poll_cq d cq max).0 ≡ received d
  pub get_cycles-received : (d : D) → received (v.get_cycles d).0 ≡ received d
  pub post_recv-completed : (d : D) (qp w : ℕ) → completed (v.post_recv d qp w) ≡ completed d
  pub get_cycles-completed : (d : D) → completed (v.get_cycles d).0 ≡ completed d
  pub poll_cq-completed :
      (d : D) (cq max : ℕ)
      → completed (v.poll_cq d cq max).0 ≡ completed d + rounds (v.poll_cq d cq max).1
  pub poll_cq-length :
      (d : D) (cq max : ℕ) → length (v.poll_cq d cq max).2 ≡ rounds (v.poll_cq d cq max).1
