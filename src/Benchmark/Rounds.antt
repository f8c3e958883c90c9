-- ===== src/Benchmark/Rounds.antt =====
-- A round of the receiver of examples/proxy_send_recv.cc, and its last lines.
use flash_reduce_dev.Common.{
  ℕ, zero, suc, ◌+◌, ◌≤◌, ◌≡◌, ◌∙◌, refl, ap, inl, inr, ℤ, ◌+ℤ◌, is_zero, rounds, false, not, ◌&&◌,
  ◌||◌, List, [], ◌∷◌, ◌==◌, if◌then◌else◌, ltb, length, arith, Bool-cases,
}
use flash_reduce_dev.Proxy.State.{is_none, ProxyArgs}
use flash_reduce_dev.Proxy.System.{SameLinks}
use flash_reduce_dev.Benchmark.Device.{Device, DeviceLaws}
use flash_reduce_dev.Benchmark.Progress.{
  repost, is_progress, start_clock, recv_step, recv_end, recv_round,
}

pub chain : (n m k : ProxyArgs) → SameLinks n m → SameLinks m k → SameLinks n k
chain n m k (a, b, c) (a', b', c') = (a' ∙ a, b' ∙ b, c' ∙ c)

module _ {D : Type 0} (v : Device D) (l : DeviceLaws v) where
  -- An entry keeps its place and its queue pair.
  record Kept (n n' : ProxyArgs) : Type 0 where
    links : SameLinks n n'
    state : n'.state ≡ n.state
    iterations : n'.iterations ≡ n.iterations

  repost-Kept : (k : ℕ) (wcs : List ℕ) (n : ProxyArgs) (d : D) → Kept n (repost v k wcs n d).0
  unfolding repost
  repost-Kept zero wcs n d = ground arith
  repost-Kept (suc k) [] n d = ground arith
  repost-Kept (suc k) (w ∷ wcs) n d =
      let q =
        repost-Kept k wcs
          (record n {
            endpoint = record n.endpoint { recv_wr = record n.endpoint.recv_wr { wr_id = w } };
          })
          (v.post_recv d n.endpoint.qp w) in
      ground (arith, q)

  repost-balance :
      (k : ℕ) (wcs : List ℕ) (n : ProxyArgs) (d : D)
      → length wcs ≡ k
      → (length (l.received (repost v k wcs n d).1) ≡ length (l.received d) + k)
        × (l.completed (repost v k wcs n d).1 ≡ l.completed d)
  unfolding repost
  repost-balance zero wcs n d e = (omega arith, refl)
  repost-balance (suc k) [] n d e = absurd (omega arith)
  repost-balance (suc k) (w ∷ wcs) n d e =
      let (more, same) =
        repost-balance k wcs
          (record n {
            endpoint = record n.endpoint { recv_wr = record n.endpoint.recv_wr { wr_id = w } };
          })
          (v.post_recv d n.endpoint.qp w) (omega arith) in
      (
        omega (arith, more, ap (length {0}) (l.post_recv-received d n.endpoint.qp w)),
        same ∙ l.post_recv-completed d n.endpoint.qp w,
      )

  -- As many receives are posted as completions have been taken.
  abbrev pub Balanced : (d d' : D) → Type 0
  Balanced d d' = length (l.received d') + l.completed d ≡ length (l.received d) + l.completed d'

  start_clock-Kept :
      (n : ProxyArgs) (d : D) → Kept n (start_clock v n d).0 × Balanced d (start_clock v n d).1
  unfolding start_clock
  start_clock-Kept n d = (
    ground arith,
    ground (arith, ap (length {0}) (l.get_cycles-received d), l.get_cycles-completed d),
  )

  -- A round counts once at most.
  pub record Round (n : ProxyArgs) (d : D) (n' : ProxyArgs) (d' : D) : Type 0 where
    pub links : SameLinks n n'
    pub state : n'.state ≡ n.state
    pub counted : n'.iterations ≤ n.iterations + 1
    pub balanced : Balanced d d'

  recv_step-Round : (n : ProxyArgs) (d : D) → Round n d (recv_step v n d).0 (recv_step v n d).1
  unfolding recv_step
  recv_step-Round n d = record {
    links =
        chain n posted_all.0 (start_clock v posted_all.0 posted_all.1).0 again.links clocked.links;
    state = clocked.state ∙ again.state;
    counted = omega (arith, clocked.iterations, again.iterations, most);
    balanced = omega (
      arith,
      ap (length {0}) (l.poll_cq-received d n.endpoint.cq 32),
      l.poll_cq-completed d n.endpoint.cq 32,
      posted,
      steady,
    );
  }
    where
      polled : D × ℤ × List ℕ
      polled = v.poll_cq d n.endpoint.cq 32

      counting : ProxyArgs
      counting = record n {
        idle = false;
        iterations = if not (is_zero polled.1) then n.iterations + 1 else n.iterations;
        count = n.count +ℤ polled.1;
      }

      most : counting.iterations ≤ n.iterations + 1
      most = ground arith

      posted_all : ProxyArgs × D
      posted_all = repost v (rounds polled.1) polled.2 counting polled.0

      again : Kept counting posted_all.0
      again = repost-Kept (rounds polled.1) polled.2 counting polled.0

      balance :
          (length (l.received posted_all.1) ≡ length (l.received polled.0) + rounds polled.1)
          × (l.completed posted_all.1 ≡ l.completed polled.0)
      balance =
          repost-balance (rounds polled.1) polled.2 counting polled.0
            (l.poll_cq-length d n.endpoint.cq 32)

      posted : length (l.received posted_all.1) ≡ length (l.received polled.0) + rounds polled.1
      posted = balance.0

      clock :
          Kept posted_all.0 (start_clock v posted_all.0 posted_all.1).0
          × Balanced posted_all.1 (start_clock v posted_all.0 posted_all.1).1
      clock = start_clock-Kept posted_all.0 posted_all.1

      clocked : Kept posted_all.0 (start_clock v posted_all.0 posted_all.1).0
      clocked = clock.0

      steady :
          (Balanced posted_all.1 (start_clock v posted_all.0 posted_all.1).1)
          × (l.completed posted_all.1 ≡ l.completed polled.0)
      steady = (clock.1, balance.1)

  -- What the last lines leave.
  pub record Closing (n : ProxyArgs) (d : D) (n' : ProxyArgs) (d' : D) : Type 0 where
    pub links : SameLinks n n'
    pub iterations : n'.iterations ≡ n.iterations
    pub ended : is_none n'.state ≡ (n.iterations == 10) || is_none n.state
    pub balanced : Balanced d d'

  pub recv_end-Closing : (n : ProxyArgs) (d : D) → Closing n d (recv_end v n d).0 (recv_end v n d).1
  unfolding recv_end
  recv_end-Closing n d = record {
    links = (ground arith, ground arith, ground arith);
    iterations = ground arith;
    ended = ground arith;
    balanced = ground (arith, ap (length {0}) (l.get_cycles-received d), l.get_cycles-completed d);
  }

  pub recv_round-Round :
      (n : ProxyArgs) (d : D) → Round n d (recv_round v n d).0 (recv_round v n d).1
  unfolding recv_round
  recv_round-Round n d = elim (Bool-cases (is_progress n.state && ltb n.iterations 10)) [
    | inl going ↦ rw going (recv_step-Round n d)
    | inr over ↦ rw over stay
  ]
    where
      stay : Round n d n d
      stay = record {
        links = (refl, refl, refl);
        state = refl;
        counted = omega arith;
        balanced = refl;
      }

  -- A round is not begun after the tenth.
  pub recv_round_within :
      (n : ProxyArgs) (d : D) → n.iterations ≤ 10 → (recv_round v n d).0.iterations ≤ 10
  unfolding recv_round
  recv_round_within n d le = elim (Bool-cases (is_progress n.state && ltb n.iterations 10)) [
    | inl going ↦ rw going (ground (arith, going, (recv_step-Round n d).counted))
    | inr over ↦ rw over le
  ]
