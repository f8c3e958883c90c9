-- ===== src/Benchmark/Sending.antt =====
-- How the sender of examples/proxy_send_recv.cc comes to its end.
use flash_reduce_dev.Common.{
  ℕ, zero, suc, ◌+◌, ◌-◌, ◌≤◌, ◌<◌, ◌≡◌, ◌∙◌, ap, inl, inr, pos, true, false, List, ◌∷◌, ◌==◌,
  if◌then◌else◌, length, arith, Bool-cases,
}
use flash_reduce_dev.Proxy.State.{is_none, ProxyArgs}
use flash_reduce_dev.Proxy.System.{SameLinks}
use flash_reduce_dev.Benchmark.Device.{Device, DeviceLaws}
use flash_reduce_dev.Benchmark.Progress.{send_benchmark, turns, turns-none, turns-busy}

-- The rounds that an unfinished entry has left, and one to notice the end.
abbrev left : ProxyArgs → ℕ
left n = if is_none n.state then 0 else 11 - n.iterations

-- The log of sent requests, newest first, after `k` more of them, numbered from `i + 1` on.
unfoldable pub numbered : (i k : ℕ) → List ℕ → List ℕ
numbered i zero log = log
numbered i (suc k) log = numbered (i + 1) k ((i + 1) ∷ log)

module _ {D : Type 0} (v : Device D) (l : DeviceLaws v) where
  pub send_benchmark-SameLinks : (n : ProxyArgs) (d : D) → SameLinks n (send_benchmark v n d).0
  unfolding send_benchmark
  send_benchmark-SameLinks n d = (ground arith, ground arith, ground arith)

  -- What one turn of an unfinished sender does.
  record SendStep (n : ProxyArgs) (d : D) (n' : ProxyArgs) (d' : D) : Type 0 where
    within : n'.iterations ≤ 10
    fewer : left n' < left n
    ended : is_none n'.state ≡ true → n'.iterations ≡ 10
    sends : length (l.sent d') + n.iterations ≤ length (l.sent d) + n'.iterations

  send_benchmark-SendStep :
      (n : ProxyArgs) (d : D)
      → is_none n.state ≡ false
      → n.iterations ≤ 10
      → SendStep n d (send_benchmark v n d).0 (send_benchmark v n d).1
  unfolding send_benchmark
  send_benchmark-SendStep n d busy le = record {
    within = ground arith;
    fewer = ground arith;
    ended = ground arith;
    sends = ground (
      arith,
      ap (length {0}) (l.post_send-sent d n.endpoint.qp (n.iterations + 1)),
      ap (length {0}) (l.poll_cq-sent d n.endpoint.cq 32),
    );
  }

  -- The sender has ended, after `most` requests at most.
  abbrev pub Ended : (start : ProxyArgs) (d : D) → ProxyArgs × D → Type 0
  Ended n d (n', d') =
      (is_none n'.state ≡ true)
      × (n'.iterations ≡ 10)
      × (length (l.sent d') + n.iterations ≤ length (l.sent d) + 10)

  turns-Ended :
      (k : ℕ) (n : ProxyArgs) (d : D)
      → n.iterations ≤ 10
      → (is_none n.state ≡ true → n.iterations ≡ 10)
      → left n ≤ k
      → Ended n d (turns (send_benchmark v) k n d)
  unfolding turns
  turns-Ended zero n d le ended few = ground (arith, ended)
  turns-Ended (suc k) n d le ended few = elim (Bool-cases (is_none n.state)) [
    | inl none_left ↦
        rw (turns-none (send_benchmark v) k n d none_left)
          (turns-Ended k n d le ended (ground (arith, none_left)))
    | inr busy ↦
        let st = send_benchmark-SendStep n d busy le in
        let (none_now, all, sends) =
          turns-Ended k (send_benchmark v n d).0 (send_benchmark v n d).1 st.within st.ended
            (omega (arith, st.fewer)) in
        rw (turns-busy (send_benchmark v) k n d busy)
          (none_now, all, omega (arith, sends, st.sends))
  ]

  -- A sender that is set up, or under way, with at most ten rounds behind it ends within one turn
  -- more than the rounds that are left, whatever the completion queue reports. It has then counted
  -- ten rounds, and has posted no more requests than there were rounds left.
  pub send_turns-Ended :
      (k : ℕ) (n : ProxyArgs) (d : D)
      → is_none n.state ≡ false
      → n.iterations ≤ 10
      → 11 ≤ k + n.iterations
      → Ended n d (turns (send_benchmark v) k n d)
  send_turns-Ended k n d busy le few =
      turns-Ended k n d le (λ e. absurd (ground (arith, busy, e))) (ground (arith, busy))

  -- With a free entry a turn posts one request, numbered by its round.
  send_benchmark-post :
      (n : ProxyArgs) (d : D) (w : ℕ)
      → is_none n.state ≡ false
      → n.iterations < 10
      → n.endpoint.available_wqes ≡ pos (suc w)
      → ((send_benchmark v n d).0.iterations ≡ n.iterations + 1)
        × ((send_benchmark v n d).0.endpoint.available_wqes ≡ pos w)
        × (is_none (send_benchmark v n d).0.state ≡ (n.iterations + 1 == 10))
        × (l.sent (send_benchmark v n d).1 ≡ (n.iterations + 1) ∷ l.sent d)
  unfolding send_benchmark
  send_benchmark-post n d w busy lt free = (
    ground arith,
    ground arith,
    ground arith,
    ground (arith, l.post_send-sent d n.endpoint.qp (n.iterations + 1)),
  )

  -- With a free work queue entry for each round that is left, the sender ends after exactly these
  -- rounds, each of which has posted one request, and the requests bear the numbers of the rounds.
  pub send_turns-numbered :
      (k : ℕ) (n : ProxyArgs) (d : D) (w : ℕ)
      → is_none n.state ≡ false
      → n.iterations + suc k ≡ 10
      → n.endpoint.available_wqes ≡ pos (suc k + w)
      → (is_none (turns (send_benchmark v) (suc k) n d).0.state ≡ true)
        × ((turns (send_benchmark v) (suc k) n d).0.endpoint.available_wqes ≡ pos w)
        × (l.sent (turns (send_benchmark v) (suc k) n d).1
            ≡ numbered n.iterations (suc k) (l.sent d))
  unfolding turns numbered
  send_turns-numbered zero n d w busy e free =
      let (it, wqes, state, sent) =
        send_benchmark-post n d w busy (omega arith) (ground (arith, free)) in
      rw (turns-busy (send_benchmark v) 0 n d busy) (ground (arith, state), wqes, sent)
  send_turns-numbered (suc k) n d w busy e free =
      let (it, wqes, state, sent) =
        send_benchmark-post n d (suc k + w) busy (omega arith) (ground (arith, free)) in
      let (none_now, rest, log) =
        send_turns-numbered k (send_benchmark v n d).0 (send_benchmark v n d).1 w
          (ground (arith, state)) (omega (arith, it)) wqes in
      rw (turns-busy (send_benchmark v) (suc k) n d busy) (
        none_now,
        rest,
        log
            ∙ ap (λ (i : ℕ). numbered i (suc k) (l.sent (send_benchmark v n d).1)) it
            ∙ ap (numbered (n.iterations + 1) (suc k)) sent,
      )
