-- ===== src/Benchmark/Progress.antt =====
-- `send_benchmark` and `recv_benchmark` of examples/proxy_send_recv.cc, on an entry and the device.
use flash_reduce_dev.Common.{
  ℕ, zero, suc, ◌+◌, ℤ, pos, negsuc, ◌+ℤ◌, is_zero, is_positive, rounds, Bool, true, false, ◌&&◌,
  not, List, [], ◌≡◌, ap, ◌∷◌, ◌==◌, if◌then◌else◌, ltb,
}
use flash_reduce_dev.Proxy.State.{ProxyOpState, op_none, op_ready, op_progress, is_none, ProxyArgs}
use flash_reduce_dev.Benchmark.Device.{Device}

abbrev pub is_ready : ProxyOpState → Bool
is_ready op_none = false
is_ready op_ready = true
is_ready op_progress = false

abbrev pub is_progress : ProxyOpState → Bool
is_progress op_none = false
is_progress op_ready = false
is_progress op_progress = true

-- The last lines of `send_benchmark`.
abbrev send_end : ProxyArgs → ProxyArgs
send_end n = if n.iterations == 10 then record n { state = op_none; idle = false } else n

-- `args->endpoint.available_wqes += z`
abbrev add_wqes : ℤ → ProxyArgs → ProxyArgs
add_wqes z n = record n {
  endpoint = record n.endpoint { available_wqes = n.endpoint.available_wqes +ℤ z };
}

-- `args->endpoint.send_wr.wr_id = w`
abbrev set_send_id : ℕ → ProxyArgs → ProxyArgs
set_send_id w n = record n {
  endpoint = record n.endpoint { send_wr = record n.endpoint.send_wr { wr_id = w } };
}

-- `args->endpoint.recv_wr.wr_id = w`
abbrev pub set_recv_id : ℕ → ProxyArgs → ProxyArgs
set_recv_id w n = record n {
  endpoint = record n.endpoint { recv_wr = record n.endpoint.recv_wr { wr_id = w } };
}

-- The first lines of `recv_benchmark`: an entry that is set up is now under way.
abbrev pub recv_start : ProxyArgs → ProxyArgs
recv_start n =
    if is_ready n.state
    then record n { state = op_progress; first_completion = true; count = pos 0 }
    else n

module _ {D : Type 0} (v : Device D) where
  -- A round without free work queue entries polls and returns at once.
  send_step : ProxyArgs → D → ProxyArgs × D
  send_step n d =
      if is_zero n.endpoint.available_wqes
      then (let (d', num, wcs) = v.poll_cq d n.endpoint.cq 32 in (add_wqes num n, d'))
      else (
        send_end (add_wqes (negsuc 0) (set_send_id n.iterations n)),
        v.post_send d n.endpoint.qp n.iterations,
      )

  unfoldable pub send_benchmark : ProxyArgs → D → ProxyArgs × D
  unfolding send_step
  send_benchmark n d =
      let n = if is_ready n.state then record n { state = op_progress } else n in
      if is_progress n.state && ltb n.iterations 10
      then send_step (record n { idle = false; iterations = n.iterations + 1 }) d
      else (send_end n, d)

  -- The loop over `k`, with `left` rounds left, that posts each completed receive again.
  unfoldable pub repost : (left : ℕ) → (wcs : List ℕ) → ProxyArgs → D → ProxyArgs × D
  repost zero wcs n d = (n, d)
  repost (suc left) [] n d = (n, d)
  repost (suc left) (w ∷ wcs) n d =
      repost left wcs (set_recv_id w n) (v.post_recv d n.endpoint.qp w)

  -- The first completions start the clock, and are not counted.
  unfoldable pub start_clock : ProxyArgs → D → ProxyArgs × D
  start_clock n d =
      if is_positive n.count && n.first_completion
      then (let (d', tick) = v.get_cycles d in
          (record n { start_tick = tick; first_completion = false; count = pos 0 }, d'))
      else (n, d)

  -- A round of the receiver that is in progress.
  unfoldable pub recv_step : ProxyArgs → D → ProxyArgs × D
  recv_step n d =
      let n = record n { idle = false } in
      let (d', num, wcs) = v.poll_cq d n.endpoint.cq 32 in
      let n = record n {
        iterations = if not (is_zero num) then n.iterations + 1 else n.iterations;
        count = n.count +ℤ num;
      } in
      let (n', d'') = repost (rounds num) wcs n d' in start_clock n' d''

  unfoldable pub recv_end : ProxyArgs → D → ProxyArgs × D
  recv_end n d =
      if n.iterations == 10
      then (let (d', tick) = v.get_cycles d in
          (record n { state = op_none; idle = false; end_tick = tick }, d'))
      else (n, d)

  -- The round, as long as there are rounds left.
  unfoldable pub recv_round : ProxyArgs → D → ProxyArgs × D
  recv_round n d = if is_progress n.state && ltb n.iterations 10 then recv_step n d else (n, d)

  unfoldable pub recv_benchmark : ProxyArgs → D → ProxyArgs × D
  recv_benchmark n d = let (n', d') = recv_round (recv_start n) d in recv_end n' d'

-- Turns of the proxy thread with the entry: a finished entry's function is not called.
unfoldable pub turns :
    {D : Type 0} → (progress : ProxyArgs → D → ProxyArgs × D) → ℕ → ProxyArgs → D → ProxyArgs × D
turns progress zero n d = (n, d)
turns progress (suc k) n d =
    let (n', d') = if is_none n.state then (n, d) else progress n d in turns progress k n' d'

module _ {D : Type 0} (progress : ProxyArgs → D → ProxyArgs × D) (k : ℕ) (n : ProxyArgs)
    (d : D) where
  pub turns-none : is_none n.state ≡ true → turns progress (suc k) n d ≡ turns progress k n d
  unfolding turns
  turns-none h =
      ap (λ (b : Bool). let (n', d') = if b then (n, d) else progress n d in turns progress k n' d')
        h

  pub turns-busy :
      is_none n.state ≡ false
      → turns progress (suc k) n d ≡ turns progress k (progress n d).0 (progress n d).1
  unfolding turns
  turns-busy h =
      ap (λ (b : Bool). let (n', d') = if b then (n, d) else progress n d in turns progress k n' d')
        h
