-- ===== src/Proxy/Thread.antt =====
-- `persistentThread` of csrc/proxy.cc, cut where it takes or gives up the mutex: other threads may
-- append entries between two of these steps.
use flash_reduce_dev.Common.{ℕ, ◌+◌, Bool, true, false, ◌&&◌, not, ◌==◌, if◌then◌else◌}
use flash_reduce_dev.Proxy.State.{
  Ptr, null, is_none, ProxyArgs, Proxy, Cmd, pure, ◌>>=◌, ◌>>◌, get, load, store, set_next,
  set_tail, set_ops, set_pool,
}

-- Where the thread stands: at the head of the `do` loop, in `pthread_cond_wait`, before the call of
-- `progress`, before the second locked section, or returned.
pub data Phase : Type 0 where
  polling waiting working advancing returned : Phase

-- The locals of `persistentThread`.
pub record Thread : Type 0 where
  pub phase : Phase
  pub op : Ptr
  pub idle : Bool
  pub idle_spin : ℕ

abbrev pub initial : Thread
initial = record { phase = polling; op = null; idle = true; idle_spin = 0 }

-- One round of the inner `do` loop.
unfoldable pub poll : Proxy → Thread → Thread
poll s t =
    if s.abort_flag
    then record t { phase = returned }
    else if not (t.op == null)
    then record t { phase = working }
    else if not (s.ops == null)
    then record t { op = s.ops; phase = working }
    else if s.stop
    then record t { phase = returned }
    else record t { phase = waiting }

-- `op->idle = 0`, the progress call, and `idle &= op->idle`. `progress f n` is what the function at
-- `f` leaves in the entry that holds `n`; a call through a null pointer is not told apart.
unfoldable pub work : (progress : ℕ → ProxyArgs → ProxyArgs) → Thread → Cmd Thread
work progress t = do
  n ← load t.op
  store t.op (record n { idle = false })
  m ← load t.op
  store t.op (if is_none m.state then m else progress m.progress m)
  m ← load t.op
  pure (record t { idle = t.idle && m.idle; phase = advancing })

-- The channel has another entry, which takes the place of `free`.
unlink_peer : (op free : Ptr) → ProxyArgs → Cmd Ptr
unlink_peer op free n = do
  if not (op == free)
      then (do set_next n.next_peer n.next; set_next op n.next_peer)
      else set_next n.next_peer n.next_peer
  pure n.next_peer

-- The channel has no other entry.
unlink_last : (op free : Ptr) → ProxyArgs → Cmd Ptr
unlink_last op free n = do
  set_tail n.proxy_tail null
  if not (op == free) then (do m ← load free; set_next op m.next; pure m.next) else pure null

-- The finished operation `free`, which follows `op`, leaves the ring; the result is its successor.
unfoldable pub unlink : (op free : Ptr) → Cmd Ptr
unfolding unlink_peer unlink_last
unlink op free = do
  n ← load free
  if not (n.next_peer == null) then unlink_peer op free n else unlink_last op free n

-- `if (freeOp == handler->ops) handler->ops = next`, and the entry goes back to the pool.
unfoldable pub recycle : (free next : Ptr) → Cmd (Unit {0})
recycle free next = do
  s ← get
  if free == s.ops then set_ops next else pure tt
  set_next free s.pool
  set_pool free

-- The branch for a finished operation.
unfoldable pub retire : (op free : Ptr) → Cmd Ptr
retire op free = do q ← unlink op free; recycle free q; pure q

-- The end of the locked section, with `op = next`.
unfoldable pub spin : Proxy → Ptr → Thread → Thread
spin s next t =
    let spun = if t.idle then t.idle_spin else 0 in
    if next == s.ops
    then record {
      phase = polling;
      op = next;
      idle = true;
      idle_spin = if t.idle then (if spun + 1 == 10 then 0 else spun + 1) else spun;
    }
    else record t { phase = polling; op = next; idle_spin = spun }

-- The second locked section.
unfoldable pub advance : Thread → Cmd Thread
advance t = do
  o ← load t.op
  n ← load o.next
  next ← (if is_none n.state then retire t.op o.next else pure o.next)
  s ← get
  pure (spin s next t)
