-- ===== src/Proxy/System.antt =====
-- The proxy thread and its clients: one step of either, at the grain of the mutex.
use flash_reduce_dev.Common.{
  ℕ, ◌+◌, ◌<◌, ◌≤◌, ◌≡◌, ◌≢◌, ◌⊎◌, true, false, List, [], ◌∷◌, ◌==◌, if◌then◌else◌, count,
}
use flash_reduce_dev.Proxy.State.{Ptr, null, ProxyArgs, Proxy, Cmd, ok, pure, ◌>>=◌, ◌>>◌, store}
use flash_reduce_dev.Proxy.Channels.{Chan, heads, members}
use flash_reduce_dev.Proxy.Invariant.{peer_of, cell_of, IsRing}
use flash_reduce_dev.Proxy.Queue.{in_block, allocate_args, proxy_args_append}
use flash_reduce_dev.Proxy.Thread.{Phase, Thread, poll, work, advance}
use flash_reduce_dev.Proxy.Control.{proxy_start, request_stop}

-- The same place in ring, pool and channel.
abbrev pub SameLinks : ProxyArgs → ProxyArgs → Type 0
SameLinks n m = (m.next ≡ n.next) × (m.next_peer ≡ n.next_peer) × (m.proxy_tail ≡ n.proxy_tail)

-- `fill a n` is the client's set-up of an entry that it holds. A turn of the thread has the
-- functions that `progress` pointers lead to, which see devices and so differ from turn to turn.
pub data Event : Type 0 where
  allocate : (fresh : Ptr) → Event
  fill : (a : Ptr) → (n : ProxyArgs) → Event
  append : (a : Ptr) → Event
  start stop_request : Event
  turn : (progress : ℕ → ProxyArgs → ProxyArgs) → Event

-- The list without the first occurrence.
abbrev pub remove : Ptr → List Ptr → List Ptr
remove a [] = []
remove a (x ∷ xs) = if x == a then xs else x ∷ remove a xs

-- The thread's next step; asleep and returned it takes none.
abbrev pub thread_turn : (ℕ → ProxyArgs → ProxyArgs) → Phase → Thread → Cmd Thread
thread_turn progress Phase.polling t = λ s. ok (poll s t) s
thread_turn progress Phase.waiting t = pure t
thread_turn progress Phase.working t = work progress t
thread_turn progress Phase.advancing t = advance t
thread_turn progress Phase.returned t = pure t

-- `held` lists the entries that clients have allocated and not yet appended.
abbrev pub perform : Event → Thread → (held : List Ptr) → Cmd (Thread × List Ptr)
perform (allocate fresh) t held = do a ← allocate_args fresh; pure (t, a ∷ held)
perform (fill a n) t held = do store a n; pure (t, held)
perform (append a) t held = do proxy_args_append a; pure (t, remove a held)
perform start t held = λ s. let (s', t') = proxy_start s t in ok (t', held) s'
perform stop_request t held = λ s. let (s', t') = request_stop s t in ok (t', held) s'
perform (turn progress) t held = do t' ← thread_turn progress t.phase t; pure (t', held)

-- What the code relies on: `calloc` gives a new block, a client writes and appends only what it
-- holds, with no peer set and with a channel, and a progress function leaves the links alone.
abbrev pub IsAllowed : Event → Proxy → (held : List Ptr) → Type 0
IsAllowed (allocate fresh) s held =
    (fresh ≢ null) × ((x : Ptr) → in_block fresh x ≡ true → s.live x ≡ false)
IsAllowed (fill a n) s held = (0 < count a held) × (n.next_peer ≡ null)
IsAllowed (append a) s held = (0 < count a held) × (cell_of s a ≢ null)
IsAllowed start s held = Unit
IsAllowed stop_request s held = Unit
IsAllowed (turn progress) s held = (f : ℕ) (n : ProxyArgs) → SameLinks n (progress f n)

-- Where the thread's `op` may point.
abbrev pub OpAt : Phase → Ptr → List Chan → Type 0
OpAt Phase.polling p r = (p ≡ null) ⊎ (0 < count p (heads r))
OpAt Phase.waiting p r = (p ≡ null) ⊎ (0 < count p (heads r))
OpAt Phase.working p r = 0 < count p (heads r)
OpAt Phase.advancing p r = 0 < count p (heads r)
OpAt Phase.returned p r = Unit

-- How often an entry is queued, free or held.
abbrev pub owners : Ptr → List Chan → (free held : List Ptr) → ℕ
owners x r free held = count x held + (count x (members r) + count x free)

-- The ring is well-formed, the thread stands on one of its operations, no entry has two owners, and
-- what a client holds is allocated and alone.
pub record IsSound (s : Proxy) (t : Thread) (r : List Chan) (free held : List Ptr) : Type 0 where
  pub ring : IsRing s r free
  pub op_at : OpAt t.phase t.op r
  pub one_owner : (x : Ptr) → owners x r free held ≤ 1
  pub ready : (x : Ptr) → 0 < count x held → (s.live x ≡ true) × (x ≢ null) × (peer_of s x ≡ null)

-- Sound, for some ring and pool, with all entries that were owned before.
pub record IsSoundAfter (r : List Chan) (free held : List Ptr) (p : Thread × List Ptr) (s : Proxy)
    : Type 0 where
  pub ring_after : List Chan
  pub free_after : List Ptr
  pub sound : IsSound s p.0 ring_after free_after p.1
  pub none_lost : (x : Ptr) → owners x r free held ≤ owners x ring_after free_after p.1
