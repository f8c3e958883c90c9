-- ===== src/Proxy/Examples.antt =====
-- The handler of csrc/proxy.cc with two channels queued, and the theorems applied to it.
use flash_reduce_dev.Common.{
  ◌<◌, ◌≡◌, refl, true, false, ◌||◌, List, [], ◌∷◌, ◌==◌, if◌then◌else◌, count, arith,
}
use flash_reduce_dev.Proxy.State.{
  Ptr, null, ProxyArgs, ProxyOpState, op_none, op_ready, zeroed, Proxy, Returns,
}
use flash_reduce_dev.Proxy.Channels.{Chan, chan}
use flash_reduce_dev.Proxy.Invariant.{peer_of, IsRing}
use flash_reduce_dev.Proxy.Thread.{advancing, Thread, initial}
use flash_reduce_dev.Proxy.Control.{proxy_create, release_pools}
use flash_reduce_dev.Proxy.Lifecycle.{in_pools, release_pools-live}
use flash_reduce_dev.Proxy.Soundness.{
  Reachable, created, Sound, perform-IsSound, Reachable-Sound, Reachable-Returns,
}
use flash_reduce_dev.Proxy.Append.{IsReady, append_ring, append-IsRing, Appended}
use flash_reduce_dev.Proxy.Advance.{Advanced, advance_ring, advance_free, next_done, advance-IsRing}
use flash_reduce_dev.Proxy.System.{allocate, append, perform, IsSound, IsSoundAfter}
use flash_reduce_dev.Proxy.Queue.{allocate_args}
use flash_reduce_dev.Proxy.Allocate.{Allocated, rest_of_pool, allocate_args-Allocated}

-- Entry 100 with peer 101 behind it, in the channel at 900; the finished entry 200, in the channel
-- at 901; 300 is free, 400 is held by a client.
abbrev pub entry : (k next peer : Ptr) → ProxyOpState → ProxyArgs
entry k next peer st = record zeroed { state = st; proxy_tail = k; next = next; next_peer = peer }

abbrev pub example_node : Ptr → ProxyArgs
example_node a =
    if a == 100
    then entry 900 200 101 op_ready
    else if a == 101
    then entry 900 0 0 op_ready
    else if a == 200
    then entry 901 100 0 op_none
    else if a == 400
    then entry 900 0 0 op_ready
    else zeroed

abbrev pub busy : Proxy
busy = record {
  node = example_node;
  live = λ a. a == 100 || a == 101 || a == 200 || a == 300 || a == 400;
  tail = λ k. if k == 900 then 101 else if k == 901 then 200 else 0;
  ops = 100;
  pool = 300;
  pools = 300 ∷ [];
  thread = true;
  stop = false;
  abort_flag = false;
}

abbrev pub queued : List Chan
queued = chan 900 100 (101 ∷ []) ∷ chan 901 200 [] ∷ []

pub busy-IsRing : IsRing busy queued (300 ∷ [])
busy-IsRing = record {
  front = ground arith;
  ring = (refl, (refl, tt));
  chans = (
    record {
      queued = (refl, (refl, tt));
      tail = refl;
      owned = λ a h. ground arith;
      cell = λ e. absurd (omega arith);
    },
    (
      record {
        queued = (refl, tt);
        tail = refl;
        owned = λ a h. ground arith;
        cell = λ e. absurd (omega arith);
      },
      tt,
    ),
  );
  one_cell = λ k. ground arith;
  quiet = λ k h. ground arith;
  pooled = (refl, tt);
  pool_head = refl;
  once = λ a. ground arith;
  alive = λ a h. ground arith;
}

abbrev on_first : Thread
on_first = record initial { phase = advancing; op = 100 }

held-IsReady : IsReady busy queued (300 ∷ []) 400
held-IsReady = record {
  alive = refl;
  set = λ e. absurd (omega arith);
  out = refl;
  alone = refl;
  channel = λ e. absurd (omega arith);
}

append-IsRing_example : Appended busy 400 (300 ∷ []) queued (append_ring 900 400 100 queued)
append-IsRing_example = append-IsRing busy 400 (300 ∷ []) queued busy-IsRing held-IsReady

advance-IsRing_example :
    Advanced busy on_first
      (advance_ring (next_done busy queued) queued)
      (advance_free (next_done busy queued) queued (300 ∷ []))
advance-IsRing_example =
    advance-IsRing busy on_first (chan 900 100 (101 ∷ [])) (chan 901 200 [] ∷ []) (300 ∷ [])
      busy-IsRing refl

allocate_args-Allocated_example :
    Returns (Allocated busy 300 queued (rest_of_pool 500 (300 ∷ []))) (allocate_args 500 busy)
allocate_args-Allocated_example =
    allocate_args-Allocated busy 500 queued (300 ∷ []) (λ e. absurd (omega arith))
      (λ x h. ground (arith, h)) busy-IsRing

peerless : (x : Ptr) → 0 < count x (400 ∷ []) → peer_of busy x ≡ null
peerless x h = ground arith

busy-IsSound : IsSound busy on_first queued (300 ∷ []) (400 ∷ [])
busy-IsSound = record {
  ring = busy-IsRing;
  op_at = ground arith;
  one_owner = λ x. ground arith;
  ready = λ x h. (ground arith, ground arith, peerless x h);
}

perform-IsSound_example :
    Returns
      (IsSoundAfter queued (300 ∷ []) (400 ∷ []))
      (perform (append 400) on_first (400 ∷ []) busy)
perform-IsSound_example =
    perform-IsSound (append 400) busy on_first queued (300 ∷ []) (400 ∷ []) busy-IsSound
      (ground arith, λ e. absurd (omega arith))

-- A handler before `ProxyCreate`, in zeroed memory.
abbrev pub new_handler : Proxy
new_handler = record {
  node = λ a. zeroed;
  live = λ a. false;
  tail = λ k. 0;
  ops = 0;
  pool = 0;
  pools = [];
  thread = false;
  stop = false;
  abort_flag = false;
}

abbrev pub handler : Proxy
handler = (proxy_create new_handler initial).0

abbrev pub handler_thread : Thread
handler_thread = (proxy_create new_handler initial).1

Reachable-Sound_example : Sound handler handler_thread []
Reachable-Sound_example =
    Reachable-Sound handler handler_thread [] (created new_handler refl refl λ k. refl)

Reachable-Returns_example :
    Returns (λ p s'. Reachable s' p.0 p.1) (perform (allocate 500) handler_thread [] handler)
unfolding proxy_create
Reachable-Returns_example =
    Reachable-Returns (allocate 500) handler handler_thread []
      (created new_handler refl refl λ k. refl) (λ e. absurd (omega arith), λ x h. refl)

release_pools-live_example :
    ((release_pools busy).live 300 ≡ (if in_pools (300 ∷ []) 300 then false else busy.live 300))
    × ((release_pools busy).pools ≡ [])
release_pools-live_example = release_pools-live busy 300
