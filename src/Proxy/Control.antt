-- ===== src/Proxy/Control.antt =====
-- `ProxyCreate`, `ProxyStart`, `ProxyDestroy` and `ProxyWaitAllOpFinished` of csrc/proxy.cc.
use flash_reduce_dev.Common.{Bool, true, false, not, List, [], ◌∷◌, ◌==◌, if◌then◌else◌}
use flash_reduce_dev.Proxy.State.{Ptr, null, Proxy}
use flash_reduce_dev.Proxy.Queue.{in_block}
use flash_reduce_dev.Proxy.Thread.{Phase, polling, Thread, initial}

-- `pthread_cond_signal`: a waiting thread goes on; without one the signal is lost.
abbrev pub wake : Phase → Phase
wake Phase.polling = polling
wake Phase.waiting = polling
wake Phase.working = Phase.working
wake Phase.advancing = Phase.advancing
wake Phase.returned = Phase.returned

abbrev pub signal : Thread → Thread
signal t = record t { phase = wake t.phase }

-- Only a handler without a thread is set up, and the new thread starts at the top.
unfoldable pub proxy_create : Proxy → Thread → Proxy × Thread
proxy_create s t =
    if not s.thread then (record s { stop = false; ops = null; thread = true }, initial) else (s, t)

unfoldable pub proxy_start : Proxy → Thread → Proxy × Thread
proxy_start s t = if not (s.ops == null) then (record s { stop = false }, signal t) else (s, t)

-- The first locked section; the caller then joins the thread.
unfoldable pub request_stop : Proxy → Thread → Proxy × Thread
request_stop s t = (record s { stop = true }, signal t)

-- `free` of each block, newest first.
unfoldable pub free_pools : List Ptr → (Ptr → Bool) → Ptr → Bool
free_pools [] live a = live a
free_pools (b ∷ bs) live a = free_pools bs (λ p. if in_block b p then false else live p) a

-- The last locked section, after the join.
unfoldable pub release_pools : Proxy → Proxy
unfolding free_pools
release_pools s = record s { live = free_pools s.pools s.live; pools = [] }

-- The test of the loop in `ProxyWaitAllOpFinished`.
unfoldable pub all_finished : Proxy → Bool
all_finished s = s.ops == null
