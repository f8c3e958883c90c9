-- ===== src/Benchmark/Ending.antt =====
-- The end of `main` of examples/proxy_send_recv.cc, for the proxy.
use flash_reduce_dev.Common.{ℕ, ◌≡◌, ◌⊎◌, false, List, [], Bool}
use flash_reduce_dev.Proxy.State.{Ptr, null, Proxy, ProxyArgs, Cmd, ok, ◌>>=◌}
use flash_reduce_dev.Proxy.Invariant.{IsRing}
use flash_reduce_dev.Proxy.Thread.{polling, waiting, Thread}
use flash_reduce_dev.Proxy.Control.{proxy_start}
use flash_reduce_dev.Proxy.Flags.{flags}
use flash_reduce_dev.Proxy.System.{SameLinks}
use flash_reduce_dev.Proxy.Soundness.Pace.{Paces, AreGood}
use flash_reduce_dev.Proxy.Soundness.Loop.{run_until}
use flash_reduce_dev.Proxy.Soundness.Waiting.{leave_section, wait_all_finished}
use flash_reduce_dev.Proxy.Soundness.Teardown.{proxy_destroy}

-- `ProxyStart`, `ProxyWaitAllOpFinished` and `ProxyDestroy`, with `waits` and `joins` turns of the
-- thread at most in the two waits, and up to `rests` turns of it in between, while `main` releases
-- the verbs objects, which is in Benchmark/Objects.antt. A section of the thread that the first wait
-- ends in is over when `ProxyDestroy` has the mutex.
unfoldable pub end_main :
    (progress : ℕ → ℕ → ProxyArgs → ProxyArgs) (looks : ℕ → Bool)
    → (waits rests joins : ℕ) → Thread
    → Cmd Thread
end_main progress looks waits rests joins t = do
  t ← (λ s. ok (proxy_start s t).1 (proxy_start s t).0)
  w ← wait_all_finished progress looks waits t
  t ← leave_section w
  t ← run_until progress (λ s t. false) rests t
  proxy_destroy progress joins t

-- Polls or sleeps.
abbrev pub IsUp : Thread → Type 0
IsUp t = (t.phase ≡ polling) ⊎ (t.phase ≡ waiting)

module _ (progress : ℕ → ℕ → ProxyArgs → ProxyArgs)
    (keeps : (k f : ℕ) (n : ProxyArgs) → SameLinks n (progress k f n)) (p : Paces progress) where
  -- Nothing is queued, and the thread is up with no operation at hand.
  record Ready (s : Proxy) (t' : Thread) (s' : Proxy) : Type 0 where
    pool : List Ptr
    ring : IsRing s' [] pool
    at : t'.op ≡ null
    up : IsUp t'
    same : flags s' ≡ (false, s.abort_flag, s.thread, s.pools)
    good : AreGood p s'.node
