-- ===== src/Proxy/Soundness/Teardown.antt =====
-- The two loops of csrc/proxy.cc that wait for its thread: `ProxyWaitAllOpFinished`, and the join
-- of `ProxyDestroy`.
use flash_reduce_dev.Common.{
  ℕ, ◌+◌, ◌*◌, ◌≤◌, ◌≡◌, refl, Bool, true, false, List, [], if◌then◌else◌, count, length, arith,
  eq→==, ne→==,
}
use flash_reduce_dev.Proxy.State.{Ptr, null, ProxyArgs, Proxy, Cmd, ok, pure, get, ◌>>=◌, Returns}
use flash_reduce_dev.Proxy.Channels.{Chan, members}
use flash_reduce_dev.Proxy.Invariant.{IsRing}
use flash_reduce_dev.Proxy.Thread.{Phase, polling, returned, Thread}
use flash_reduce_dev.Proxy.Flags.{flags}
use flash_reduce_dev.Proxy.Control.{all_finished, request_stop, release_pools}
use flash_reduce_dev.Proxy.Lifecycle.{in_pools}
use flash_reduce_dev.Proxy.System.{SameLinks, OpAt}
use flash_reduce_dev.Proxy.Soundness.Drain.{Drained}
use flash_reduce_dev.Proxy.Soundness.Pace.{Paces, AreGood}
use flash_reduce_dev.Proxy.Soundness.Weight.{calls}
use flash_reduce_dev.Proxy.Soundness.Loop.{
  run_until, run_until-over, is_returned, ops_set, drain_from,
}
use flash_reduce_dev.Proxy.Soundness.Waiting.{
  leave_section, wait_all_finished, wait_all_finished-Returns,
}

-- `pthread_join`, for which the thread takes its turns.
unfoldable pub join : (progress : ℕ → ℕ → ProxyArgs → ProxyArgs) → ℕ → Thread → Cmd Thread
join progress = run_until progress λ s t. is_returned t.phase

-- The stop request, the join of a thread that there is, and the release of the pool.
unfoldable pub proxy_destroy : (progress : ℕ → ℕ → ProxyArgs → ProxyArgs) → ℕ → Thread → Cmd Thread
proxy_destroy progress k t = do
  s ← get
  t ← (λ s. ok (request_stop s t).1 (request_stop s t).0)
  t ← (if s.thread then join progress k t else pure t)
  λ s. ok t (release_pools s)

-- What `ProxyDestroy` leaves of the handler `s`.
pub record Destroyed (s : Proxy) (t' : Thread) (s' : Proxy) : Type 0 where
  pub phase : t'.phase ≡ returned
  pub finished : all_finished s' ≡ true
  pub pools : s'.pools ≡ []
  pub freed : (x : Ptr) → in_pools s.pools x ≡ true → s'.live x ≡ false

module _ (progress : ℕ → ℕ → ProxyArgs → ProxyArgs)
    (keeps : (k f : ℕ) (n : ProxyArgs) → SameLinks n (progress k f n)) (p : Paces progress) where
  -- What the wait leaves: the thread polls with no operation at hand.
  pub record Idle (s : Proxy) (r : List Chan) (free : List Ptr) (t' : Thread) (s' : Proxy)
      : Type 0 where
    pub drained : Drained s' r free
    pub at : t'.op ≡ null
    pub phase : t'.phase ≡ polling
    pub same : flags s' ≡ flags s
    pub good : AreGood p s'.node

  run_until-Idle :
      (k : ℕ) (s : Proxy) (t : Thread) (r : List Chan) (free : List Ptr)
      → IsRing s r free
      → OpAt Phase.polling t.op r
      → t.phase ≡ polling
      → s.abort_flag ≡ false
      → AreGood p s.node
      → 3 * length (members r) + 6 * calls p.left s.node (members r) + 3 ≤ k
      → Returns (Idle s r free) (run_until progress (λ s t. all_finished s) k t s)
  unfolding all_finished
  run_until-Idle k s t r free v at phase run good le =
      drain_from progress keeps p (λ s' t'. all_finished s')
        (λ s' t' c cs free' v' on. ne→== s'.ops null (ops_set s' c cs free' v')) (flags s) run
        (λ x. count x (members r) + count x free) (Idle s r free) 0
        (λ n s' t' pool v' off phase' same all fine more.
          rw
            (run_until-over progress (λ s'' t''. all_finished s'') n t' s'
              (eq→== s'.ops null v'.front))
            (record {
              drained = record {
                pool = pool;
                ring = v';
                finished = eq→== s'.ops null v'.front;
                returned = all;
              };
              at = off;
              phase = phase';
              same = same;
              good = fine;
            }))
        k s t r free v at phase refl (λ x. refl) good (omega (arith, le))

  -- The wait has seen that nothing is queued, and leaves the thread idle once it is out of its
  -- section.
  pub wait_all_finished-Idle :
      (looks : ℕ → Bool) (k : ℕ) (s : Proxy) (t : Thread) (r : List Chan) (free : List Ptr)
      → IsRing s r free
      → OpAt Phase.polling t.op r
      → t.phase ≡ polling
      → s.abort_flag ≡ false
      → AreGood p s.node
      → 3 * length (members r) + 6 * calls p.left s.node (members r) + 3 ≤ k
      → Returns
          (λ w s'. (all_finished s' ≡ true) × Returns (Idle s r free) (leave_section w s'))
          (wait_all_finished progress looks k t s)
  wait_all_finished-Idle looks k s t r free v at phase run good le =
      wait_all_finished-Returns progress looks (Idle s r free) (λ t' s' d. d.drained.finished) k t s
        (run_until-Idle k s t r free v at phase run good le)
