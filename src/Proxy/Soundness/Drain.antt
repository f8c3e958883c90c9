-- ===== src/Proxy/Soundness/Drain.antt =====
-- Rounds of csrc/proxy.cc's thread on a ring of any size, with progress functions that finish after
-- some calls.
use flash_reduce_dev.Common.{
  ℕ, zero, suc, ◌+◌, ◌*◌, ◌≤◌, ◌≡◌, ◌∙◌, sym, true, List, [], ◌∷◌, ◌==◌, if◌then◌else◌, count,
  length, arith, eq→==, ne→==,
}
use flash_reduce_dev.Proxy.State.{
  Ptr, null, ProxyArgs, Proxy, Cmd, pure, ◌>>=◌, Returns, Returns-then, Returns-weaken,
}
use flash_reduce_dev.Proxy.Chain.{first}
use flash_reduce_dev.Proxy.Channels.{Chan, heads, members}
use flash_reduce_dev.Proxy.Invariant.{IsRing}
use flash_reduce_dev.Proxy.Thread.{Thread, work, advance}
use flash_reduce_dev.Proxy.Control.{all_finished}
use flash_reduce_dev.Proxy.System.{SameLinks}
use flash_reduce_dev.Proxy.Soundness.Finish.{work_round}
use flash_reduce_dev.Proxy.Soundness.Pace.{Pace, AllGood}
use flash_reduce_dev.Proxy.Soundness.Weight.{calls, weight-calls, weight, weight_pos}
use flash_reduce_dev.Proxy.Soundness.Round.{work-Worked, Rounded, advance-Rounded, is_set}

-- Up to `k` rounds of a thread with an operation at hand, which `poll` takes up again as long as
-- the thread is not aborted.
unfoldable pub rounds_of : (progress : ℕ → ProxyArgs → ProxyArgs) → ℕ → Thread → Cmd Thread
rounds_of progress zero t = pure t
rounds_of progress (suc k) t =
    if t.op == null then pure t else (do t' ← work_round progress t; rounds_of progress k t')

-- Nothing is queued, and the entries of the ring have gone back to the pool.
pub record Drained (s' : Proxy) (r : List Chan) (free : List Ptr) : Type 0 where
  pub pool : List Ptr
  pub ring : IsRing s' [] pool
  pub finished : all_finished s' ≡ true
  pub returned : (x : Ptr) → count x pool ≡ count x (members r) + count x free

module _ (progress : ℕ → ProxyArgs → ProxyArgs)
    (keeps : (f : ℕ) (n : ProxyArgs) → SameLinks n (progress f n)) (p : Pace progress) where
  work_round-Rounded :
      (s : Proxy) (t : Thread) (c : Chan) (cs : List Chan) (free : List Ptr)
      → IsRing s (c ∷ cs) free
      → t.op ≡ c.head
      → AllGood p s.node
      → Returns (Rounded progress keeps p s (c ∷ cs) free) (work_round progress t s)
  work_round-Rounded s t c cs free v at good =
      Returns-then _ _ (work progress t s) advance
        (work-Worked progress keeps p s t c cs free v at good)
        λ t' s' w. advance-Rounded progress keeps p s s' t' c cs free w

  drained : (s : Proxy) (free : List Ptr) → IsRing s [] free → Drained s [] free
  unfolding all_finished
  drained s free v = record {
    pool = free;
    ring = v;
    finished = eq→== s.ops null v.front;
    returned = λ x. omega arith;
  }

  drain :
      (k : ℕ) (s : Proxy) (t : Thread) (r : List Chan) (free : List Ptr)
      → IsRing s r free
      → t.op ≡ first null (heads r)
      → AllGood p s.node
      → weight p.left s.node r ≤ k
      → Returns (λ t' s'. Drained s' r free) (rounds_of progress k t s)
  unfolding rounds_of
  drain zero s t [] free v at good le = drained s free v
  drain (suc k) s t [] free v at good le = rw (eq→== t.op null at) (drained s free v)
  drain zero s t (c ∷ cs) free v at good le =
      absurd (omega (arith, le, weight_pos p.left s.node c cs))
  drain (suc k) s t (c ∷ cs) free v at good le =
      rw (ne→== t.op null (λ e. is_set s c cs free v (sym at ∙ e))) (
        Returns-then _ _ (work_round progress t s) (rounds_of progress k)
          (work_round-Rounded s t c cs free v at good)
          λ t' s' w.
            Returns-weaken _ _ (rounds_of progress k t' s')
              (drain k s' t' w.ring_after w.free_after w.ring w.at w.good
                (omega (arith, w.lighter)))
              λ t'' s'' d. record {
                pool = d.pool;
                ring = d.ring;
                finished = d.finished;
                returned = λ x. omega (arith, d.returned x, w.kept x);
              })

  -- On a well-formed ring of any size, with channels of any length, the thread comes to an end of
  -- the work when the progress functions keep the links and finish every unfinished entry after
  -- some calls: after a round for each queued entry, two for each call that it may take, and one,
  -- at most, nothing is queued, `ProxyWaitAllOpFinished` sees it, and each entry of the ring is
  -- back in the pool, once. No round meets a dangling pointer.
  pub rounds_of-Drained :
      (k : ℕ) (s : Proxy) (t : Thread) (r : List Chan) (free : List Ptr)
      → IsRing s r free
      → t.op ≡ first null (heads r)
      → AllGood p s.node
      → length (members r) + 2 * calls p.left s.node (members r) + 1 ≤ k
      → Returns (λ t' s'. Drained s' r free) (rounds_of progress k t s)
  rounds_of-Drained k s t r free v at good le =
      drain k s t r free v at good (omega (arith, le, weight-calls p.left s.node r))
