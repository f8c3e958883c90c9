-- ===== src/Proxy/Soundness/Loop.antt =====
-- A loop of csrc/proxy.cc that waits while the thread takes its turns.
use flash_reduce_dev.Common.{
  ℕ, zero, suc, ◌+◌, ◌*◌, ◌<◌, ◌≤◌, ◌≡◌, ◌≢◌, ◌∙◌, refl, sym, ap, subst, inl, inr, Bool, true,
  false, List, [], ◌∷◌, if◌then◌else◌, count, length, arith, eq→==, ne→==,
}
use flash_reduce_dev.Proxy.State.{
  Ptr, null, ProxyArgs, Proxy, Cmd, ok, and_then, pure, get, ◌>>=◌, Returns, Returns-then,
}
use flash_reduce_dev.Proxy.Chain.{first}
use flash_reduce_dev.Proxy.Channels.{Chan, heads, members, count-heads-le}
use flash_reduce_dev.Proxy.Invariant.{IsRing}
use flash_reduce_dev.Proxy.Thread.{Phase, polling, working, advancing, Thread, poll, work, advance}
use flash_reduce_dev.Proxy.Flags.{flags, work-IsSteady, advance-IsSteady, Returns-flags}
use flash_reduce_dev.Proxy.System.{SameLinks, thread_turn, OpAt}
use flash_reduce_dev.Proxy.Soundness.Round.{work-Worked, advance-Rounded, is_set}
use flash_reduce_dev.Proxy.Soundness.Turn.{turn_to}
use flash_reduce_dev.Proxy.Soundness.Pace.{Paces, AreGood, pace_at}
use flash_reduce_dev.Proxy.Soundness.Weight.{cost, calls, weight-calls, weight, weight_pos}

-- The thread's turns until `over` holds, `k` of them at most. `progress k` is what the progress
-- functions do in the turn after which `k` are left.
unfoldable pub run_until :
    (progress : ℕ → ℕ → ProxyArgs → ProxyArgs) (over : Proxy → Thread → Bool)
    → ℕ
    → Thread
    → Cmd Thread
run_until progress over zero t = pure t
run_until progress over (suc k) t = do
  s ← get
  if over s t
      then pure t
      else (do t' ← thread_turn (progress k) t.phase t; run_until progress over k t')

abbrev pub is_returned : Phase → Bool
is_returned Phase.polling = false
is_returned Phase.waiting = false
is_returned Phase.working = false
is_returned Phase.advancing = false
is_returned Phase.returned = true

module _ (progress : ℕ → ℕ → ProxyArgs → ProxyArgs) (over : Proxy → Thread → Bool) where
  pub run_until-next :
      (k : ℕ) (t : Thread) (s : Proxy) (p : Phase)
      → over s t ≡ false
      → t.phase ≡ p
      → run_until progress over (suc k) t s
        ≡ and_then (thread_turn (progress k) p t s) (run_until progress over k)
  unfolding run_until
  run_until-next k t s p more at = rw (more, at) refl

  pub run_until-over :
      (k : ℕ) (t : Thread) (s : Proxy) → over s t ≡ true → run_until progress over k t s ≡ ok t s
  unfolding run_until
  run_until-over zero t s h = refl
  run_until-over (suc k) t s h = rw h refl

pub ops_set :
    (s : Proxy) (c : Chan) (cs : List Chan) (free : List Ptr)
    → IsRing s (c ∷ cs) free
    → s.ops ≢ null
ops_set s c cs free v = (v.alive s.ops (omega (arith, v.front, count-heads-le s.ops (c ∷ cs)))).1

poll-ops :
    (s : Proxy) (t : Thread)
    → s.abort_flag ≡ false
    → t.op ≡ null
    → s.ops ≢ null
    → poll s t ≡ poll s (record t { op = s.ops })
unfolding poll
poll-ops s t run off set = rw (run, eq→== t.op null off, ne→== s.ops null set) refl

poll-working :
    (s : Proxy) (t : Thread)
    → s.abort_flag ≡ false
    → t.op ≢ null
    → poll s t ≡ (record t { phase = working })
unfolding poll
poll-working s t run set = rw (run, ne→== t.op null set) refl

-- A loop that goes on as long as something is queued reaches `P` on a ring of any size, when it
-- does so once nothing is queued, with `extra` turns left.
module _ (progress : ℕ → ℕ → ProxyArgs → ProxyArgs)
    (keeps : (k f : ℕ) (n : ProxyArgs) → SameLinks n (progress k f n)) (p : Paces progress)
    (over : Proxy → Thread → Bool)
    (busy : (s : Proxy) (t : Thread) (c : Chan) (cs : List Chan) (free : List Ptr)
      → IsRing s (c ∷ cs) free
      → is_returned t.phase ≡ false
      → over s t ≡ false)
    (fl : Bool × Bool × Bool × List Ptr) (runs : fl.1 ≡ false) (total : Ptr → ℕ)
    (P : Thread → Proxy → Type 0) (extra : ℕ)
    (finish : (n : ℕ) (s : Proxy) (t : Thread) (pool : List Ptr)
      → IsRing s [] pool
      → t.op ≡ null
      → t.phase ≡ polling
      → flags s ≡ fl
      → ((x : Ptr) → count x pool ≡ total x)
      → AreGood p s.node
      → extra ≤ n
      → Returns P (run_until progress over n t s)) where
  pub drain_until :
      (n : ℕ) (s : Proxy) (t : Thread) (r : List Chan) (free : List Ptr)
      → IsRing s r free
      → t.op ≡ first null (heads r)
      → t.phase ≡ polling
      → flags s ≡ fl
      → ((x : Ptr) → count x (members r) + count x free ≡ total x)
      → AreGood p s.node
      → 3 * weight p.left s.node r + extra ≤ n
      → Returns P (run_until progress over n t s)
  drain_until n s t [] free v at phase e all good le =
      finish n s t free v at phase e (λ x. omega (arith, all x)) good (omega (arith, le))
  drain_until zero s t (c ∷ cs) free v at phase e all good le =
      absurd (omega (arith, le, weight_pos p.left s.node c cs))
  drain_until (suc zero) s t (c ∷ cs) free v at phase e all good le =
      absurd (omega (arith, le, weight_pos p.left s.node c cs))
  drain_until (suc (suc zero)) s t (c ∷ cs) free v at phase e all good le =
      absurd (omega (arith, le, weight_pos p.left s.node c cs))
  drain_until (suc (suc (suc n))) s t (c ∷ cs) free v at phase e all good le =
      rw
        (
          run_until-next progress over (suc (suc n)) t s polling
              (busy s t c cs free v (ap is_returned phase)) phase,
          poll-working s t (ap (λ (f : Bool × Bool × Bool × List Ptr). f.1) e ∙ runs)
              (λ h. is_set s c cs free v (sym at ∙ h)),
          run_until-next progress over (suc n) (record t { phase = working }) s working
              (busy s (record t { phase = working }) c cs free v refl) refl,
        )
        (Returns-then _ _ (work (progress (suc n)) (record t { phase = working }) s)
          (run_until progress over (suc n))
          (Returns-flags _ s _
            (work-Worked (progress (suc n)) (keeps (suc n)) (pace_at p (suc n)) s
              (record t { phase = working }) c cs free v at good)
            (work-IsSteady (progress (suc n)) (record t { phase = working }) s))
          λ t' s' (w, same).
            rw
              (run_until-next progress over n t' s' advancing
                (busy s' t' c cs free w.ring (ap is_returned w.phase)) w.phase)
              (Returns-then _ _ (advance t' s') (run_until progress over n)
                (Returns-flags _ s' _
                  (advance-Rounded (progress (suc n)) (keeps (suc n)) (pace_at p (suc n)) s s' t' c
                    cs free w)
                  (advance-IsSteady t' s'))
                λ t'' s'' (w', same').
                  drain_until n s'' t'' w'.ring_after w'.free_after w'.ring w'.at w'.phase
                    (same' ∙ same ∙ e) (λ x. w'.kept x ∙ all x) w'.good
                    (omega (arith, le, w'.lighter))))

  from_op :
      (n : ℕ) (s : Proxy) (t : Thread) (r : List Chan) (free : List Ptr)
      → IsRing s r free
      → 0 < count t.op (heads r)
      → t.phase ≡ polling
      → flags s ≡ fl
      → ((x : Ptr) → count x (members r) + count x free ≡ total x)
      → AreGood p s.node
      → 3 * length (members r) + 6 * calls p.left s.node (members r) + 3 + extra ≤ n
      → Returns P (run_until progress over n t s)
  from_op n s t r free v on phase e all good le =
      let w = turn_to s r free t.op on v in
      drain_until n s t (w.head_chan ∷ w.others) free w.ring w.at phase e
        (λ x. omega (arith, all x, w.same x)) good
        (omega (
          arith,
          le,
          w.size,
          w.totals (λ x. cost p.left (s.node x)),
          weight-calls p.left s.node (w.head_chan ∷ w.others),
        ))

  -- The same from any operation of the ring, and from no operation at hand.
  pub drain_from :
      (n : ℕ) (s : Proxy) (t : Thread) (r : List Chan) (free : List Ptr)
      → IsRing s r free
      → OpAt Phase.polling t.op r
      → t.phase ≡ polling
      → flags s ≡ fl
      → ((x : Ptr) → count x (members r) + count x free ≡ total x)
      → AreGood p s.node
      → 3 * length (members r) + 6 * calls p.left s.node (members r) + 3 + extra ≤ n
      → Returns P (run_until progress over n t s)
  drain_from n s t r free v (inr on) phase e all good le =
      from_op n s t r free v on phase e all good le
  drain_from n s t [] free v (inl off) phase e all good le =
      finish n s t free v off phase e (λ x. omega (arith, all x)) good (omega (arith, le))
  drain_from zero s t (c ∷ cs) free v (inl off) phase e all good le = absurd (omega (arith, le))
  drain_from (suc n) s t (c ∷ cs) free v (inl off) phase e all good le =
      subst (Returns P)
        (sym (
          run_until-next progress over n t s polling (busy s t c cs free v (ap is_returned phase))
            phase
          ∙ ap (λ (t' : Thread). run_until progress over n t' s)
              (poll-ops s t (ap (λ (f : Bool × Bool × Bool × List Ptr). f.1) e ∙ runs) off
                (ops_set s c cs free v))
          ∙ sym (
              run_until-next progress over n (record t { op = s.ops }) s polling
                (busy s (record t { op = s.ops }) c cs free v (ap is_returned phase)) phase)))
        (from_op (suc n) s (record t { op = s.ops }) (c ∷ cs) free v v.front phase e all good le)
