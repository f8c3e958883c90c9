-- ===== src/Proxy/Soundness/Worker.antt =====
-- The thread's turns.
use flash_reduce_dev.Common.{
  ℕ, ◌+◌, ◌<◌, ◌≡◌, ◌≢◌, ◌⊎◌, ◌∙◌, refl, subst, sym, ap, inl, inr, Bool, true, false, List, [], ◌∷◌,
  ◌++◌, ◌==◌, if◌then◌else◌, count, arith, Bool-cases, ==→ne, eq→==, count-append, count_self,
}
use flash_reduce_dev.Proxy.State.{
  Ptr, null, is_none, ProxyArgs, Proxy, update, Returns, Returns-weaken,
}
use flash_reduce_dev.Proxy.Memory.{peer_field}
use flash_reduce_dev.Proxy.Chain.{first}
use flash_reduce_dev.Proxy.Channels.{Chan, jobs, heads, members, count-heads-le}
use flash_reduce_dev.Proxy.Invariant.{OpsIn, IsRing}
use flash_reduce_dev.Proxy.Rotate.{rotate, count-members-append}
use flash_reduce_dev.Proxy.Thread.{Phase, Thread, poll, work, advance}
use flash_reduce_dev.Proxy.Advance.{
  promote, drop_op, advance_ring, advance_free, next_done, advance-IsRing,
}
use flash_reduce_dev.Proxy.System.{SameLinks, thread_turn, OpAt, IsSound, IsSoundAfter}
use flash_reduce_dev.Proxy.Soundness.Links.{IsRing-links, update-SameLinks_twice}
use flash_reduce_dev.Proxy.Soundness.Turn.{turn_to, TurnedTo}

count-rotate : (x : Ptr) (r : List Chan) → count x (members (rotate r)) ≡ count x (members r)
unfolding rotate
count-rotate x [] = refl
count-rotate x (c ∷ cs) = omega (
  arith,
  count-members-append x cs (c ∷ []),
  count-append x (jobs c) (members cs),
  count-append x (jobs c) [],
)

count-promote :
    (x k : Ptr) (ps : List Ptr) (ds : List Chan)
    → count x (members (promote k ps ds)) ≡ count x ps + count x (members ds)
unfolding promote
count-promote x k [] ds = omega arith
count-promote x k (y ∷ ys) ds = omega (arith, count-append x (y ∷ ys) (members ds))

count-drop_op :
    (x : Ptr) (r : List Chan)
    → 0 < count (first null (heads r)) (heads r)
    → count x (members (drop_op r)) + count x (first null (heads r) ∷ []) ≡ count x (members r)
unfolding drop_op
count-drop_op x [] h = absurd (omega arith)
count-drop_op x (d ∷ ds) h =
    omega (arith, count-promote x d.cell d.rest ds, count-append x (jobs d) (members ds))

head-rotate :
    (c : Chan) (cs : List Chan)
    → 0 < count (first null (heads (rotate (c ∷ cs)))) (heads (rotate (c ∷ cs)))
unfolding rotate
head-rotate c [] = count_self c.head []
head-rotate c (d ∷ ds) = count_self d.head (heads (ds ++ c ∷ []))

-- The section moves an entry from the ring to the pool, or none.
pub count-advance :
    (x : Ptr) (done : Bool) (c : Chan) (cs : List Chan) (free : List Ptr)
    → count x (members (advance_ring done (c ∷ cs))) + count x (advance_free done (c ∷ cs) free)
      ≡ count x (members (c ∷ cs)) + count x free
unfolding advance_ring advance_free
count-advance x true c cs free =
    omega (arith, count-drop_op x (rotate (c ∷ cs)) (head-rotate c cs), count-rotate x (c ∷ cs))
count-advance x false c cs free = omega (arith, count-rotate x (c ∷ cs))

first_op :
    (r : List Chan) → (first null (heads r) ≡ null) ⊎ (0 < count (first null (heads r)) (heads r))
first_op [] = inl refl
first_op (c ∷ cs) = inr (count_self c.head (heads cs))

front_op : (p : Ptr) (r : List Chan) → OpsIn p r → p ≢ null → 0 < count p (heads r)
front_op p [] e set = absurd (set e)
front_op p (c ∷ cs) h set = h

set_op : (p : Ptr) (r : List Chan) → OpAt Phase.polling p r → p ≢ null → 0 < count p (heads r)
set_op p r (inl e) set = absurd (set e)
set_op p r (inr h) set = h

poll_op :
    (s : Proxy) (t : Thread) (r : List Chan) (free : List Ptr)
    → IsRing s r free
    → OpAt Phase.polling t.op r
    → OpAt (poll s t).phase (poll s t).op r
unfolding poll
poll_op s t r free v at = elim (Bool-cases s.abort_flag) [
  | inl abort ↦ simp abort tt
  | inr run ↦ elim (Bool-cases (t.op == null)) [
    | inr busy ↦ simp (run, busy) (set_op t.op r at (==→ne t.op null busy))
    | inl off ↦ elim (Bool-cases (s.ops == null)) [
      | inr more ↦ simp (run, off, more) (front_op s.ops r v.front (==→ne s.ops null more))
      | inl empty ↦ elim (Bool-cases s.stop) [
        | inl stop ↦ simp (run, off, empty, stop) tt
        | inr go ↦ simp (run, off, empty, go) at
      ]
    ]
  ]
]

-- What a turn leaves in the thread's entry.
unfoldable pub worked : (ℕ → ProxyArgs → ProxyArgs) → ProxyArgs → ProxyArgs
worked progress n =
    if is_none n.state
    then record n { idle = false }
    else progress n.progress (record n { idle = false })

pub worked-SameLinks :
    (progress : ℕ → ProxyArgs → ProxyArgs) (n : ProxyArgs)
    → ((f : ℕ) (m : ProxyArgs) → SameLinks m (progress f m))
    → SameLinks n (worked progress n)
unfolding worked
worked-SameLinks progress n keeps = elim (Bool-cases (is_none n.state)) [
  | inl idle ↦ rw idle (refl, refl, refl)
  | inr busy ↦ rw busy (keeps n.progress (record n { idle = false }))
]

module _ (s : Proxy) (t : Thread) (r : List Chan) (free held : List Ptr) where
  -- The invariant after a step that leaves what clients hold alone.
  abbrev pub After : Thread → Proxy → Type 0
  After t' s' = IsSoundAfter r free held (t', held) s'

  unchanged : IsSound s t r free held → After t s
  unchanged v = record {
    ring_after = r;
    free_after = free;
    sound = v;
    none_lost = λ x. omega arith;
  }

  poll-IsSound : t.phase ≡ Phase.polling → IsSound s t r free held → After (poll s t) s
  poll-IsSound at v = record {
    ring_after = r;
    free_after = free;
    sound = record {
      ring = v.ring;
      op_at = poll_op s t r free v.ring (subst (λ p. OpAt p t.op r) at v.op_at);
      one_owner = v.one_owner;
      ready = v.ready;
    };
    none_lost = λ x. omega arith;
  }

  advance-IsSound :
      t.phase ≡ Phase.advancing → IsSound s t r free held → Returns After (advance t s)
  advance-IsSound at v =
      Returns-weaken _ _ (advance t s) (advance-IsRing s t q.head_chan q.others free q.ring q.at)
        λ t' s' (ring, e, phase, same, lives). record {
          ring_after = advance_ring done (q.head_chan ∷ q.others);
          free_after = advance_free done (q.head_chan ∷ q.others) free;
          sound = record {
            ring = ring;
            op_at =
                subst (λ p. OpAt p t'.op (advance_ring done (q.head_chan ∷ q.others))) (sym phase)
                  (subst (λ p. OpAt Phase.polling p (advance_ring done (q.head_chan ∷ q.others)))
                    (sym e) (first_op _));
            one_owner = λ x. omega (arith, v.one_owner x, moved x);
            ready = λ x h.
                let (on, set, alone) = v.ready x h in
                (lives x ∙ on, set, ap peer_field (same x) ∙ alone);
          };
          none_lost = λ x. omega (arith, moved x);
        }
    where
      q : TurnedTo s r free t.op
      q = turn_to s r free t.op (subst (λ p. OpAt p t.op r) at v.op_at) v.ring

      done : Bool
      done = next_done s (q.head_chan ∷ q.others)

      moved :
          (x : Ptr)
          → count x (members (advance_ring done (q.head_chan ∷ q.others)))
              + count x (advance_free done (q.head_chan ∷ q.others) free)
            ≡ count x (members r) + count x free
      moved x = omega (arith, count-advance x done q.head_chan q.others free, q.same x)

  work-IsSound :
      (progress : ℕ → ProxyArgs → ProxyArgs)
      → ((f : ℕ) (m : ProxyArgs) → SameLinks m (progress f m))
      → t.phase ≡ Phase.working
      → IsSound s t r free held
      → Returns After (work progress t s)
  unfolding work worked
  work-IsSound progress keeps at v =
      simp (on, eq→== t.op t.op refl)
        (record {
          ring_after = r;
          free_after = free;
          sound = record {
            ring = IsRing-links s _ r free (λ x h. same x) v.ring;
            op_at = here;
            one_owner = v.one_owner;
            ready = λ x h.
                let (live, set, alone) = v.ready x h in
                let (_, peer, _) = same x in (live, set, peer ∙ alone);
          };
          none_lost = λ x. omega arith;
        })
    where
      here : 0 < count t.op (heads r)
      here = subst (λ p. OpAt p t.op r) at v.op_at

      on : s.live t.op ≡ true
      on = (v.ring.alive t.op (omega (arith, here, count-heads-le t.op r))).0

      node : Ptr → ProxyArgs
      node = update s.node t.op (record (s.node t.op) { idle = false })

      same : (x : Ptr) → SameLinks (s.node x) (update node t.op (worked progress (s.node t.op)) x)
      same x =
          update-SameLinks_twice s.node t.op _ _ (refl, refl, refl)
            (worked-SameLinks progress (s.node t.op) keeps) x

  pub turn-IsSound :
      (progress : ℕ → ProxyArgs → ProxyArgs)
      → ((f : ℕ) (m : ProxyArgs) → SameLinks m (progress f m))
      → (p : Phase) → t.phase ≡ p
      → IsSound s t r free held
      → Returns After (thread_turn progress p t s)
  turn-IsSound progress keeps Phase.polling at v = poll-IsSound at v
  turn-IsSound progress keeps Phase.waiting at v = unchanged v
  turn-IsSound progress keeps Phase.working at v = work-IsSound progress keeps at v
  turn-IsSound progress keeps Phase.advancing at v = advance-IsSound at v
  turn-IsSound progress keeps Phase.returned at v = unchanged v
