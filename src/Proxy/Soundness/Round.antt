-- ===== src/Proxy/Soundness/Round.antt =====
-- One round of csrc/proxy.cc's thread makes the ring lighter.
use flash_reduce_dev.Common.{
  Bool-cases, true≢false, ==→eq, inl, inr, Bool, ℕ, ◌+◌, ◌<◌, ◌≤◌, ◌≡◌, ◌≢◌, ◌∙◌, refl, sym, ap,
  true, false, List, ◌∷◌, ◌==◌, if◌then◌else◌, count, arith, eq→==, count_self,
}
use flash_reduce_dev.Proxy.State.{
  Ptr, null, is_none, ProxyArgs, Proxy, update, Returns, Returns-weaken,
}
use flash_reduce_dev.Proxy.Chain.{first}
use flash_reduce_dev.Proxy.Channels.{Chan, heads, members, count-heads-le}
use flash_reduce_dev.Proxy.Invariant.{IsRing}
use flash_reduce_dev.Proxy.Thread.{polling, advancing, Thread, work, advance}
use flash_reduce_dev.Proxy.Advance.{advance_ring, advance_free, next_done, advance-IsRing}
use flash_reduce_dev.Proxy.System.{SameLinks}
use flash_reduce_dev.Proxy.Soundness.Links.{IsRing-links, update-SameLinks_twice}
use flash_reduce_dev.Proxy.Soundness.Worker.{worked, worked-SameLinks, count-advance}
use flash_reduce_dev.Proxy.Soundness.Pace.{
  Pace, AllGood, AllGood-same, cost_same, Called, worked-Called,
}
use flash_reduce_dev.Proxy.Soundness.Weight.{
  weight-rotate, weight-call, weight-keep, weight, weight-advance, weight_cong,
}

update_other :
    (node : Ptr → ProxyArgs) (a : Ptr) (n m : ProxyArgs) (x : Ptr)
    → (x == a) ≡ false
    → update (update node a n) a m x ≡ node x
update_other node a n m x miss = rw miss refl

lighter_busy : (b : Bool) (m n : ℕ) → b ≡ false → m + (if b then 0 else 1) ≤ n → m + 1 ≤ n
lighter_busy true m n e h = absurd (true≢false e)
lighter_busy false m n e h = h

unflag_le : (b : Bool) → (if b then 0 else 1) ≤ 1
unflag_le true = omega arith
unflag_le false = omega arith

pub is_set :
    (s : Proxy) (c : Chan) (cs : List Chan) (free : List Ptr)
    → IsRing s (c ∷ cs) free
    → c.head ≢ null
is_set s c cs free v =
    (v.alive c.head (omega (arith, count_self c.head (heads cs), count-heads-le c.head (c ∷ cs)))).1

module _ (progress : ℕ → ProxyArgs → ProxyArgs)
    (keeps : (f : ℕ) (n : ProxyArgs) → SameLinks n (progress f n)) (p : Pace progress) where
  -- The call has made the ring lighter, but for the operation's leave if it has finished, and the
  -- entries are good.
  pub record Worked (s : Proxy) (c : Chan) (cs : List Chan) (free : List Ptr) (t' : Thread)
      (s' : Proxy) : Type 0 where
    pub ring : IsRing s' (c ∷ cs) free
    pub at : t'.op ≡ c.head
    pub lighter :
        weight p.left s'.node (c ∷ cs) + (if is_none (s'.node c.head).state then 0 else 1)
        ≤ weight p.left s.node (c ∷ cs)
    pub good : AllGood p s'.node
    pub phase : t'.phase ≡ advancing

  -- The same for two memories that differ in the first operation.
  call-lighter :
      (node node' : Ptr → ProxyArgs) (c : Chan) (cs : List Chan)
      → ((x : Ptr) → (x == c.head) ≡ false → node' x ≡ node x)
      → Called p (node c.head) (node' c.head)
      → weight p.left node' (c ∷ cs) + (if is_none (node' c.head).state then 0 else 1)
        ≤ weight p.left node (c ∷ cs)
  call-lighter node node' c cs same called = elim (Bool-cases (is_none (node c.head).state)) [
    | inl done ↦ rw (called.done done) (
        omega (
          arith,
          weight-keep p.left node node' c.head same c cs refl (done, called.done done) called.dear,
        ))
    | inr busy ↦ omega (
      arith,
      weight-call p.left node node' c.head same c cs refl (called.cheaper busy),
      unflag_le (is_none (node' c.head).state),
    )
  ]

  call-AllGood :
      (node node' : Ptr → ProxyArgs) (a : Ptr)
      → ((x : Ptr) → (x == a) ≡ false → node' x ≡ node x)
      → Called p (node a) (node' a)
      → AllGood p node
      → AllGood p node'
  call-AllGood node node' a same called good x busy = elim (Bool-cases (x == a)) [
    | inl hit ↦
        let e = ==→eq x a hit in
        ap (λ y. p.good (node' y)) e
        ∙ called.fine (sym (ap (λ y. is_none (node' y).state) e) ∙ busy)
    | inr miss ↦
        ap p.good (same x miss)
        ∙ good x (sym (ap (λ (n : ProxyArgs). is_none n.state) (same x miss)) ∙ busy)
  ]

  pub work-Worked :
      (s : Proxy) (t : Thread) (c : Chan) (cs : List Chan) (free : List Ptr)
      → IsRing s (c ∷ cs) free
      → t.op ≡ c.head
      → AllGood p s.node
      → Returns (Worked s c cs free) (work progress t s)
  unfolding work worked
  work-Worked s t c cs free v at good =
      simp (at, on, eq→== c.head c.head refl)
        (record {
          ring =
              IsRing-links s _ (c ∷ cs) free
                (λ x h.
                  update-SameLinks_twice s.node c.head _ _ (refl, refl, refl)
                    (worked-SameLinks progress (s.node c.head) keeps) x)
                v;
          at = refl;
          lighter =
              call-lighter s.node _ c cs (λ x miss. update_other s.node c.head _ _ x miss) called;
          good =
              call-AllGood s.node _ c.head (λ x miss. update_other s.node c.head _ _ x miss) called
                good;
          phase = refl;
        })
    where
      called : Called p (s.node c.head) (
          update
            (update s.node c.head (record (s.node c.head) { idle = false }))
            c.head
            (worked progress (s.node c.head))
            c.head)
      called = rw (eq→== c.head c.head refl) (worked-Called p (s.node c.head) (good c.head))

      on : s.live c.head ≡ true
      on =
          (v.alive c.head
            (omega (arith, count_self c.head (heads cs), count-heads-le c.head (c ∷ cs)))).0

  -- A round makes the ring lighter.
  pub record Rounded (s : Proxy) (r : List Chan) (free : List Ptr) (t' : Thread) (s' : Proxy)
      : Type 0 where
    pub ring_after : List Chan
    pub free_after : List Ptr
    pub ring : IsRing s' ring_after free_after
    pub at : t'.op ≡ first null (heads ring_after)
    pub phase : t'.phase ≡ polling
    pub lighter : weight p.left s'.node ring_after < weight p.left s.node r
    pub good : AllGood p s'.node
    pub kept :
        (x : Ptr)
        → count x (members ring_after) + count x free_after ≡ count x (members r) + count x free

  advance-lighter :
      (s s' : Proxy) (t' : Thread) (c : Chan) (cs : List Chan) (free : List Ptr)
      → Worked s c cs free t' s'
      → weight p.left s'.node (advance_ring (next_done s' (c ∷ cs)) (c ∷ cs))
        < weight p.left s.node (c ∷ cs)
  advance-lighter s s' t' c cs free w = elim (Bool-cases (is_none (s'.node c.head).state)) [
    | inl done ↦ omega (arith, w.lighter, weight-advance p.left s'.node c cs done)
    | inr going ↦ omega (
      arith,
      lighter_busy (is_none (s'.node c.head).state) _ _ going w.lighter,
      weight-rotate p.left s'.node c cs going,
    )
  ]

  pub advance-Rounded :
      (s s' : Proxy) (t' : Thread) (c : Chan) (cs : List Chan) (free : List Ptr)
      → Worked s c cs free t' s'
      → Returns (Rounded s (c ∷ cs) free) (advance t' s')
  advance-Rounded s s' t' c cs free w =
      Returns-weaken _ _ (advance t' s') (advance-IsRing s' t' c cs free w.ring w.at)
        λ t'' s'' (ring, op, phase, same, _). record {
          ring_after = advance_ring (next_done s' (c ∷ cs)) (c ∷ cs);
          free_after = advance_free (next_done s' (c ∷ cs)) (c ∷ cs) free;
          ring = ring;
          at = op;
          phase = phase;
          lighter = omega (
            arith,
            weight_cong p.left s'.node s''.node
                (λ x. ap (λ (n : ProxyArgs). is_none n.state) (same x))
                (λ x. cost_same p _ _ (same x)) (advance_ring (next_done s' (c ∷ cs)) (c ∷ cs)),
            advance-lighter s s' t' c cs free w,
          );
          good = AllGood-same p s'.node s''.node same w.good;
          kept = λ x. count-advance x (next_done s' (c ∷ cs)) c cs free;
        }
