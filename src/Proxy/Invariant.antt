-- ===== src/Proxy/Invariant.antt =====
-- When the memory of csrc/proxy.cc holds a ring of channels and a pool of free entries.
use flash_reduce_dev.Common.{
  ◌+◌, ◌<◌, ◌≤◌, ◌≡◌, ◌≢◌, ◌∙◌, ap, sym, subst, inl, inr, Bool, true, List, [], ◌∷◌, ◌==◌, count,
  All, arith, Bool-cases, ==→eq, count-append,
}
use flash_reduce_dev.Proxy.State.{Ptr, null, Proxy}
use flash_reduce_dev.Proxy.Chain.{first, last, Linked, Linked-frame, count-last}
use flash_reduce_dev.Proxy.Channels.{Chan, jobs, heads, cells, members}

abbrev pub next_of : Proxy → Ptr → Ptr
next_of s a = (s.node a).next

abbrev pub peer_of : Proxy → Ptr → Ptr
peer_of s a = (s.node a).next_peer

abbrev pub cell_of : Proxy → Ptr → Ptr
cell_of s a = (s.node a).proxy_tail

-- The peers of a channel are chained up to a null pointer, and its tail pointer shows the last.
pub record IsChan (s : Proxy) (c : Chan) : Type 0 where
  pub queued : Linked (peer_of s) null (jobs c)
  pub tail : s.tail c.cell ≡ last c.head c.rest
  pub owned : (a : Ptr) → 0 < count a (jobs c) → cell_of s a ≡ c.cell
  pub cell : c.cell ≢ null

-- `ops` is some operation of the ring, and null if there is none.
abbrev pub OpsIn : Ptr → List Chan → Type 0
OpsIn p [] = p ≡ null
OpsIn p (c ∷ cs) = 0 < count p (heads (c ∷ cs))

pub OpsIn-heads : (p : Ptr) (r : List Chan) → 0 < count p (heads r) → OpsIn p r
OpsIn-heads p [] h = absurd (omega arith)
OpsIn-heads p (c ∷ cs) h = h

-- The entries owned by the handler are distinct and allocated; the operations form a cycle.
pub record IsRing (s : Proxy) (r : List Chan) (free : List Ptr) : Type 0 where
  pub front : OpsIn s.ops r
  pub ring : Linked (next_of s) (first null (heads r)) (heads r)
  pub chans : All (IsChan s) r
  pub one_cell : (k : Ptr) → count k (cells r) ≤ 1
  pub quiet : (k : Ptr) → count k (cells r) ≡ 0 → s.tail k ≡ null
  pub pooled : Linked (next_of s) null free
  pub pool_head : s.pool ≡ first null free
  pub once : (a : Ptr) → count a (members r) + count a free ≤ 1
  pub alive : (a : Ptr) → 0 < count a (members r) + count a free → (s.live a ≡ true) × (a ≢ null)

-- An entry keeps the links of its channel.
abbrev pub KeepsPeer : Proxy → Proxy → Ptr → Type 0
KeepsPeer s t a = (peer_of t a ≡ peer_of s a) × (cell_of t a ≡ cell_of s a)

module _ (s t : Proxy) where
  pub IsChan-frame :
      (c : Chan)
      → ((a : Ptr) → 0 < count a (jobs c) → KeepsPeer s t a)
      → t.tail c.cell ≡ s.tail c.cell
      → IsChan s c
      → IsChan t c
  IsChan-frame c kept same v = record {
    queued = Linked-frame (jobs c) (peer_of s) (peer_of t) null (λ a h. (kept a h).0) v.queued;
    tail = same ∙ v.tail;
    owned = λ a h. (kept a h).1 ∙ v.owned a h;
    cell = v.cell;
  }

  pub chans-frame :
      (r : List Chan)
      → ((a : Ptr) → 0 < count a (members r) → KeepsPeer s t a)
      → ((k : Ptr) → 0 < count k (cells r) → t.tail k ≡ s.tail k)
      → All (IsChan s) r
      → All (IsChan t) r
  chans-frame [] kept same v = tt
  chans-frame (c ∷ cs) kept same v = (
    IsChan-frame c (λ a h. kept a (omega (arith, count-append a (jobs c) (members cs))))
        (same c.cell (ground arith)) v.0,
    chans-frame cs (λ a h. kept a (omega (arith, count-append a (jobs c) (members cs))))
        (λ k h. same k (omega arith)) v.1,
  )

-- The entry that the tail pointer of a queued channel shows is one of the channel's.
pub tail-mem :
    (s : Proxy) (k : Ptr) (r : List Chan)
    → All (IsChan s) r
    → 0 < count k (cells r)
    → 0 < count (s.tail k) (members r)
tail-mem s k [] v h = absurd (omega arith)
tail-mem s k (c ∷ cs) v h = elim (Bool-cases (c.cell == k)) [
  | inl hit ↦
      subst (λ t. 0 < count t (members (c ∷ cs))) (sym v.0.tail ∙ ap s.tail (==→eq c.cell k hit))
        (omega (
          arith,
          count-last c.head c.rest,
          count-append (last c.head c.rest) (jobs c) (members cs),
        ))
  | inr miss ↦ omega (
    arith,
    tail-mem s k cs v.1 (ground (arith, miss)),
    count-append (s.tail k) (jobs c) (members cs),
  )
]

-- What the handler owns stays allocated when it takes over an allocated entry.
pub owned_add :
    (on on' : Ptr → Bool) (a : Ptr) (xs ys : List Ptr)
    → ((x : Ptr) → on' x ≡ on x)
    → on a ≡ true
    → a ≢ null
    → ((x : Ptr) → 0 < count x xs + count x ys → (on x ≡ true) × (x ≢ null))
    → (x : Ptr) → 0 < count x xs + count x (a ∷ []) + count x ys
    → (on' x ≡ true) × (x ≢ null)
owned_add on on' a xs ys lives live set old x h = elim (Bool-cases (a == x)) [
  | inl hit ↦ subst (λ z. (on' z ≡ true) × (z ≢ null)) (==→eq a x hit) (lives a ∙ live, set)
  | inr miss ↦ let (l, ne) = old x (ground (arith, miss)) in (lives x ∙ l, ne)
]
