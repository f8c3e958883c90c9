-- ===== src/Proxy/Advance/Promote.antt =====
-- A finished operation leaves the ring: its channel's next entry takes its place, or the channel
-- leaves the ring with it. The operation joins the pool.
use flash_reduce_dev.Common.{
  ◌+◌, ◌<◌, ◌≡◌, ◌≢◌, ◌∙◌, sym, inl, inr, true, zero_or_pos, List, [], ◌∷◌, ◌++◌, ◌≤◌, ◌⊎◌, subst,
  ◌==◌, if◌then◌else◌, count, All, arith, Bool-cases, ==→eq, ==→ne, count-append, count_self,
}
use flash_reduce_dev.Proxy.State.{Ptr, null, Proxy}
use flash_reduce_dev.Proxy.Chain.{first, Linked, SameBut, Linked-frame, ne_of_count}
use flash_reduce_dev.Proxy.Channels.{Chan, chan, heads, cells, members, count-heads-le}
use flash_reduce_dev.Proxy.Invariant.{next_of, peer_of, cell_of, IsChan, OpsIn, IsRing, chans-frame}

-- What both cases share: `f` becomes the head of the pool, the links of channels stay, and `ops`
-- moves on to `next` if it was `f`. `keep` lists the entries whose `next` may change as well.
pub record Freed (s s' : Proxy) (f next : Ptr) (keep : List Ptr) : Type 0 where
  pub others : (x : Ptr) → x ≢ f → count x keep ≡ 0 → next_of s' x ≡ next_of s x
  pub freed : next_of s' f ≡ s.pool
  pub pool : s'.pool ≡ f
  pub peers : (x : Ptr) → peer_of s' x ≡ peer_of s x
  pub owners : (x : Ptr) → cell_of s' x ≡ cell_of s x
  pub lives : (x : Ptr) → s'.live x ≡ s.live x
  pub ops : s'.ops ≡ (if f == s.ops then next else s.ops)

module _ {s s' : Proxy} {k f next : Ptr} {ps : List Ptr} {ds : List Chan} {free keep : List Ptr}
    (v : IsRing s (chan k f ps ∷ ds) free) (new : Freed s s' f next keep)
    (inside : (x : Ptr) → 0 < count x keep → 0 < count x (ps ++ members ds)) where
  counted : (x : Ptr) → count x (ps ++ members ds) ≡ count x ps + count x (members ds)
  counted x = count-append x ps (members ds)

  outside : (x : Ptr) → 0 < count x free → count x keep ≡ 0
  outside x h = elim (zero_or_pos (count x keep)) [
    | inl e ↦ e
    | inr i ↦ absurd (omega (arith, v.once x, inside x i))
  ]

  pub pooled-after : Linked (next_of s') null (f ∷ free)
  pooled-after = (
    new.freed ∙ v.pool_head,
    Linked-frame free (next_of s) (next_of s') null
        (λ x h.
          new.others x (ne_of_count x f free h (omega (arith, v.once f, count_self f [])))
            (outside x h))
        v.pooled,
  )

  pub once-after : (x : Ptr) → count x (ps ++ members ds) + count x (f ∷ free) ≤ 1
  once-after x = omega (arith, v.once x)

  pub alive-after :
      (x : Ptr)
      → 0 < count x (ps ++ members ds) + count x (f ∷ free)
      → (s'.live x ≡ true) × (x ≢ null)
  alive-after x h = let (on, ne) = v.alive x (omega arith) in (new.lives x ∙ on, ne)

  pub ops-after : (s'.ops ≡ next) ⊎ (0 < count s'.ops (heads ds))
  ops-after = elim (Bool-cases (f == s.ops)) [
    | inl hit ↦ inl (new.ops ∙ rw hit)
    | inr miss ↦
        let same : s'.ops ≡ s.ops = new.ops ∙ rw miss in
        inr (subst (λ p. 0 < count p (heads ds)) (sym same) (ground (arith, miss, v.front)))
  ]

  pub rest-chans : ((j : Ptr) → 0 < count j (cells ds) → s'.tail j ≡ s.tail j) → All (IsChan s') ds
  rest-chans tails = chans-frame s s' ds (λ x h. (new.peers x, new.owners x)) tails v.chans.1

-- The channel has a next entry, `y`.
pub promote-IsRing :
    {s s' : Proxy} {k f y : Ptr} {ys : List Ptr} {ds : List Chan} {free : List Ptr}
    → IsRing s (chan k f (y ∷ ys) ∷ ds) free
    → Freed s s' f y (y ∷ heads ds)
    → ((j : Ptr) → s'.tail j ≡ s.tail j)
    → Linked (next_of s') y (y ∷ heads ds)
    → IsRing s' (chan k y ys ∷ ds) (f ∷ free)
promote-IsRing {s} {s'} {k} {f} {y} {ys} {ds} {free} v new tails cycle = record {
  front = elim (ops-after v new inside) [
    | inl e ↦ subst (λ p. 0 < count p (y ∷ heads ds)) (sym e) (count_self y (heads ds))
    | inr h ↦ omega arith
  ];
  ring = cycle;
  chans = (
    record {
      queued =
          Linked-frame (y ∷ ys) (peer_of s) (peer_of s') null (λ x _. new.peers x) old.queued.1;
      tail = tails k ∙ old.tail;
      owned = λ x h. new.owners x ∙ old.owned x (omega arith);
      cell = old.cell;
    },
    rest-chans v new inside (λ j _. tails j),
  );
  one_cell = v.one_cell;
  quiet = λ j h. tails j ∙ v.quiet j h;
  pooled = pooled-after v new inside;
  pool_head = new.pool;
  once = once-after v new inside;
  alive = alive-after v new inside;
}
  where
    old : IsChan s (chan k f (y ∷ ys))
    old = v.chans.0

    inside : (x : Ptr) → 0 < count x (y ∷ heads ds) → 0 < count x ((y ∷ ys) ++ members ds)
    inside x h = omega (arith, count-append x (y ∷ ys) (members ds), count-heads-le x ds)

-- The channel has no other entry.
pub remove-IsRing :
    {s s' : Proxy} {k f : Ptr} {ds : List Chan} {free : List Ptr}
    → IsRing s (chan k f [] ∷ ds) free
    → Freed s s' f (first null (heads ds)) (heads ds)
    → s'.tail k ≡ null
    → SameBut k s.tail s'.tail
    → Linked (next_of s') (first null (heads ds)) (heads ds)
    → IsRing s' ds (f ∷ free)
remove-IsRing {s} {s'} {k} {f} {ds} {free} v new cleared tails cycle = record {
  front = OpsIn-after ds (ops-after v new inside);
  ring = cycle;
  chans = rest-chans v new inside (λ j h. tails j (ne_of_count j k (cells ds) h gone));
  one_cell = λ j. omega (arith, v.one_cell j);
  quiet = λ j h. elim (Bool-cases (k == j)) [
    | inl hit ↦ subst (λ i. s'.tail i ≡ null) (==→eq k j hit) cleared
    | inr miss ↦ tails j (λ e. ==→ne k j miss (sym e)) ∙ v.quiet j (ground (arith, miss))
  ];
  pooled = pooled-after v new inside;
  pool_head = new.pool;
  once = once-after v new inside;
  alive = alive-after v new inside;
}
  where
    inside : (x : Ptr) → 0 < count x (heads ds) → 0 < count x ([] ++ members ds)
    inside x h = omega (arith, count-heads-le x ds)

    gone : count k (cells ds) ≡ 0
    gone = omega (arith, v.one_cell k, count_self k [])

    OpsIn-after :
        (cs : List Chan)
        → (s'.ops ≡ first null (heads cs)) ⊎ (0 < count s'.ops (heads cs))
        → OpsIn s'.ops cs
    OpsIn-after [] (inl e) = e
    OpsIn-after [] (inr h) = absurd (omega arith)
    OpsIn-after (c ∷ cs) (inl e) =
        subst (λ p. 0 < count p (heads (c ∷ cs))) (sym e) (count_self c.head (heads cs))
    OpsIn-after (c ∷ cs) (inr h) = h
