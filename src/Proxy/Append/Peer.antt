-- ===== src/Proxy/Append/Peer.antt =====
-- `ProxyArgsAppend` to a channel that is queued: the new entry hangs behind the channel's last.
use flash_reduce_dev.Common.{
  ◌+◌, ◌<◌, ◌≤◌, ◌≡◌, ◌≢◌, ◌∙◌, ap, sym, subst, refl, inl, inr, true, List, [], ◌∷◌, ◌++◌, ◌==◌,
  count, All, arith, Bool-cases, ==→eq, ==→ne, count-append, count-add_fresh,
}
use flash_reduce_dev.Proxy.State.{Ptr, null, Proxy}
use flash_reduce_dev.Proxy.Chain.{last, SameBut, Linked-frame, Linked-snoc, count-last, ne_of_count}
use flash_reduce_dev.Proxy.Channels.{
  Chan, jobs, heads, cells, members, enqueue, heads-enqueue, cells-enqueue, count-members-enqueue,
}
use flash_reduce_dev.Proxy.Invariant.{
  next_of, peer_of, cell_of, IsChan, OpsIn, IsRing, KeepsPeer, IsChan-frame, chans-frame, tail-mem,
  owned_add,
}

-- What hanging `a` behind the last entry of channel `k`, `t`, changes.
pub record PeerAdded (s s' : Proxy) (k t a : Ptr) : Type 0 where
  pub shown : s.tail k ≡ t
  pub peers : SameBut t (peer_of s) (peer_of s')
  pub hung : peer_of s' t ≡ a
  pub end : peer_of s' a ≡ null
  pub owner : cell_of s a ≡ k
  pub owners : (x : Ptr) → cell_of s' x ≡ cell_of s x
  pub tail_set : s'.tail k ≡ a
  pub tails : SameBut k s.tail s'.tail
  pub nexts : (x : Ptr) → next_of s' x ≡ next_of s x
  pub lives : (x : Ptr) → s'.live x ≡ s.live x
  pub same_ops : s'.ops ≡ s.ops
  pub same_pool : s'.pool ≡ s.pool

last-snoc : (x a : Ptr) (xs : List Ptr) → last x (xs ++ a ∷ []) ≡ a
last-snoc x a [] = refl
last-snoc x a (y ∷ ys) = last-snoc y a ys

module _ {s s' : Proxy} {k t a : Ptr} (new : PeerAdded s s' k t a) where
  open new use {
    shown, peers, hung, end, owner, owners, tail_set, tails, nexts, lives, same_ops, same_pool,
  }

  enqueue-IsChan :
      (c : Chan)
      → c.cell ≡ k
      → count t (jobs c) ≤ 1
      → IsChan s c
      → IsChan s' (record c { rest = c.rest ++ a ∷ [] })
  enqueue-IsChan c e once v = record {
    queued =
        Linked-snoc c.head c.rest (peer_of s) (peer_of s') a null
          (ground (arith, count-last c.head c.rest)) (λ x ne. peers x (λ p. ne (p ∙ t_last)))
          (ap (peer_of s') (sym t_last) ∙ hung) end v.queued;
    tail = ap s'.tail e ∙ tail_set ∙ sym (last-snoc c.head a c.rest);
    owned = λ x h. ground (arith, owners x, v.owned x, count-append x c.rest (a ∷ []));
    cell = v.cell;
  }
    where
      t_last : t ≡ last c.head c.rest
      t_last = sym shown ∙ ap s.tail (sym e) ∙ v.tail

  shown-mem : (r : List Chan) → All (IsChan s) r → 0 < count k (cells r) → 0 < count t (members r)
  shown-mem r v h = subst (λ p. 0 < count p (members r)) shown (tail-mem s k r v h)

  kept : (xs : List Ptr) → count t xs ≡ 0 → (x : Ptr) → 0 < count x xs → KeepsPeer s s' x
  kept xs out x h = (peers x (ne_of_count x t xs h out), owners x)

  chans-enqueue :
      (r : List Chan)
      → count k (cells r) ≡ 1
      → ((x : Ptr) → count x (members r) ≤ 1)
      → All (IsChan s) r
      → All (IsChan s') (enqueue k a r)
  unfolding enqueue
  chans-enqueue [] here once v = tt
  chans-enqueue (c ∷ cs) here once v = elim (Bool-cases (c.cell == k)) [
    | inl hit ↦ rw hit (
        let inside : 0 < count t (jobs c) =
          ground (arith, hit, shown-mem (c ∷ []) (v.0, tt), count-append t c.rest []) in
        (
          enqueue-IsChan c (==→eq c.cell k hit) (omega (arith, once t, both t)) v.0,
          chans-frame s s' cs (kept (members cs) (omega (arith, once t, both t)))
              (λ j h. tails j (ne_of_count j k (cells cs) h (ground (arith, hit)))) v.1,
        ))
    | inr miss ↦ rw miss (
        let below : 0 < count t (members cs) = shown-mem cs v.1 (ground (arith, miss)) in
        (
          IsChan-frame s s' c (kept (jobs c) (omega (arith, once t, both t)))
              (tails c.cell (==→ne c.cell k miss)) v.0,
          chans-enqueue cs (ground (arith, miss)) (λ x. omega (arith, once x, both x)) v.1,
        ))
  ]
    where
      both : (x : Ptr) → count x (members (c ∷ cs)) ≡ count x (jobs c) + count x (members cs)
      both x = count-append x (jobs c) (members cs)

  OpsIn-enqueue : (r : List Chan) → OpsIn s.ops r → OpsIn s'.ops (enqueue k a r)
  unfolding enqueue
  OpsIn-enqueue [] h = same_ops ∙ h
  OpsIn-enqueue (c ∷ cs) h = ground (arith, same_ops, heads-enqueue k a cs)

  pub enqueue-IsRing :
      (r : List Chan) (free : List Ptr)
      → 0 < count k (cells r)
      → s.live a ≡ true
      → a ≢ null
      → count a (members r) + count a free ≡ 0
      → IsRing s r free
      → IsRing s' (enqueue k a r) free
  enqueue-IsRing r free queued live set out v = record {
    front = OpsIn-enqueue r v.front;
    ring =
        rw heads-enqueue
          (Linked-frame (heads r) (next_of s) (next_of s') _ (λ x _. nexts x) v.ring);
    chans = chans-enqueue r (omega (arith, v.one_cell k)) (λ x. omega (arith, v.once x)) v.chans;
    one_cell = λ j. rw cells-enqueue (v.one_cell j);
    quiet = λ j h.
        let old : count j (cells r) ≡ 0 = rw cells-enqueue at h in
        tails j (λ e. absurd (omega (arith, subst (λ z. count z (cells r) ≡ 0) e old)))
        ∙ v.quiet j old;
    pooled = Linked-frame free (next_of s) (next_of s') null (λ x _. nexts x) v.pooled;
    pool_head = same_pool ∙ v.pool_head;
    once = λ x.
        rw (count-members-enqueue x k a r queued)
          (count-add_fresh x a (members r) free out (v.once x));
    alive = λ x h.
        owned_add s.live s'.live a (members r) free lives live set v.alive x
          (rw (count-members-enqueue x k a r queued) at h);
  }
