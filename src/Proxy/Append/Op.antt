-- ===== src/Proxy/Append/Op.antt =====
-- `ProxyArgsAppend` to a channel that is not queued: the new entry becomes an operation of the ring,
-- the only one or the one behind `ops`.
use flash_reduce_dev.Common.{
  ◌+◌, ◌<◌, ◌≡◌, ◌≢◌, ◌∙◌, inl, inr, true, List, [], ◌∷◌, ◌==◌, count, All, arith, Bool-cases,
  count-add_fresh,
}
use flash_reduce_dev.Proxy.State.{Ptr, null, Proxy}
use flash_reduce_dev.Proxy.Chain.{
  SameBut, Linked-frame, Linked-insert_after, ne_of_count, first-insert_after, count-insert_after,
}
use flash_reduce_dev.Proxy.Channels.{
  Chan, chan, heads, cells, members, insert_chan, heads-insert_chan, count-cells-insert_chan,
  count-members-insert_chan, count-heads-le,
}
use flash_reduce_dev.Proxy.Invariant.{
  next_of, peer_of, cell_of, IsChan, IsRing, OpsIn-heads, chans-frame, owned_add,
}

-- What putting `a`, of the channel `k`, behind the operation `o` changes.
pub record OpAdded (s s' : Proxy) (k o a : Ptr) : Type 0 where
  pub nexts : (x : Ptr) → x ≢ o → x ≢ a → next_of s' x ≡ next_of s x
  pub to : next_of s' o ≡ a
  pub back : next_of s' a ≡ next_of s o
  pub peers : (x : Ptr) → peer_of s' x ≡ peer_of s x
  pub alone : peer_of s a ≡ null
  pub owner : cell_of s a ≡ k
  pub owners : (x : Ptr) → cell_of s' x ≡ cell_of s x
  pub tail_set : s'.tail k ≡ a
  pub tails : SameBut k s.tail s'.tail
  pub lives : (x : Ptr) → s'.live x ≡ s.live x
  pub same_ops : s'.ops ≡ s.ops
  pub same_pool : s'.pool ≡ s.pool

All-insert_chan {ℓ} :
    (P : Chan → Type ℓ) (o : Ptr) (d : Chan) (r : List Chan)
    → P d
    → All P r
    → All P (insert_chan o d r)
unfolding insert_chan
All-insert_chan P o d [] h v = tt
All-insert_chan P o d (c ∷ cs) h v = elim (Bool-cases (c.head == o)) [
  | inl hit ↦ rw hit (v.0, (h, v.1))
  | inr miss ↦ rw miss (v.0, All-insert_chan P o d cs h v.1)
]

-- A channel with the one entry `a`.
pub lone-IsChan :
    (s : Proxy) (k a : Ptr)
    → peer_of s a ≡ null
    → cell_of s a ≡ k
    → s.tail k ≡ a
    → k ≢ null
    → IsChan s (chan k a [])
lone-IsChan s k a alone own shown set = record {
  queued = (alone, tt);
  tail = shown;
  owned = λ x h. ground (arith, own);
  cell = set;
}

module _ {s s' : Proxy} {k o a : Ptr} (new : OpAdded s s' k o a) where
  open new use {
    nexts, to, back, peers, alone, owner, owners, tail_set, tails, lives, same_ops, same_pool,
  }

  chans-insert :
      (r : List Chan)
      → count k (cells r) ≡ 0
      → k ≢ null
      → All (IsChan s) r
      → All (IsChan s') (insert_chan o (chan k a []) r)
  chans-insert r out set v =
      All-insert_chan (IsChan s') o (chan k a []) r
        (lone-IsChan s' k a (peers a ∙ alone) (owners a ∙ owner) tail_set set)
        (chans-frame s s' r (λ x h. (peers x, owners x))
          (λ j h. tails j (ne_of_count j k (cells r) h out)) v)

  pub insert-IsRing :
      (r : List Chan) (free : List Ptr)
      → 0 < count o (heads r)
      → 0 < count s.ops (heads r)
      → count k (cells r) ≡ 0
      → k ≢ null
      → s.live a ≡ true
      → a ≢ null
      → count a (members r) + count a free ≡ 0
      → IsRing s r free
      → IsRing s' (insert_chan o (chan k a []) r) free
  insert-IsRing r free here at_ops new_chan k_set live set out v = record {
    front = OpsIn-heads s'.ops _ (
        rw heads-insert_chan
          (rw (count-insert_after s'.ops o a (heads r) here) (ground (arith, same_ops))));
    ring =
        rw (heads-insert_chan, first-insert_after)
          (Linked-insert_after (heads r) (next_of s) (next_of s') o a _
            (omega (arith, v.once o, count-heads-le o r)) (omega (arith, out, count-heads-le a r))
            nexts to back v.ring);
    chans = chans-insert r new_chan k_set v.chans;
    one_cell = λ j. rw (count-cells-insert_chan j o (chan k a []) r here) (
        omega
          (arith, count-add_fresh j k (cells r) [] (omega arith) (omega (arith, v.one_cell j))));
    quiet = λ j h.
        let old : count j (cells r) + count j (k ∷ []) ≡ 0 =
          rw (count-cells-insert_chan j o (chan k a []) r here) at h in
        tails j (λ e. absurd (ground (arith, old))) ∙ v.quiet j (omega arith);
    pooled =
        Linked-frame free (next_of s) (next_of s') null
          (λ x h.
            nexts x (ne_of_count x o free h (omega (arith, v.once o, count-heads-le o r)))
              (ne_of_count x a free h (omega arith)))
          v.pooled;
    pool_head = same_pool ∙ v.pool_head;
    once = λ x.
        rw (count-members-insert_chan x o (chan k a []) r here)
          (count-add_fresh x a (members r) free out (v.once x));
    alive = λ x h.
        owned_add s.live s'.live a (members r) free lives live set v.alive x
          (rw (count-members-insert_chan x o (chan k a []) r here) at h);
  }
