-- ===== src/Proxy/Allocate/Take.antt =====
-- The head of the pool is handed out, with its links cleared.
use flash_reduce_dev.Common.{
  ◌+◌, ◌≡◌, ◌≢◌, ◌∙◌, refl, ap, true, List, [], ◌∷◌, count, arith, count_self,
}
use flash_reduce_dev.Proxy.State.{Ptr, null, ProxyArgs, Proxy, update, Returns}
use flash_reduce_dev.Proxy.Memory.{
  update_self, update-ne, update-keep, next_field, peer_field, cell_field,
}
use flash_reduce_dev.Proxy.Chain.{Linked-frame, ne_of_count}
use flash_reduce_dev.Proxy.Channels.{Chan, heads, members, count-heads-le}
use flash_reduce_dev.Proxy.Invariant.{next_of, peer_of, IsRing, chans-frame}
use flash_reduce_dev.Proxy.Queue.{take_elem}

-- The entry `a` is out of the pool, and nothing else has changed.
abbrev pub Taken : Proxy → Ptr → List Chan → List Ptr → Ptr → Proxy → Type 0
Taken s a r free e s' =
    (e ≡ a)
    × IsRing s' r free
    × (next_of s' a ≡ null)
    × (peer_of s' a ≡ null)
    × (s'.live a ≡ true)
    × (count a (members r) + count a free ≡ 0)
    × ((x : Ptr) → x ≢ a → s'.node x ≡ s.node x)
    × ((x : Ptr) → s'.live x ≡ s.live x)

module _ (s : Proxy) (a : Ptr) (r : List Chan) (free : List Ptr) where
  pub take_elem-Taken : IsRing s r (a ∷ free) → Returns (Taken s a r free) (take_elem s)
  unfolding take_elem
  take_elem-Taken v =
      simp (v.pool_head, live)
        (
          refl,
          record {
            front = v.front;
            ring =
                Linked-frame (heads r) (next_of s) _ _
                  (λ x h.
                    ap next_field (
                      kept x
                        (ne_of_count x a (heads r) h (omega (arith, out, count-heads-le a r)))))
                  v.ring;
            chans =
                chans-frame s _ r
                  (λ x h.
                    let same = kept x (ne_of_count x a (members r) h (omega (arith, out))) in
                    (ap peer_field same, ap cell_field same))
                  (λ j _. refl) v.chans;
            one_cell = v.one_cell;
            quiet = v.quiet;
            pooled =
                Linked-frame free (next_of s) _ null
                  (λ x h. ap next_field (kept x (ne_of_count x a free h (omega (arith, out)))))
                  v.pooled.1;
            pool_head = v.pooled.0;
            once = λ x. omega (arith, v.once x);
            alive = λ x h. v.alive x (omega arith);
          },
          update-keep next_field m a _ refl a ∙ ap next_field (update_self s.node a _),
          ap peer_field (update_self m a _),
          refl,
          out,
          kept,
          λ x. refl,
        )
    where
      live : s.live a ≡ true
      live = (v.alive a (omega (arith, count_self a free))).0

      m : Ptr → ProxyArgs
      m = update s.node a (record (s.node a) { next = null })

      out : count a (members r) + count a free ≡ 0
      out = omega (arith, v.once a, count_self a [])

      kept : (x : Ptr) → x ≢ a → update m a (record (m a) { next_peer = null }) x ≡ s.node x
      kept x ne = update-ne m a _ x ne ∙ update-ne s.node a _ x ne
