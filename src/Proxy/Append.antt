-- ===== src/Proxy/Append.antt =====
-- `ProxyArgsAppend` on a well-formed ring.
mod Peer
mod Op
use flash_reduce_dev.Common.{
  ◌+◌, ◌<◌, ◌≤◌, ◌≡◌, ◌≢◌, ◌∙◌, ap, sym, subst, refl, inl, inr, Bool, true, false, List, [], ◌∷◌,
  ◌++◌, ◌==◌, if◌then◌else◌, ltb, count, All, arith, Bool-cases, ==→eq, ==→ne, ne→==, eq→==,
  count-append, count-add_fresh, count_self,
}
use flash_reduce_dev.Proxy.State.{Ptr, null, ProxyArgs, Proxy, Returns, update}
use flash_reduce_dev.Proxy.Memory.{
  update_self, update-ne, update-keep, next_field, peer_field, cell_field, payload,
}
use flash_reduce_dev.Proxy.Chain.{
  first, last, Linked, SameBut, Linked-frame, Linked-snoc, Linked-insert_after, insert_after,
  count-last, ne_of_count, Linked-SameBut, ne_of_no_head, ne_of_count, Linked-SameBut,
  ne_of_no_head,
}
use flash_reduce_dev.Proxy.Channels.{
  Chan, chan, jobs, heads, cells, members, enqueue, insert_chan, heads-enqueue, cells-enqueue,
  count-members-enqueue, heads-insert_chan, count-cells-insert_chan, count-members-insert_chan,
  count-heads-le,
}
use flash_reduce_dev.Proxy.Invariant.{
  next_of, peer_of, cell_of, IsChan, OpsIn, IsRing, KeepsPeer, IsChan-frame, chans-frame, tail-mem,
  owned_add,
}
use Peer.{enqueue-IsRing}
use Op.{insert-IsRing, lone-IsChan}
use flash_reduce_dev.Proxy.Queue.{append_op, proxy_args_append}

-- Where the entry `a` of the channel `k` goes: behind the channel's last entry if it is queued,
-- else as a new operation, right behind `ops`.
unfoldable pub append_ring : (k a ops : Ptr) → List Chan → List Chan
append_ring k a ops [] = chan k a [] ∷ []
append_ring k a ops (c ∷ cs) =
    if ltb 0 (count k (cells (c ∷ cs)))
    then enqueue k a (c ∷ cs)
    else insert_chan ops (chan k a []) (c ∷ cs)

-- An entry that its caller may append: allocated, not queued, not free, and with no peer behind it.
pub record IsReady (s : Proxy) (r : List Chan) (free : List Ptr) (a : Ptr) : Type 0 where
  pub alive : s.live a ≡ true
  pub set : a ≢ null
  pub out : count a (members r) + count a free ≡ 0
  pub alone : peer_of s a ≡ null
  pub channel : cell_of s a ≢ null

-- Only links change, and no entry comes or goes.
abbrev pub LinksOnly : Proxy → Proxy → Type 0
LinksOnly s t =
    ((x : Ptr) → payload (t.node x) ≡ payload (s.node x))
    × ((x : Ptr) → t.live x ≡ s.live x)
    × (t.pool ≡ s.pool)

module _ (s : Proxy) (a : Ptr) (free : List Ptr) where
  abbrev pub k : Ptr
  k = cell_of s a

  abbrev pub Others : List Chan → Proxy → Type 0
  Others r s' = (x : Ptr) → x ≢ a → count x (members r) ≡ 0 → s'.node x ≡ s.node x

  abbrev pub Appended : (r r' : List Chan) → Type 0
  Appended r r' =
      Returns (λ _ s'. IsRing s' r' free × Others r s' × LinksOnly s s') (proxy_args_append a s)

  append_peer :
      (r : List Chan)
      → IsRing s r free
      → IsReady s r free a
      → 0 < count k (cells r)
      → Appended r (enqueue k a r)
  unfolding proxy_args_append
  append_peer r v ready queued =
      simp (ready.alive, ne→== k null ready.channel, ne→== (s.tail k) null shown.1, shown.0)
        (
          enqueue-IsRing {t = s.tail k}
              (record {
                shown = refl;
                peers = λ x ne. ap peer_field (update-ne s.node (s.tail k) _ x ne);
                hung = ap peer_field (update_self s.node (s.tail k) _);
                end =
                    ap peer_field (update-ne s.node (s.tail k) _ a (λ e. apart (sym e)))
                    ∙ ready.alone;
                owner = refl;
                owners = update-keep cell_field s.node (s.tail k) _ refl;
                tail_set = update_self s.tail k a;
                tails = λ x ne. update-ne s.tail k a x ne;
                nexts = update-keep next_field s.node (s.tail k) _ refl;
                lives = λ x. refl;
                same_ops = refl;
                same_pool = refl;
              })
              r free queued ready.alive ready.set ready.out v,
          (λ x ne out.
              update-ne s.node (s.tail k) _ x
                (λ e. ne_of_count (s.tail k) x (members r) member out (sym e))),
          (update-keep payload s.node (s.tail k) _ refl, (λ x. refl), refl),
        )
    where
      member : 0 < count (s.tail k) (members r)
      member = tail-mem s k r v.chans queued

      shown : (s.live (s.tail k) ≡ true) × (s.tail k ≢ null)
      shown = v.alive (s.tail k) (omega (arith, member))

      apart : s.tail k ≢ a
      apart = ne_of_count (s.tail k) a (members r) member (omega (arith, ready.out))

  append_first : IsRing s [] free → IsReady s [] free a → Appended [] (chan k a [] ∷ [])
  unfolding proxy_args_append
  append_first v ready =
      simp
        (
          ready.alive,
          ne→== k null ready.channel,
          eq→== (s.tail k) null (v.quiet k refl),
          eq→== s.ops null v.front,
        )
        (
          record {
            front = count_self a [];
            ring = (ap next_field (update_self s.node a _), tt);
            chans = (
              lone-IsChan _ k a (ap peer_field (update_self s.node a _) ∙ ready.alone)
                  (ap cell_field (update_self s.node a _)) (update_self s.tail k a) ready.channel,
              tt,
            );
            one_cell = λ j. omega (arith, count-add_fresh j k [] [] refl (omega arith));
            quiet = λ j h. update-ne s.tail k a j (ne_of_no_head j k [] h) ∙ v.quiet j refl;
            pooled =
                Linked-SameBut free (next_of s) _ a null
                  (λ x ne. ap next_field (update-ne s.node a _ x ne)) (omega (arith, ready.out))
                  v.pooled;
            pool_head = v.pool_head;
            once = λ x. omega (arith, count-add_fresh x a [] free ready.out (v.once x));
            alive = λ x h.
                owned_add s.live s.live a [] free (λ y. refl) ready.alive ready.set v.alive x
                  (omega arith);
          },
          (λ x ne out. update-ne s.node a _ x ne),
          (update-keep payload s.node a _ refl, (λ x. refl), refl),
        )

  append_op-behind :
      (r : List Chan)
      → 0 < count s.ops (heads r)
      → IsRing s r free
      → IsReady s r free a
      → count k (cells r) ≡ 0
      → Appended r (insert_chan s.ops (chan k a []) r)
  unfolding proxy_args_append
  append_op-behind r here v ready new =
      simp
        (
          ready.alive,
          ne→== k null ready.channel,
          eq→== (s.tail k) null (v.quiet k new),
          ne→== s.ops null shown.1,
          shown.0,
        )
        (
          insert-IsRing {o = s.ops}
              (record {
                nexts = λ x ne ne'.
                    ap next_field (update-ne node s.ops _ x ne ∙ update-ne s.node a _ x ne');
                to = ap next_field (update_self node s.ops _);
                back =
                    ap next_field
                      (update-ne node s.ops _ a (λ e. apart (sym e)) ∙ update_self s.node a _);
                peers = λ x.
                    update-keep peer_field node s.ops _ refl x
                    ∙ update-keep peer_field s.node a _ refl x;
                alone = ready.alone;
                owner = refl;
                owners = λ x.
                    update-keep cell_field node s.ops _ refl x
                    ∙ update-keep cell_field s.node a _ refl x;
                tail_set = update_self s.tail k a;
                tails = λ x ne. update-ne s.tail k a x ne;
                lives = λ x. refl;
                same_ops = refl;
                same_pool = refl;
              })
              r free here here new ready.channel ready.alive ready.set ready.out v,
          (λ x ne out.
              update-ne node s.ops _ x (λ e.
                ne_of_count s.ops x (members r) (omega (arith, here, count-heads-le s.ops r)) out
                  (sym e))
              ∙ update-ne s.node a _ x ne),
          (
            (λ x. update-keep payload node s.ops _ refl x ∙ update-keep payload s.node a _ refl x),
            (λ x. refl),
            refl,
          ),
        )
    where
      node : Ptr → ProxyArgs
      node = update s.node a (record (s.node a) { next = next_of s s.ops })

      shown : (s.live s.ops ≡ true) × (s.ops ≢ null)
      shown = v.alive s.ops (omega (arith, here, count-heads-le s.ops r))

      apart : s.ops ≢ a
      apart =
          ne_of_count s.ops a (members r) (omega (arith, count-heads-le s.ops r))
            (omega (arith, ready.out))

  -- Appending a ready entry to a well-formed ring meets no dangling pointer. The entry goes to the
  -- end of its channel's queue, or becomes the operation behind `ops` when the channel has nothing
  -- queued; the ring is well-formed again, of the queued entries
  -- and the new one only links change, and the others stay as they are.
  pub append-IsRing :
      (r : List Chan) → IsRing s r free → IsReady s r free a → Appended r (append_ring k a s.ops r)
  unfolding append_ring
  append-IsRing [] v ready = append_first v ready
  append-IsRing (c ∷ cs) v ready = elim (Bool-cases (ltb 0 (count k (cells (c ∷ cs))))) [
    | inl queued ↦ rw queued (append_peer (c ∷ cs) v ready (ground (arith, queued)))
    | inr new ↦ rw new (append_op-behind (c ∷ cs) v.front v ready (ground (arith, new)))
  ]
