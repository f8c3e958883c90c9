-- ===== src/Proxy/Soundness/Client.antt =====
-- The clients' steps.
use flash_reduce_dev.Common.{
  ◌+◌, ◌<◌, ◌≤◌, ◌≡◌, ◌≢◌, ◌∙◌, subst, sym, ap, inl, inr, true, false, List, [], ◌∷◌, ◌==◌, count,
  arith, Bool-cases, ==→eq, ==→ne, count_self, ltb, zero_or_pos,
}
use flash_reduce_dev.Proxy.State.{Ptr, null, ProxyArgs, Proxy, update, Returns, Returns-then}
use flash_reduce_dev.Proxy.Memory.{update-ne, next_field, peer_field, cell_field}
use flash_reduce_dev.Proxy.Chain.{first, ne_of_count, count-insert_after}
use flash_reduce_dev.Proxy.Channels.{
  Chan, chan, heads, cells, members, heads-enqueue, heads-insert_chan, count-members-enqueue,
  count-members-insert_chan,
}
use flash_reduce_dev.Proxy.Invariant.{peer_of, cell_of, OpsIn}
use flash_reduce_dev.Proxy.Queue.{in_block, allocate_args, proxy_args_append}
use flash_reduce_dev.Proxy.Append.{append_ring, append-IsRing}
use flash_reduce_dev.Proxy.Allocate.{rest_of_pool, allocate_args-Allocated, count-allocated}
use flash_reduce_dev.Proxy.Thread.{Phase, Thread}
use flash_reduce_dev.Proxy.System.{
  SameLinks, Event, allocate, fill, append, remove, perform, OpAt, owners, IsSound, IsSoundAfter,
}
use flash_reduce_dev.Proxy.Soundness.Links.{IsRing-links}

count-remove :
    (x a : Ptr) (xs : List Ptr)
    → 0 < count a xs
    → count x (remove a xs) + count x (a ∷ []) ≡ count x xs
count-remove x a [] h = absurd (omega arith)
count-remove x a (y ∷ ys) h = elim (Bool-cases (y == a)) [
  | inl hit ↦ rw hit (omega (arith, ap (λ z. count x (z ∷ [])) (==→eq y a hit)))
  | inr miss ↦ rw miss (omega (arith, count-remove x a ys (ground (arith, miss))))
]

module _ (k a ops : Ptr) where
  count-append_ring :
      (x : Ptr) (r : List Chan)
      → OpsIn ops r
      → count x (members (append_ring k a ops r)) ≡ count x (members r) + count x (a ∷ [])
  unfolding append_ring
  count-append_ring x [] at = omega arith
  count-append_ring x (c ∷ cs) at = elim (Bool-cases (ltb 0 (count k (cells (c ∷ cs))))) [
    | inl queued ↦ rw queued (count-members-enqueue x k a (c ∷ cs) (ground (arith, queued)))
    | inr new ↦ rw new (count-members-insert_chan x ops (chan k a []) (c ∷ cs) at)
  ]

  heads-append_ring :
      (x : Ptr) (r : List Chan)
      → OpsIn ops r
      → count x (heads r) ≤ count x (heads (append_ring k a ops r))
  unfolding append_ring
  heads-append_ring x [] at = omega arith
  heads-append_ring x (c ∷ cs) at = elim (Bool-cases (ltb 0 (count k (cells (c ∷ cs))))) [
    | inl queued ↦ rw queued (omega (arith, ap (count x) (heads-enqueue k a (c ∷ cs))))
    | inr new ↦ rw new (
        omega (
          arith,
          ap (count x) (heads-insert_chan ops (chan k a []) (c ∷ cs)),
          count-insert_after x ops a (heads (c ∷ cs)) at,
        ))
  ]

-- The thread's operation stays one when operations join the ring.
OpAt-grow :
    (ph : Phase) (p : Ptr) (r q : List Chan)
    → count p (heads r) ≤ count p (heads q)
    → OpAt ph p r
    → OpAt ph p q
OpAt-grow Phase.polling p r q le (inl e) = inl e
OpAt-grow Phase.polling p r q le (inr h) = inr (omega arith)
OpAt-grow Phase.waiting p r q le (inl e) = inl e
OpAt-grow Phase.waiting p r q le (inr h) = inr (omega arith)
OpAt-grow Phase.working p r q le h = omega arith
OpAt-grow Phase.advancing p r q le h = omega arith
OpAt-grow Phase.returned p r q le h = tt

first-set :
    (free : List Ptr) (fresh : Ptr)
    → fresh ≢ null
    → ((x : Ptr) → 0 < count x free → x ≢ null)
    → first fresh free ≢ null
first-set [] fresh set sets = set
first-set (a ∷ free) fresh set sets = sets a (count_self a free)

module _ (s : Proxy) (t : Thread) (r : List Chan) (free held : List Ptr)
    (v : IsSound s t r free held) where
  abbrev pub Performed : Event → Type 0
  Performed e = Returns (λ p s'. IsSoundAfter r free held p s') (perform e t held s)

  pub allocate-IsSound :
      (fresh : Ptr)
      → fresh ≢ null
      → ((x : Ptr) → in_block fresh x ≡ true → s.live x ≡ false)
      → Performed (allocate fresh)
  allocate-IsSound fresh set new =
      Returns-then _ _ (allocate_args fresh s) _
        (allocate_args-Allocated s fresh r free set new v.ring)
        λ a s' (at, ring, next, peer, on, out, old). record {
          ring_after = r;
          free_after = rest_of_pool fresh free;
          sound = record {
            ring = ring;
            op_at = v.op_at;
            one_owner = λ x. omega (arith, (total x).0, ap (λ z. count x (z ∷ [])) at);
            ready = λ x h. allocated a s' at peer on old x h;
          };
          none_lost = λ x. omega (arith, (total x).1, ap (λ z. count x (z ∷ [])) at);
        }
    where
      live : (x : Ptr) → 0 < count x held + count x (members r) → s.live x ≡ true
      live x h = elim (zero_or_pos (count x held)) [
        | inl not_held ↦ (v.ring.alive x (omega (arith, not_held))).0
        | inr here ↦ (v.ready x here).0
      ]

      total :
          (x : Ptr)
          → (count x held
                + count x (members r)
                + (count x (first fresh free ∷ []) + count x (rest_of_pool fresh free))
              ≤ 1)
            × (count x free ≤ count x (first fresh free ∷ []) + count x (rest_of_pool fresh free))
      total x =
          count-allocated x fresh free s.live (count x held + count x (members r)) new (live x)
            (omega (arith, v.one_owner x))

      allocated :
          (a : Ptr) (s' : Proxy)
          → a ≡ first fresh free
          → peer_of s' (first fresh free) ≡ null
          → s'.live (first fresh free) ≡ true
          → ((x : Ptr)
              → s.live x ≡ true
              → (x ≢ first fresh free → s'.node x ≡ s.node x) × (s'.live x ≡ true))
          → (x : Ptr) → 0 < count x (a ∷ held)
          → (s'.live x ≡ true) × (x ≢ null) × (peer_of s' x ≡ null)
      allocated a s' at peer on old x h = elim (Bool-cases (a == x)) [
        | inl hit ↦
            subst (λ z. (s'.live z ≡ true) × (z ≢ null) × (peer_of s' z ≡ null))
              (sym at ∙ ==→eq a x hit)
              (on, first-set free fresh set (λ y here. (v.ring.alive y (omega arith)).1), peer)
        | inr miss ↦
            let (live, set, alone) = v.ready x (ground (arith, miss)) in
            let (node, on) = old x live in
            (on, set, ap peer_field (node (λ e. ==→ne a x miss (at ∙ sym e))) ∙ alone)
      ]

  module _ (a : Ptr) (mine : 0 < count a held) where
    out : (count a held ≡ 1) × (count a (members r) + count a free ≡ 0)
    out = (omega (arith, v.one_owner a), omega (arith, v.one_owner a))

    ready_a : (s.live a ≡ true) × (a ≢ null) × (peer_of s a ≡ null)
    ready_a = v.ready a mine

    pub fill-IsSound : (n : ProxyArgs) → n.next_peer ≡ null → Performed (fill a n)
    fill-IsSound n alone = simp (ready_a.0) (record {
      ring_after = r;
      free_after = free;
      sound = record {
        ring = IsRing-links s _ r free (λ x h. same_links x h) v.ring;
        op_at = v.op_at;
        one_owner = v.one_owner;
        ready = λ x h. filled x h;
      };
      none_lost = λ x. omega arith;
    })
      where
        apart : (x : Ptr) → 0 < count x (members r) + count x free → x ≢ a
        apart x h e = absurd (omega (arith, out.1, ap (λ z. count z (members r) + count z free) e))

        same_links :
            (x : Ptr)
            → 0 < count x (members r) + count x free
            → SameLinks (s.node x) (update s.node a n x)
        same_links x h =
            let e = update-ne s.node a n x (apart x h) in
            (ap next_field e, ap peer_field e, ap cell_field e)

        filled :
            (x : Ptr)
            → 0 < count x held
            → (s.live x ≡ true) × (x ≢ null) × ((update s.node a n x).next_peer ≡ null)
        filled x h =
            let (live, set, old) = v.ready x h in
            (
              live,
              set,
              elim (Bool-cases (x == a)) [ inl hit ↦ rw hit alone | inr miss ↦ rw miss old ],
            )

    pub append-IsSound : cell_of s a ≢ null → Performed (append a)
    append-IsSound channel =
        Returns-then _ _ (proxy_args_append a s) _
          (append-IsRing s a free r v.ring (record {
            alive = ready_a.0;
            set = ready_a.1;
            out = out.1;
            alone = ready_a.2;
            channel = channel;
          }))
          λ _ s' (ring, others, links). record {
            ring_after = append_ring (cell_of s a) a s.ops r;
            free_after = free;
            sound = record {
              ring = ring;
              op_at =
                  OpAt-grow t.phase t.op r _ (heads-append_ring _ a s.ops t.op r v.ring.front)
                    v.op_at;
              one_owner = λ x. omega (arith, v.one_owner x, moved x);
              ready = λ x h.
                  let (live, set, alone) =
                    v.ready x (omega (arith, h, count-remove x a held mine)) in
                  (
                    links.1 x ∙ live,
                    set,
                    ap peer_field (others x (apart x h) (omega (arith, v.one_owner x, still x h)))
                        ∙ alone,
                  );
            };
            none_lost = λ x. omega (arith, moved x);
          }
      where
        still : (x : Ptr) → 0 < count x (remove a held) → 0 < count x held
        still x h = omega (arith, h, count-remove x a held mine)

        apart : (x : Ptr) → 0 < count x (remove a held) → x ≢ a
        apart x h =
            ne_of_count x a (remove a held) h
              (omega (arith, out.0, count-remove a a held mine, count_self a []))

        moved :
            (x : Ptr)
            → owners x (append_ring (cell_of s a) a s.ops r) free (remove a held)
              ≡ owners x r free held
        moved x = omega (
          arith,
          count-remove x a held mine,
          count-append_ring (cell_of s a) a s.ops x r v.ring.front,
        )
