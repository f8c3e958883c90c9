-- ===== src/Proxy/Advance/Retire.antt =====
-- The four paths on which a finished operation `f` of csrc/proxy.cc leaves the ring.
use flash_reduce_dev.Common.{
  ◌<◌, ◌≤◌, ◌≡◌, ◌≢◌, ◌∙◌, refl, sym, ap, true, List, [], ◌∷◌, ◌++◌, count, arith, count-append,
  count_self,
}
use flash_reduce_dev.Proxy.State.{Ptr, null, Proxy, Returns}
use flash_reduce_dev.Proxy.Memory.{
  update_self, update-ne, update-keep, next_field, peer_field, but_next,
}
use flash_reduce_dev.Proxy.Chain.{first, last, Linked, count-last, ne_of_count, ne_of_no_head}
use flash_reduce_dev.Proxy.Channels.{Chan, chan, heads, members, count-heads-le}
use flash_reduce_dev.Proxy.Invariant.{next_of, cell_of, IsChan, IsRing}
use flash_reduce_dev.Proxy.Rotate.{Linked-set_last}
use flash_reduce_dev.Proxy.Thread.{retire}
use flash_reduce_dev.Proxy.Advance.Promote.{promote-IsRing, remove-IsRing}
use flash_reduce_dev.Proxy.Advance.Paths.{
  recycled-Freed, cleared, relinked, unlink_alone, unlink_behind, unlink_alone-peer,
  unlink_behind-peer, retire_lem,
}

-- `f` joins the pool, `r` is left of the ring, the result is its operation, and the entries keep all
-- but `next`.
abbrev pub Retired : Proxy → (op f : Ptr) → List Chan → List Ptr → Type 0
Retired s op f r free =
    Returns
      (λ q s'.
        IsRing s' r (f ∷ free)
        × (q ≡ first null (heads r))
        × ((x : Ptr) → but_next (s'.node x) ≡ but_next (s.node x))
        × ((x : Ptr) → s'.live x ≡ s.live x))
      (retire op f s)

module _ (s : Proxy) {k f : Ptr} {free : List Ptr} where
  -- The ring has no other operation, and the channel no other entry.
  pub retire_last : IsRing s (chan k f [] ∷ []) free → Retired s f f [] free
  retire_last v =
      rw (retire_lem s f f {m = m} (unlink_alone s live old.queued.0 own old.cell) live) (
        remove-IsRing v
            (recycled-Freed s m f null [] (λ x _. refl) (λ x. refl) (λ x. refl) (λ x. refl) refl
              refl)
            (update_self s.tail k null) (λ x ne. update-ne s.tail k null x ne) tt,
        refl,
        update-keep but_next m.node f _ refl,
        λ x. refl,
      )
    where
      old : IsChan s (chan k f [])
      old = v.chans.0

      live : s.live f ≡ true
      live = (v.alive f (omega (arith, count_self f []))).0

      own : cell_of s f ≡ k
      own = v.chans.0.owned f (count_self f [])

      m : Proxy
      m = cleared s k

  -- The ring has no other operation.
  pub retire_last-peer :
      (y : Ptr) (ys : List Ptr)
      → IsRing s (chan k f (y ∷ ys) ∷ []) free
      → Retired s f f (chan k y ys ∷ []) free
  retire_last-peer y ys v =
      rw
        (retire_lem s f f {m = m} (unlink_alone-peer s live v.chans.0.queued.0 own_y.1 own_y.0)
          live)
        (
          promote-IsRing v
              (recycled-Freed s m f y (y ∷ [])
                (λ x out. ap next_field (update-ne s.node y _ x (ne_of_no_head x y [] out)))
                (update-keep but_next s.node y _ refl) (update-keep peer_field s.node y _ refl)
                (λ x. refl) refl refl)
              (λ j. refl)
              (ap next_field (update-ne m.node f _ y apart ∙ update_self s.node y _), tt),
          refl,
          (λ x. update-keep but_next m.node f _ refl x ∙ update-keep but_next s.node y _ refl x),
          λ x. refl,
        )
    where
      live : s.live f ≡ true
      live = (v.alive f (omega (arith, count_self f (y ∷ ys ++ [])))).0

      own_y : (s.live y ≡ true) × (y ≢ null)
      own_y = v.alive y (omega (arith, count_self y (ys ++ [])))

      apart : y ≢ f
      apart = λ e.
          ne_of_count y f (y ∷ ys ++ []) (count_self y (ys ++ []))
            (omega (arith, v.once f, count_self f [])) e

      m : Proxy
      m = relinked s y y

-- The operation that comes last when the ring is read from `e` on.
abbrev pub last_op : Chan → List Chan → Ptr
last_op e es = last e.head (heads es)

-- What a well-formed ring says of the entries on the paths behind another operation.
record Apart (s : Proxy) (f : Ptr) (ps : List Ptr) (e : Chan) (es : List Chan) : Type 0 where
  on : s.live f ≡ true
  on_op : s.live (last_op e es) ≡ true
  apart : last_op e es ≢ f
  one_op : count (last_op e es) (heads (e ∷ es)) ≡ 1
  no_f : count f (ps ++ members (e ∷ es)) ≡ 0
  no_head : count f (heads (e ∷ es)) ≡ 0
  not_op : (x : Ptr) → count x (heads (e ∷ es)) ≡ 0 → x ≢ last_op e es

ring-Apart :
    (s : Proxy) (k f : Ptr) (ps : List Ptr) (e : Chan) (es : List Chan) (free : List Ptr)
    → IsRing s (chan k f ps ∷ e ∷ es) free
    → Apart s f ps e es
ring-Apart s k f ps e es free v = record {
  on = (v.alive f (omega (arith, self))).0;
  on_op = (v.alive (last_op e es) (omega (arith, at_op, inside (last_op e es)))).0;
  apart = ne_of_count (last_op e es) f (heads (e ∷ es)) at_op no_head;
  one_op = omega (arith, v.once (last_op e es), at_op, inside (last_op e es));
  no_f = omega (arith, v.once f, self);
  no_head = no_head;
  not_op = λ x out q. ne_of_count (last_op e es) x (heads (e ∷ es)) at_op out (sym q);
}
  where
    self : 0 < count f (f ∷ [])
    self = count_self f []

    at_op : 0 < count (last_op e es) (heads (e ∷ es))
    at_op = count-last e.head (heads es)

    inside : (x : Ptr) → count x (heads (e ∷ es)) ≤ count x (ps ++ members (e ∷ es))
    inside x = omega (arith, count-append x ps (members (e ∷ es)), count-heads-le x (e ∷ es))

    no_head : count f (heads (e ∷ es)) ≡ 0
    no_head = omega (arith, v.once f, self, inside f)

-- `last_op` closes the ring again, over `f`.
close-Linked :
    (f g : Ptr → Ptr) (e : Chan) (es : List Chan) (z w : Ptr)
    → count (last_op e es) (heads (e ∷ es)) ≡ 1
    → ((a : Ptr) → 0 < count a (heads (e ∷ es)) → a ≢ last_op e es → g a ≡ f a)
    → g (last_op e es) ≡ w
    → Linked f z (heads (e ∷ es))
    → Linked g w (heads (e ∷ es))
close-Linked f g e es z w = Linked-set_last e.head (heads es) f g z w

module _ (s : Proxy) {k f : Ptr} (e : Chan) (es : List Chan) {free : List Ptr} where
  -- The channel has no other entry.
  pub retire_behind :
      IsRing s (chan k f [] ∷ e ∷ es) free → Retired s (last_op e es) f (e ∷ es) free
  retire_behind v =
      rw
        (retire_lem s (last_op e es) f {m = m}
          (unlink_behind s a.on a.on_op a.apart v.ring.0 v.chans.0.queued.0
            (v.chans.0.owned f (count_self f [])) v.chans.0.cell)
          a.on)
        (
          remove-IsRing v
              (recycled-Freed s m f e.head (heads (e ∷ es))
                (λ x out. ap next_field (update-ne s.node (last_op e es) _ x (a.not_op x out)))
                (update-keep but_next s.node (last_op e es) _ refl)
                (update-keep peer_field s.node (last_op e es) _ refl) (λ x. refl) refl refl)
              (update_self s.tail k null) (λ x ne. update-ne s.tail k null x ne)
              (close-Linked (next_of s) _ e es _ _ a.one_op
                (λ x h ne. ap next_field (
                  update-ne m.node f _ x (ne_of_count x f (heads (e ∷ es)) h a.no_head)
                  ∙ update-ne s.node (last_op e es) _ x ne))
                (ap next_field (
                  update-ne m.node f _ (last_op e es) a.apart
                  ∙ update_self s.node (last_op e es) _))
                v.ring.1),
          refl,
          (λ x.
              update-keep but_next m.node f _ refl x
              ∙ update-keep but_next s.node (last_op e es) _ refl x),
          λ x. refl,
        )
    where
      a : Apart s f [] e es
      a = ring-Apart s k f [] e es free v

      m : Proxy
      m = relinked (cleared s k) (last_op e es) e.head

  -- The channel has a next entry, `y`.
  pub retire_behind-peer :
      (y : Ptr) (ys : List Ptr)
      → IsRing s (chan k f (y ∷ ys) ∷ e ∷ es) free
      → Retired s (last_op e es) f (chan k y ys ∷ e ∷ es) free
  retire_behind-peer y ys v =
      rw
        (retire_lem s (last_op e es) f {m = m}
          (unlink_behind-peer s a.on a.on_op a.apart v.ring.0 v.chans.0.queued.0 own_y.1 own_y.0)
          a.on)
        (
          promote-IsRing v
              (recycled-Freed s m f y (y ∷ heads (e ∷ es))
                (λ x out. ap next_field (
                  update-ne m'.node (last_op e es) _ x (a.not_op x (omega (arith, out)))
                  ∙ update-ne s.node y _ x (ne_of_no_head x y (heads (e ∷ es)) out)))
                (λ x.
                  update-keep but_next m'.node (last_op e es) _ refl x
                  ∙ update-keep but_next s.node y _ refl x)
                (λ x.
                  update-keep peer_field m'.node (last_op e es) _ refl x
                  ∙ update-keep peer_field s.node y _ refl x)
                (λ x. refl) refl refl)
              (λ j. refl)
              (
                ap next_field (
                    update-ne m.node f _ y (λ q. no_y.1 (sym q))
                    ∙ update-ne m'.node (last_op e es) _ y (a.not_op y no_y.0)
                    ∙ update_self s.node y _),
                close-Linked (next_of s) _ e es _ _ a.one_op
                    (λ x h ne. ap next_field (
                      update-ne m.node f _ x (ne_of_count x f (heads (e ∷ es)) h a.no_head)
                      ∙ update-ne m'.node (last_op e es) _ x ne
                      ∙ update-ne s.node y _ x (ne_of_count x y (heads (e ∷ es)) h no_y.0)))
                    (ap next_field (
                      update-ne m.node f _ (last_op e es) a.apart
                      ∙ update_self m'.node (last_op e es) _))
                    v.ring.1,
              ),
          refl,
          (λ x.
              update-keep but_next m.node f _ refl x
              ∙ update-keep but_next m'.node (last_op e es) _ refl x
              ∙ update-keep but_next s.node y _ refl x),
          λ x. refl,
        )
    where
      a : Apart s f (y ∷ ys) e es
      a = ring-Apart s k f (y ∷ ys) e es free v

      self : 0 < count y (y ∷ ys ++ members (e ∷ es))
      self = count_self y (ys ++ members (e ∷ es))

      own_y : (s.live y ≡ true) × (y ≢ null)
      own_y = v.alive y (omega (arith, self))

      no_y : (count y (heads (e ∷ es)) ≡ 0) × (f ≢ y)
      no_y = (
        omega (
          arith,
          v.once y,
          count_self y [],
          count-append y ys (members (e ∷ es)),
          count-heads-le y (e ∷ es),
        ),
        λ q. ne_of_no_head f y (ys ++ members (e ∷ es)) a.no_f q,
      )

      m' : Proxy
      m' = relinked s y e.head

      m : Proxy
      m = relinked m' (last_op e es) y
