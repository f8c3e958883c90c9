-- ===== src/Proxy/Soundness/Links.antt =====
-- Writes to entries of csrc/proxy.cc that leave their links alone.
use flash_reduce_dev.Common.{◌+◌, ◌<◌, ◌∙◌, refl, Bool, sym, List, count, arith}
use flash_reduce_dev.Proxy.State.{Ptr, null, ProxyArgs, Proxy, update}
use flash_reduce_dev.Proxy.Memory.{update-keep, next_field, peer_field, cell_field}
use flash_reduce_dev.Proxy.Chain.{Linked-frame}
use flash_reduce_dev.Proxy.Channels.{Chan, heads, members, count-heads-le}
use flash_reduce_dev.Proxy.System.{SameLinks}
use flash_reduce_dev.Proxy.Invariant.{next_of, IsRing, chans-frame}

module _ (s : Proxy) (node : Ptr → ProxyArgs) (r : List Chan) (free : List Ptr) where
  pub IsRing-links :
      ((x : Ptr) → 0 < count x (members r) + count x free → SameLinks (s.node x) (node x))
      → IsRing s r free
      → IsRing (record s { node = node }) r free
  IsRing-links same v = record {
    front = v.front;
    ring =
        Linked-frame (heads r) (next_of s) _ _
          (λ x h. (same x (omega (arith, count-heads-le x r))).0) v.ring;
    chans =
        chans-frame s (record s { node = node }) r
          (λ x h. let (n, q, c) = same x (omega arith) in (q, c)) (λ k h. refl) v.chans;
    one_cell = v.one_cell;
    quiet = v.quiet;
    pooled = Linked-frame free (next_of s) _ null (λ x h. (same x (omega arith)).0) v.pooled;
    pool_head = v.pool_head;
    once = v.once;
    alive = v.alive;
  }

pub update-SameLinks :
    (node : Ptr → ProxyArgs) (p : Ptr) (n : ProxyArgs)
    → SameLinks (node p) n
    → (x : Ptr) → SameLinks (node x) (update node p n x)
update-SameLinks node p n (a, b, c) x = (
  update-keep next_field node p n a x,
  update-keep peer_field node p n b x,
  update-keep cell_field node p n c x,
)

pub update-SameLinks_twice :
    (node : Ptr → ProxyArgs) (p : Ptr) (n m : ProxyArgs)
    → SameLinks (node p) n
    → SameLinks (node p) m
    → (x : Ptr) → SameLinks (node x) (update (update node p n) p m x)
update-SameLinks_twice node p n m keep (a, b, c) x =
    let (a', b', c') = update-SameLinks node p n keep p in
    let (a1, b1, c1) = update-SameLinks node p n keep x in
    let (a2, b2, c2) =
      update-SameLinks (update node p n) p m (a ∙ sym a', b ∙ sym b', c ∙ sym c') x in
    (a2 ∙ a1, b2 ∙ b1, c2 ∙ c1)

-- `stop` is no part of the ring.
pub set_stop :
    (b : Bool) (s : Proxy) (r : List Chan) (free : List Ptr)
    → IsRing s r free
    → IsRing (record s { stop = b }) r free
set_stop b s r free v = record {
  front = v.front;
  ring = v.ring;
  chans = chans-frame s _ r (λ x h. (refl, refl)) (λ k h. refl) v.chans;
  one_cell = v.one_cell;
  quiet = v.quiet;
  pooled = v.pooled;
  pool_head = v.pool_head;
  once = v.once;
  alive = v.alive;
}
