-- ===== src/Proxy/Allocate.antt =====
-- `allocateArgs` on a well-formed ring.
mod Block
mod Grow
mod Take
use flash_reduce_dev.Common.{
  ℕ, Bool, ◌+◌, ◌<◌, ◌≤◌, inl, inr, zero_or_pos, ◌≡◌, ◌≢◌, ◌∙◌, refl, ap, sym, true, false, List,
  [], ◌∷◌, ◌==◌, count, arith, ne→==, eq→==, count_self,
}
use flash_reduce_dev.Proxy.State.{Ptr, null, Proxy, Returns, Returns-then, Returns-weaken}
use flash_reduce_dev.Proxy.Memory.{payload}
use flash_reduce_dev.Proxy.Chain.{first}
use flash_reduce_dev.Proxy.Channels.{Chan, members}
use flash_reduce_dev.Proxy.Invariant.{next_of, peer_of, IsRing}
use flash_reduce_dev.Proxy.Queue.{allocate_size, in_block, grow_pool, take_elem, allocate_args}
use Block.{block, count-block_first, count-block-le}
use Grow.{block-in_block, Grown, grow_pool-Grown}
use Take.{Taken, take_elem-Taken}

-- The free entries after an allocation.
unfoldable pub rest_of_pool : (fresh : Ptr) → List Ptr → List Ptr
rest_of_pool fresh [] = block (fresh + 1) 31
rest_of_pool fresh (a ∷ free) = free

-- The entry `a` is not owned by the ring or the pool, has no links, and what was allocated before
-- stays as it is.
abbrev pub Allocated : Proxy → Ptr → List Chan → List Ptr → Ptr → Proxy → Type 0
Allocated s a r free e s' =
    (e ≡ a)
    × IsRing s' r free
    × (next_of s' a ≡ null)
    × (peer_of s' a ≡ null)
    × (s'.live a ≡ true)
    × (count a (members r) + count a free ≡ 0)
    × ((x : Ptr) → s.live x ≡ true → (x ≢ a → s'.node x ≡ s.node x) × (s'.live x ≡ true))

-- The entry and the rest make up the pool, or are new.
pub count-allocated :
    (x fresh : Ptr) (free : List Ptr) (live : Ptr → Bool) (old : ℕ)
    → ((x : Ptr) → in_block fresh x ≡ true → live x ≡ false)
    → (0 < old → live x ≡ true)
    → old + count x free ≤ 1
    → (old + (count x (first fresh free ∷ []) + count x (rest_of_pool fresh free)) ≤ 1)
      × (count x free ≤ count x (first fresh free ∷ []) + count x (rest_of_pool fresh free))
unfolding rest_of_pool
count-allocated x fresh (a ∷ free) live old new owned once = (omega (arith, once), omega arith)
count-allocated x fresh [] live old new owned once = (once_more, omega arith)
  where
    all_new : count x (block fresh 32) ≡ count x (fresh ∷ []) + count x (block (fresh + 1) 31)
    all_new = count-block_first x fresh 31

    once_more : old + (count x (fresh ∷ []) + count x (block (fresh + 1) 31)) ≤ 1
    once_more = elim (zero_or_pos (count x (block fresh 32))) [
      | inl out ↦ omega (arith, once, all_new, out)
      | inr here ↦ elim (zero_or_pos old) [
        | inl unowned ↦ omega (arith, all_new, unowned, count-block-le x fresh 32)
        | inr held ↦ absurd (ground (arith, new x (block-in_block fresh x here), owned held))
      ]
    ]

-- On a well-formed ring, with a new block that overlaps nothing allocated, the call returns the
-- head of the pool, or the first entry of the block if the pool is empty. The entry is allocated, with
-- null links, and neither queued nor free; the ring is as before and the pool keeps the rest.
pub allocate_args-Allocated :
    (s : Proxy) (fresh : Ptr) (r : List Chan) (free : List Ptr)
    → fresh ≢ null
    → ((x : Ptr) → in_block fresh x ≡ true → s.live x ≡ false)
    → IsRing s r free
    → Returns (Allocated s (first fresh free) r (rest_of_pool fresh free)) (allocate_args fresh s)
unfolding allocate_args rest_of_pool block
allocate_args-Allocated s fresh r [] set new v = simp (eq→== s.pool null v.pool_head) (
    Returns-then _ _ (grow_pool fresh s) (λ _. take_elem) (grow_pool-Grown s fresh r set new v)
      λ _ s' (ring, old).
        Returns-weaken _ _ (take_elem s') (take_elem-Taken s' fresh r (block (fresh + 1) 31) ring)
          λ e s'' (at, v', next, peer, on, out, same, lives). (
            at,
            v',
            next,
            peer,
            on,
            out,
            λ x h. let (n, l) = old x h in ((λ ne. same x ne ∙ n), lives x ∙ l),
          ))
allocate_args-Allocated s fresh r (a ∷ free) set new v = simp (ne→== s.pool null apart) (
    Returns-weaken _ _ (take_elem s) (take_elem-Taken s a r free v)
      λ e s'' (at, v', next, peer, on, out, same, lives).
        (at, v', next, peer, on, out, λ x h. (same x, lives x ∙ h)))
  where
    apart : s.pool ≢ null
    apart e = (v.alive a (omega (arith, count_self a free))).1 (sym v.pool_head ∙ e)
