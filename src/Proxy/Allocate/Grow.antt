-- ===== src/Proxy/Allocate/Grow.antt =====
-- A new block joins the empty pool.
use flash_reduce_dev.Common.{
  ℕ, zero, suc, ◌+◌, ◌<◌, ◌≤◌, ◌≡◌, ◌≢◌, ◌⊎◌, ◌∙◌, refl, ap, inl, inr, true, false, List, [],
  if◌then◌else◌, count, arith, Bool-cases, zero_or_pos, ne→==,
}
use flash_reduce_dev.Proxy.State.{Ptr, null, ProxyArgs, Proxy, zeroed, Returns}
use flash_reduce_dev.Proxy.Memory.{next_field, peer_field, cell_field}
use flash_reduce_dev.Proxy.Chain.{Linked, Linked-frame}
use flash_reduce_dev.Proxy.Channels.{Chan, heads, members, count-heads-le}
use flash_reduce_dev.Proxy.Invariant.{next_of, IsRing, chans-frame}
use flash_reduce_dev.Proxy.Queue.{allocate_size, in_block, link_elems, grow_pool}
use flash_reduce_dev.Proxy.Allocate.Block.{
  block, block-range, count-block-le, touched, link_elems_lem,
}

-- The memory with the new block.
abbrev grown : Ptr → (Ptr → ProxyArgs) → Ptr → ProxyArgs
grown fresh node =
    link_elems fresh 0 allocate_size (λ a. if in_block fresh a then zeroed else node a)

module _ (fresh : Ptr) (node : Ptr → ProxyArgs) where
  grown-old : (x : Ptr) → in_block fresh x ≡ false → grown fresh node x ≡ node x
  grown-old x out = link_elems_lem fresh 0 allocate_size _ x refl ∙ rw (untouched, out) refl
    where
      untouched : touched fresh 0 x ≡ false
      untouched = ground (arith, out)

  grown-inner :
      (x : Ptr) → fresh ≤ x → x + 1 < fresh + allocate_size → (grown fresh node x).next ≡ x + 1
  grown-inner x lo hi =
      ap next_field (link_elems_lem fresh 0 allocate_size _ x refl) ∙ rw inside refl
    where
      inside : touched fresh 0 x ≡ true
      inside = ground arith

  grown-end : (x : Ptr) → x + 1 ≡ fresh + allocate_size → (grown fresh node x).next ≡ null
  grown-end x e =
      ap next_field (link_elems_lem fresh 0 allocate_size _ x refl) ∙ rw (last, inside) refl
    where
      last : touched fresh 0 x ≡ false
      last = ground arith

      inside : in_block fresh x ≡ true
      inside = ground arith

  block-Linked :
      (b n : ℕ)
      → fresh ≤ b
      → b + n ≡ fresh + allocate_size
      → Linked (λ a. (grown fresh node a).next) null (block b n)
  unfolding block
  block-Linked b zero lo e = tt
  block-Linked b (suc zero) lo e = (grown-end b (omega arith), tt)
  block-Linked b (suc (suc n)) lo e =
      (grown-inner b lo (omega arith), block-Linked (b + 1) (suc n) (omega arith) (omega arith))

in_block-range : (fresh x : Ptr) → fresh ≤ x → x < fresh + allocate_size → in_block fresh x ≡ true
in_block-range fresh x lo hi = ground arith

pub block-in_block :
    (fresh x : Ptr) → 0 < count x (block fresh allocate_size) → in_block fresh x ≡ true
block-in_block fresh x h =
    let (lo, hi) = block-range x fresh allocate_size h in in_block-range fresh x lo hi

module _ (s : Proxy) (fresh : Ptr) (r : List Chan) where
  -- The pool then holds the block, in order; the old entries stay as they are.
  abbrev pub Grown : Proxy → Type 0
  Grown s' =
      IsRing s' r (block fresh allocate_size)
      × ((x : Ptr) → s.live x ≡ true → (s'.node x ≡ s.node x) × (s'.live x ≡ true))

  pub grow_pool-Grown :
      fresh ≢ null
      → ((x : Ptr) → in_block fresh x ≡ true → s.live x ≡ false)
      → IsRing s r []
      → Returns (λ _ s'. Grown s') (grow_pool fresh s)
  unfolding grow_pool block
  grow_pool-Grown set new v = rw (ne→== fresh null set) (
    record {
      front = v.front;
      ring =
          Linked-frame (heads r) (next_of s) _ _
            (λ x h. ap next_field (kept x (omega (arith, count-heads-le x r)))) v.ring;
      chans =
          chans-frame s _ r (λ x h. (ap peer_field (kept x h), ap cell_field (kept x h)))
            (λ j _. refl) v.chans;
      one_cell = v.one_cell;
      quiet = v.quiet;
      pooled = block-Linked fresh s.node fresh allocate_size (omega arith) refl;
      pool_head = refl;
      once = λ x. once_more x (zero_or_pos (count x (block fresh allocate_size)));
      alive = λ x h. alive_more x h (zero_or_pos (count x (block fresh allocate_size)));
    },
    λ x on. (grown-old fresh s.node x (outside x on), rw (outside x on) on),
  )
    where
      outside : (x : Ptr) → s.live x ≡ true → in_block fresh x ≡ false
      outside x on = elim (Bool-cases (in_block fresh x)) [
        | inl hit ↦ absurd (ground (arith, on, new x hit))
        | inr miss ↦ miss
      ]

      kept : (x : Ptr) → 0 < count x (members r) → grown fresh s.node x ≡ s.node x
      kept x h = grown-old fresh s.node x (outside x (v.alive x (omega (arith, h))).0)

      strange : (x : Ptr) → 0 < count x (block fresh allocate_size) → count x (members r) ≡ 0
      strange x h = elim (zero_or_pos (count x (members r))) [
        | inl none_here ↦ none_here
        | inr here ↦
            absurd (
              ground (arith, (v.alive x (omega (arith, here))).0, new x (block-in_block fresh x h)))
      ]

      once_more :
          (x : Ptr)
          → (count x (block fresh allocate_size) ≡ 0) ⊎ (0 < count x (block fresh allocate_size))
          → count x (members r) + count x (block fresh allocate_size) ≤ 1
      once_more x (inl out) = omega (arith, v.once x, out)
      once_more x (inr h) = omega (arith, strange x h, count-block-le x fresh allocate_size)

      alive_more :
          (x : Ptr)
          → 0 < count x (members r) + count x (block fresh allocate_size)
          → (count x (block fresh allocate_size) ≡ 0) ⊎ (0 < count x (block fresh allocate_size))
          → ((if in_block fresh x then true else s.live x) ≡ true) × (x ≢ null)
      alive_more x h (inl out) =
          let (on, ne) = v.alive x (omega (arith, out)) in (rw (outside x on) on, ne)
      alive_more x h (inr here) = (rw (block-in_block fresh x here) refl, apart)
        where
          apart : x ≢ null
          apart e = absurd (omega (arith, (block-range x fresh allocate_size here).0))
