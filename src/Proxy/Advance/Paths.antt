-- ===== src/Proxy/Advance/Paths.antt =====
-- The branch of the thread's loop for a finished operation `f`, which follows `op`: the memory that
-- each of its four paths leaves.
use flash_reduce_dev.Common.{
  ◌≡◌, ◌≢◌, ◌∙◌, refl, ap, inl, inr, true, List, ◌==◌, if◌then◌else◌, count, Bool-cases, eq→==,
  ne→==,
}
use flash_reduce_dev.Proxy.State.{Ptr, null, Proxy, ok, update}
use flash_reduce_dev.Proxy.Memory.{
  update_self, update-ne, update-keep, next_field, peer_field, cell_field, but_next,
}
use flash_reduce_dev.Proxy.Chain.{last}
use flash_reduce_dev.Proxy.Invariant.{next_of, peer_of, cell_of}
use flash_reduce_dev.Proxy.Thread.{recycle, unlink, retire}
use flash_reduce_dev.Proxy.Advance.Promote.{Freed}

-- The memory when `f` is back in the pool.
abbrev pub recycled : Proxy → (f next : Ptr) → Proxy
recycled s f next = record s {
  node = update s.node f (record (s.node f) { next = s.pool });
  pool = f;
  ops = if f == s.ops then next else s.ops;
}

recycle_lem :
    (s : Proxy) (f next : Ptr) → s.live f ≡ true → recycle f next s ≡ ok tt (recycled s f next)
unfolding recycle
recycle_lem s f next live = elim (Bool-cases (f == s.ops)) [
  | inl hit ↦ simp (hit, live)
  | inr miss ↦ simp (miss, live)
]

-- `Freed` after a first change that only writes `next`, at entries of `keep`.
pub recycled-Freed :
    (s m : Proxy) (f next : Ptr) (keep : List Ptr)
    → ((x : Ptr) → count x keep ≡ 0 → next_of m x ≡ next_of s x)
    → ((x : Ptr) → but_next (m.node x) ≡ but_next (s.node x))
    → ((x : Ptr) → peer_of m x ≡ peer_of s x)
    → ((x : Ptr) → m.live x ≡ s.live x)
    → m.pool ≡ s.pool
    → m.ops ≡ s.ops
    → Freed s (recycled m f next) f next keep
recycled-Freed s m f next keep others same peers lives pool ops = record {
  others = λ x ne out. ap next_field (update-ne m.node f _ x ne) ∙ others x out;
  freed = ap next_field (update_self m.node f _) ∙ pool;
  pool = refl;
  peers = λ x. update-keep peer_field m.node f _ refl x ∙ peers x;
  owners = λ x. update-keep cell_field m.node f _ refl x ∙ ap cell_field (same x);
  lives = lives;
  ops = ap (λ p. if f == p then next else p) ops;
}

-- The memory after the first part, without and with a next entry of the channel.
abbrev pub cleared : Proxy → Ptr → Proxy
cleared s k = record s { tail = update s.tail k null }

abbrev pub relinked : Proxy → (a b : Ptr) → Proxy
relinked s a b = record s { node = update s.node a (record (s.node a) { next = b }) }

module _ (s : Proxy) {f : Ptr} (live : s.live f ≡ true) where
  pub unlink_alone :
      {k : Ptr}
      → peer_of s f ≡ null
      → cell_of s f ≡ k
      → k ≢ null
      → unlink f f s ≡ ok null (cleared s k)
  unfolding unlink
  unlink_alone {k} last own cell =
      simp (live, own, eq→== _ _ last, ne→== k null cell, eq→== f f refl)

  pub unlink_alone-peer :
      {y : Ptr}
      → peer_of s f ≡ y
      → y ≢ null
      → s.live y ≡ true
      → unlink f f s ≡ ok y (relinked s y y)
  unfolding unlink
  unlink_alone-peer {y} more set live_peer =
      simp (live, more, live_peer, ne→== y null set, eq→== f f refl)

  module _ {op z : Ptr} (live_op : s.live op ≡ true) (ne : op ≢ f) (next : next_of s f ≡ z) where
    pub unlink_behind :
        {k : Ptr}
        → peer_of s f ≡ null
        → cell_of s f ≡ k
        → k ≢ null
        → unlink op f s ≡ ok z (relinked (cleared s k) op z)
    unfolding unlink
    unlink_behind {k} last own cell =
        simp (live, live_op, own, next, eq→== _ _ last, ne→== k null cell, ne→== op f ne)

    pub unlink_behind-peer :
        {y : Ptr}
        → peer_of s f ≡ y
        → y ≢ null
        → s.live y ≡ true
        → unlink op f s ≡ ok y (relinked (relinked s y z) op y)
    unfolding unlink
    unlink_behind-peer {y} more set live_peer =
        simp (live, live_peer, live_op, more, next, ne→== y null set, ne→== op f ne)

pub retire_lem :
    (s : Proxy) (op f : Ptr) {q : Ptr} {m : Proxy}
    → unlink op f s ≡ ok q m
    → m.live f ≡ true
    → retire op f s ≡ ok q (recycled m f q)
unfolding retire
retire_lem s op f {q} {m} h live = rw h (rw (recycle_lem m f q live))
