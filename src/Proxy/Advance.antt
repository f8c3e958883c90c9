-- ===== src/Proxy/Advance.antt =====
-- The second locked section of the proxy thread's loop on a well-formed ring.
mod Promote
mod Paths
mod Retire
use Retire.{Retired, retire_last, retire_last-peer, retire_behind, retire_behind-peer}
use flash_reduce_dev.Common.{
  ◌+◌, ◌<◌, ◌≡◌, ◌≢◌, ◌∙◌, refl, sym, ap, subst, inl, inr, Bool, true, false, List, [], ◌∷◌, ◌++◌,
  if◌then◌else◌, count, arith, Bool-cases, count_self,
}
use flash_reduce_dev.Proxy.State.{
  Ptr, null, ProxyArgs, Proxy, Run, ok, fault, exited, and_then, Returns, Returns-then, is_none,
}
use flash_reduce_dev.Proxy.Memory.{but_next}
use flash_reduce_dev.Proxy.Chain.{first, last, count-last}
use flash_reduce_dev.Proxy.Channels.{Chan, chan, heads, cells, members, count-heads-le}
use flash_reduce_dev.Proxy.Invariant.{next_of, IsRing}
use flash_reduce_dev.Proxy.Rotate.{Linked-last, rotate, rotate-IsRing, heads-append}
use flash_reduce_dev.Proxy.Thread.{Thread, Phase, polling, spin, retire, advance}

-- A channel `k` without its operation: the first of the entries `ps` takes its place.
unfoldable pub promote : Ptr → List Ptr → List Chan → List Chan
promote k [] ds = ds
promote k (y ∷ ys) ds = chan k y ys ∷ ds

-- The ring after the section, read from the operation where the thread goes on. The ring is read
-- from the thread's operation before; `done` says whether the one that follows it has finished.
unfoldable pub drop_op : List Chan → List Chan
unfolding promote
drop_op [] = []
drop_op (d ∷ ds) = promote d.cell d.rest ds

unfoldable pub advance_ring : (done : Bool) → List Chan → List Chan
unfolding drop_op
advance_ring done r = if done then drop_op (rotate r) else rotate r

-- The entry that joins the pool.
unfoldable pub advance_free : (done : Bool) → List Chan → List Ptr → List Ptr
advance_free done r free = if done then first null (heads (rotate r)) ∷ free else free

-- Whether the operation behind the first one has finished.
abbrev pub next_done : Proxy → List Chan → Bool
next_done s r = is_none (s.node (first null (heads (rotate r)))).state

retire-IsRing :
    (s : Proxy) (k f : Ptr) (ps : List Ptr) (ds : List Chan) (free : List Ptr)
    → IsRing s (chan k f ps ∷ ds) free
    → Retired s (last f (heads ds)) f (promote k ps ds) free
unfolding promote
retire-IsRing s k f [] [] free v = retire_last s v
retire-IsRing s k f [] (e ∷ es) free v = retire_behind s e es v
retire-IsRing s k f (y ∷ ys) [] free v = retire_last-peer s y ys v
retire-IsRing s k f (y ∷ ys) (e ∷ es) free v = retire_behind-peer s e es y ys v

-- What the section leaves.
abbrev pub Advanced : Proxy → Thread → List Chan → List Ptr → Type 0
Advanced s t r free =
    Returns
      (λ t' s'.
        IsRing s' r free
        × (t'.op ≡ first null (heads r))
        × (t'.phase ≡ polling)
        × ((x : Ptr) → but_next (s'.node x) ≡ but_next (s.node x))
        × ((x : Ptr) → s'.live x ≡ s.live x))
      (advance t s)

spin-op :
    (s : Proxy) (next : Ptr) (t : Thread)
    → ((spin s next t).op ≡ next) × ((spin s next t).phase ≡ polling)
unfolding spin
spin-op s next t = ground arith

module _ (s : Proxy) (t : Thread) {f : Ptr} (on_op : s.live t.op ≡ true) (next : next_of s t.op ≡ f)
    (on : s.live f ≡ true) where
  advance_done :
      is_none (s.node f).state ≡ true
      → advance t s ≡ and_then (retire t.op f s) (λ q s'. ok (spin s' q t) s')
  unfolding advance
  advance_done done = simp (on_op, next, on, done)

  advance_on : is_none (s.node f).state ≡ false → advance t s ≡ ok (spin s f t) s
  unfolding advance
  advance_on more = simp (on_op, next, on, more)

-- The ring is read from the operation that follows the thread's.
advance_rotated :
    (s : Proxy) (t : Thread) (d : Chan) (ds : List Chan) (free : List Ptr)
    → IsRing s (d ∷ ds) free
    → t.op ≡ last d.head (heads ds)
    → Advanced s t
        (if is_none (s.node d.head).state then drop_op (d ∷ ds) else d ∷ ds)
        (if is_none (s.node d.head).state then d.head ∷ free else free)
unfolding drop_op
advance_rotated s t d ds free v at = elim (Bool-cases (is_none (s.node d.head).state)) [
  | inl done ↦
      rw (done, advance_done s t on_op next on done)
        (Returns-then _ _ (retire t.op d.head s) _
          (subst (λ p. Retired s p d.head (promote d.cell d.rest ds) free) (sym at)
            (retire-IsRing s d.cell d.head d.rest ds free v))
          λ q s' (ring, e, same, lives).
            (ring, (spin-op s' q t).0 ∙ e, (spin-op s' q t).1, same, lives))
  | inr more ↦
      rw (more, advance_on s t on_op next on more)
        (v, (spin-op s d.head t).0, (spin-op s d.head t).1, (λ x. refl), λ x. refl)
]
  where
    at_op : 0 < count t.op (heads (d ∷ ds))
    at_op = subst (λ p. 0 < count p (heads (d ∷ ds))) (sym at) (count-last d.head (heads ds))

    on_op : s.live t.op ≡ true
    on_op = (v.alive t.op (omega (arith, at_op, count-heads-le t.op (d ∷ ds)))).0

    next : next_of s t.op ≡ d.head
    next = ap (next_of s) at ∙ Linked-last d.head (heads ds) (next_of s) d.head v.ring

    on : s.live d.head ≡ true
    on =
        (v.alive d.head
          (omega (arith, count_self d.head (heads ds), count-heads-le d.head (d ∷ ds)))).0

last-snoc : (x y : Ptr) (xs : List Ptr) → last x (xs ++ y ∷ []) ≡ y
last-snoc x y [] = refl
last-snoc x y (z ∷ zs) = last-snoc z y zs

-- From a well-formed ring, read from the thread's operation, the section meets no dangling pointer.
-- If the operation that follows has finished it leaves the ring, with its place taken by the next
-- entry of its channel if there is one, and joins the pool. The ring is well-formed again, the
-- thread goes on at the operation that follows, and of the entries only `next` changes.
pub advance-IsRing :
    (s : Proxy) (t : Thread) (c : Chan) (cs : List Chan) (free : List Ptr)
    → IsRing s (c ∷ cs) free
    → t.op ≡ c.head
    → Advanced s t
        (advance_ring (next_done s (c ∷ cs)) (c ∷ cs))
        (advance_free (next_done s (c ∷ cs)) (c ∷ cs) free)
unfolding rotate advance_ring advance_free
advance-IsRing s t c [] free v at = advance_rotated s t c [] free v at
advance-IsRing s t c (d ∷ ds) free v at =
    advance_rotated s t d (ds ++ c ∷ []) free (rotate-IsRing s c (d ∷ ds) free v)
      (at ∙ sym (ap (last d.head) (heads-append ds (c ∷ [])) ∙ last-snoc d.head c.head (heads ds)))
