-- ===== src/Proxy/Rotate.antt =====
-- The ring of csrc/proxy.cc read from another operation: the same cycle.
use flash_reduce_dev.Common.{
  ◌+◌, ◌<◌, ◌≡◌, ◌∙◌, refl, List, [], ◌∷◌, ◌++◌, count, All-append, arith, count-append, count_self,
  ◌≢◌,
}
use flash_reduce_dev.Proxy.State.{Ptr, Proxy}
use flash_reduce_dev.Proxy.Chain.{first, last, Linked, Linked-append, once_below, count-last}
use flash_reduce_dev.Proxy.Channels.{Chan, jobs, heads, cells, members}
use flash_reduce_dev.Proxy.Invariant.{next_of, IsChan, OpsIn-heads, IsRing}

pub heads-append : (r q : List Chan) → heads (r ++ q) ≡ heads r ++ heads q
heads-append [] q = refl
heads-append (c ∷ r) q = rw (heads-append r q)

pub count-cells-append :
    (k : Ptr) (r q : List Chan) → count k (cells (r ++ q)) ≡ count k (cells r) + count k (cells q)
count-cells-append k [] q = omega arith
count-cells-append k (c ∷ r) q = omega (arith, count-cells-append k r q)

pub count-members-append :
    (x : Ptr) (r q : List Chan)
    → count x (members (r ++ q)) ≡ count x (members r) + count x (members q)
count-members-append x [] q = omega arith
count-members-append x (c ∷ r) q = omega (
  arith,
  count-members-append x r q,
  count-append x (jobs c) (members r),
  count-append x (jobs c) (members (r ++ q)),
)

pub Linked-last :
    (x : Ptr) (xs : List Ptr) (f : Ptr → Ptr) (z : Ptr) → Linked f z (x ∷ xs) → f (last x xs) ≡ z
Linked-last x [] f z l = l.0
Linked-last x (y ∷ ys) f z l = Linked-last y ys f z l.1

-- The last link of a chain is set anew.
pub Linked-set_last :
    (x : Ptr) (xs : List Ptr) (f g : Ptr → Ptr) (z w : Ptr)
    → count (last x xs) (x ∷ xs) ≡ 1
    → ((a : Ptr) → 0 < count a (x ∷ xs) → a ≢ last x xs → g a ≡ f a)
    → g (last x xs) ≡ w
    → Linked f z (x ∷ xs)
    → Linked g w (x ∷ xs)
Linked-set_last x [] f g z w once same to l = (to, tt)
Linked-set_last x (y ∷ ys) f g z w once same to l =
    let (apart, below) = once_below x (last y ys) (y ∷ ys) once (count-last y ys) in
    (
      same x (count_self x (y ∷ ys)) apart ∙ l.0,
      Linked-set_last y ys f g z w below (λ a h. same a (omega arith)) to l.1,
    )

Linked-rotate :
    (f : Ptr → Ptr) (x : Ptr) (xs : List Ptr)
    → Linked f x (x ∷ xs)
    → Linked f (first x xs) (xs ++ x ∷ [])
Linked-rotate f x [] l = l
Linked-rotate f x (y ∷ ys) l = Linked-append (y ∷ ys) (x ∷ []) f y l.1 (l.0, tt)

-- Where the first operation of the ring, read from the second one, comes last.
unfoldable pub rotate : List Chan → List Chan
rotate [] = []
rotate (c ∷ cs) = cs ++ c ∷ []

first-snoc : (z x : Ptr) (xs : List Ptr) → first z (xs ++ x ∷ []) ≡ first x xs
first-snoc z x [] = refl
first-snoc z x (y ∷ ys) = refl

module _ (s : Proxy) (c : Chan) (cs : List Chan) (free : List Ptr) where
  pub rotate-IsRing : IsRing s (c ∷ cs) free → IsRing s (rotate (c ∷ cs)) free
  unfolding rotate
  rotate-IsRing v = record {
    front =
        OpsIn-heads s.ops (cs ++ c ∷ [])
          (rw heads-append (omega (arith, v.front, count-append s.ops (heads cs) (c.head ∷ []))));
    ring = rw (heads-append, first-snoc) (Linked-rotate (next_of s) c.head (heads cs) v.ring);
    chans = All-append (IsChan s) cs (c ∷ []) v.chans.1 (v.chans.0, tt);
    one_cell = λ k. omega (arith, v.one_cell k, count-cells-append k cs (c ∷ []));
    quiet = λ k h. v.quiet k (omega (arith, count-cells-append k cs (c ∷ [])));
    pooled = v.pooled;
    pool_head = v.pool_head;
    once = λ x. omega (arith, v.once x, moved x);
    alive = λ x h. v.alive x (omega (arith, moved x));
  }
    where
      moved : (x : Ptr) → count x (members (cs ++ c ∷ [])) ≡ count x (members (c ∷ cs))
      moved x = omega (
        arith,
        count-members-append x cs (c ∷ []),
        count-append x (jobs c) (members cs),
        count-append x (jobs c) [],
      )
