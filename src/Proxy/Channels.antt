-- ===== src/Proxy/Channels.antt =====
-- What the ring of csrc/proxy.cc stands for: channels with work queued, each a queue of entries
-- behind its first one, which is the ring's operation.
use flash_reduce_dev.Common.{
  ◌+◌, ◌<◌, ◌≤◌, ◌≡◌, refl, List, [], ◌∷◌, ◌++◌, ◌==◌, if◌then◌else◌, count, arith, count-append,
}
use flash_reduce_dev.Proxy.State.{Ptr}
use flash_reduce_dev.Proxy.Chain.{insert_after}

-- A channel that has work queued: the address of its tail pointer, its operation, which is in the
-- ring, and the peers that wait behind it.
pub record Chan : Type 0 where
  pub cell : Ptr
  pub head : Ptr
  pub rest : List Ptr

abbrev pub chan : Ptr → Ptr → List Ptr → Chan
chan k p ps = record { cell = k; head = p; rest = ps }

abbrev pub jobs : Chan → List Ptr
jobs c = c.head ∷ c.rest

abbrev pub heads : List Chan → List Ptr
heads [] = []
heads (c ∷ cs) = c.head ∷ heads cs

abbrev pub cells : List Chan → List Ptr
cells [] = []
cells (c ∷ cs) = c.cell ∷ cells cs

abbrev pub members : List Chan → List Ptr
members [] = []
members (c ∷ cs) = jobs c ++ members cs

-- A new entry of the queued channel `k`.
unfoldable pub enqueue : (k a : Ptr) → List Chan → List Chan
enqueue k a [] = []
enqueue k a (c ∷ cs) =
    if c.cell == k then record c { rest = c.rest ++ a ∷ [] } ∷ cs else c ∷ enqueue k a cs

-- A new channel, behind the one whose operation is `o`.
unfoldable pub insert_chan : (o : Ptr) → Chan → List Chan → List Chan
insert_chan o d [] = []
insert_chan o d (c ∷ cs) = if c.head == o then c ∷ d ∷ cs else c ∷ insert_chan o d cs

pub heads-enqueue : (k a : Ptr) (r : List Chan) → heads (enqueue k a r) ≡ heads r
unfolding enqueue
heads-enqueue k a [] = refl
heads-enqueue k a (c ∷ cs) = ground (arith, heads-enqueue k a cs)

pub cells-enqueue : (k a : Ptr) (r : List Chan) → cells (enqueue k a r) ≡ cells r
unfolding enqueue
cells-enqueue k a [] = refl
cells-enqueue k a (c ∷ cs) = ground (arith, cells-enqueue k a cs)

pub count-members-enqueue :
    (x k a : Ptr) (r : List Chan)
    → 0 < count k (cells r)
    → count x (members (enqueue k a r)) ≡ count x (members r) + count x (a ∷ [])
unfolding enqueue
count-members-enqueue x k a [] h = absurd (omega arith)
count-members-enqueue x k a (c ∷ cs) h = ground (
  arith,
  count-append x c.rest (members cs),
  count-append x (c.rest ++ a ∷ []) (members cs),
  count-append x c.rest (a ∷ []),
  count-append x c.rest (members (enqueue k a cs)),
  count-members-enqueue x k a cs,
)

pub heads-insert_chan :
    (o : Ptr) (d : Chan) (r : List Chan)
    → heads (insert_chan o d r) ≡ insert_after o d.head (heads r)
unfolding insert_chan insert_after
heads-insert_chan o d [] = refl
heads-insert_chan o d (c ∷ cs) = ground (arith, heads-insert_chan o d cs)

pub count-cells-insert_chan :
    (k o : Ptr) (d : Chan) (r : List Chan)
    → 0 < count o (heads r)
    → count k (cells (insert_chan o d r)) ≡ count k (cells r) + count k (d.cell ∷ [])
unfolding insert_chan
count-cells-insert_chan k o d [] h = absurd (omega arith)
count-cells-insert_chan k o d (c ∷ cs) h = ground (arith, count-cells-insert_chan k o d cs)

pub count-members-insert_chan :
    (x o : Ptr) (d : Chan) (r : List Chan)
    → 0 < count o (heads r)
    → count x (members (insert_chan o d r)) ≡ count x (members r) + count x (jobs d)
unfolding insert_chan
count-members-insert_chan x o d [] h = absurd (omega arith)
count-members-insert_chan x o d (c ∷ cs) h = ground (
  arith,
  count-append x c.rest (members cs),
  count-append x c.rest (members (insert_chan o d cs)),
  count-append x d.rest (members cs),
  count-append x c.rest (jobs d ++ members cs),
  count-members-insert_chan x o d cs,
)

pub count-heads-le : (x : Ptr) (r : List Chan) → count x (heads r) ≤ count x (members r)
count-heads-le x [] = omega arith
count-heads-le x (c ∷ cs) = ground (arith, count-append x c.rest (members cs), count-heads-le x cs)
