-- ===== src/Proxy/Flags.antt =====
-- What the thread of csrc/proxy.cc leaves to the others: the stop and abort flags and the blocks.
use flash_reduce_dev.Common.{
  ℕ, ◌≡◌, ◌∙◌, refl, inl, inr, Bool, true, false, not, ◌==◌, if◌then◌else◌, List, Bool-cases,
}
use flash_reduce_dev.Proxy.State.{
  Ptr, null, is_none, ProxyArgs, Proxy, Run, ok, fault, exited, and_then, Cmd, pure, ◌>>=◌, ◌>>◌,
  load, store, set_next, set_tail, set_ops, Returns,
}
use flash_reduce_dev.Proxy.Thread.{Thread, work, advance, unlink, recycle, retire}

abbrev pub flags : Proxy → Bool × Bool × Bool × List Ptr
flags s = (s.stop, s.abort_flag, s.thread, s.pools)

-- If the run ends in a memory, that has the same flags.
abbrev pub SameFlags : {A : Type 0} → Proxy → Run A → Type 0
SameFlags s (ok a s') = flags s' ≡ flags s
SameFlags s fault = Unit
SameFlags s exited = Unit

abbrev pub IsSteady : {A : Type 0} → Cmd A → Type 0
IsSteady m = (s : Proxy) → SameFlags s (m s)

SameFlags-then :
    {A B : Type 0} (s : Proxy) (r : Run A) (k : A → Cmd B)
    → SameFlags s r
    → ((a : A) → IsSteady (k a))
    → SameFlags s (and_then r k)
SameFlags-then {B = B} s (ok a s') k h next = go (k a s') (next a s')
  where
    go : (r : Run B) → SameFlags s' r → SameFlags s r
    go (ok b s'') e = e ∙ h
    go fault e = tt
    go exited e = tt
SameFlags-then s fault k h next = tt
SameFlags-then s exited k h next = tt

bind-IsSteady :
    {A B : Type 0} (m : Cmd A) (k : A → Cmd B)
    → IsSteady m
    → ((a : A) → IsSteady (k a))
    → IsSteady (m >>= k)
bind-IsSteady m k h next s = SameFlags-then s (m s) k (h s) next

if-IsSteady :
    {A : Type 0} (b : Bool) (m n : Cmd A) → IsSteady m → IsSteady n → IsSteady (if b then m else n)
if-IsSteady true m n h k = h
if-IsSteady false m n h k = k

load-IsSteady : (p : Ptr) → IsSteady (load p)
load-IsSteady p s = elim (Bool-cases (s.live p)) [ inl on ↦ rw on refl | inr off ↦ rw off tt ]

store-IsSteady : (p : Ptr) (n : ProxyArgs) → IsSteady (store p n)
store-IsSteady p n s = elim (Bool-cases (s.live p)) [ inl on ↦ rw on refl | inr off ↦ rw off tt ]

set_next-IsSteady : (p q : Ptr) → IsSteady (set_next p q)
set_next-IsSteady p q =
    bind-IsSteady (load p) _ (load-IsSteady p) λ n. store-IsSteady p (record n { next = q })

set_tail-IsSteady : (k q : Ptr) → IsSteady (set_tail k q)
set_tail-IsSteady k q s = elim (Bool-cases (k == null)) [
  | inl off ↦ rw off tt
  | inr on ↦ rw on refl
]

pub work-IsSteady : (progress : ℕ → ProxyArgs → ProxyArgs) (t : Thread) → IsSteady (work progress t)
unfolding work
work-IsSteady progress t = bind-IsSteady (load t.op) _ (load-IsSteady t.op) λ n.
    bind-IsSteady (store t.op _) _ (store-IsSteady t.op _) λ _.
      bind-IsSteady (load t.op) _ (load-IsSteady t.op) λ m.
        bind-IsSteady (store t.op _) _ (store-IsSteady t.op _)
          λ _. bind-IsSteady (load t.op) _ (load-IsSteady t.op) λ m s. refl

unlink-IsSteady : (op free : Ptr) → IsSteady (unlink op free)
unfolding unlink
unlink-IsSteady op free = bind-IsSteady (load free) _ (load-IsSteady free) λ n.
    if-IsSteady (not (n.next_peer == null)) _ _
      (bind-IsSteady
        (if not (op == free)
          then set_next n.next_peer n.next >> set_next op n.next_peer
          else set_next n.next_peer n.next_peer)
        _
        (if-IsSteady (not (op == free)) _ _
          (bind-IsSteady (set_next n.next_peer n.next) _ (set_next-IsSteady n.next_peer n.next)
            λ _. set_next-IsSteady op n.next_peer)
          (set_next-IsSteady n.next_peer n.next_peer))
        λ _ s. refl)
      (bind-IsSteady (set_tail n.proxy_tail null) _ (set_tail-IsSteady n.proxy_tail null) λ _.
        if-IsSteady (not (op == free)) _ _
          (bind-IsSteady (load free) _ (load-IsSteady free)
            λ m. bind-IsSteady (set_next op m.next) _ (set_next-IsSteady op m.next) λ _ s. refl)
          λ s. refl)

recycle-IsSteady : (free next : Ptr) → IsSteady (recycle free next)
unfolding recycle
recycle-IsSteady free next s =
    bind-IsSteady (if free == s.ops then set_ops next else pure tt) _
      (if-IsSteady (free == s.ops) (set_ops next) (pure tt) (λ s'. refl) λ s'. refl)
      (λ _. bind-IsSteady (set_next free s.pool) _ (set_next-IsSteady free s.pool) λ _ s'. refl) s

pub advance-IsSteady : (t : Thread) → IsSteady (advance t)
unfolding advance retire
advance-IsSteady t = bind-IsSteady (load t.op) _ (load-IsSteady t.op) λ o.
    bind-IsSteady (load o.next) _ (load-IsSteady o.next) λ n.
      bind-IsSteady (if is_none n.state then retire t.op o.next else pure o.next) _
        (if-IsSteady (is_none n.state) (retire t.op o.next) (pure o.next)
          (bind-IsSteady (unlink t.op o.next) _ (unlink-IsSteady t.op o.next)
            λ q. bind-IsSteady (recycle o.next q) _ (recycle-IsSteady o.next q) λ _ s. refl)
          λ s. refl)
        λ next s. refl

-- A run that returns leaves the flags alone.
pub Returns-flags :
    {A : Type 0} (P : A → Proxy → Type 0) (s : Proxy) (r : Run A)
    → Returns P r
    → SameFlags s r
    → Returns (λ a s'. P a s' × (flags s' ≡ flags s)) r
Returns-flags P s (ok a s') h e = (h, e)
Returns-flags P s fault h e = h
Returns-flags P s exited h e = h
