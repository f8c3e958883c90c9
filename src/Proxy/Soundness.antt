-- ===== src/Proxy/Soundness.antt =====
-- The soundness of the system in Proxy/System.antt, for the steps of csrc/proxy.cc.
pub mod Links
mod Turn
mod Worker
mod Client
pub mod Finish
pub mod Weight
pub mod Pace
mod Round
pub mod Drain
pub mod Loop
pub mod Waiting
pub mod Teardown
use flash_reduce_dev.Common.{
  ℕ, ◌≡◌, ◌+◌, ◌≤◌, ◌⊎◌, inl, inr, sym, subst, refl, true, false, Bool, List, [], ◌==◌,
  if◌then◌else◌, not, arith, Bool-cases,
}
use flash_reduce_dev.Proxy.State.{Ptr, null, Proxy, Run, ok, fault, exited, Returns, Returns-then}
use flash_reduce_dev.Proxy.Channels.{Chan}
use flash_reduce_dev.Proxy.Invariant.{IsRing}
use flash_reduce_dev.Proxy.Soundness.Links.{set_stop}
use flash_reduce_dev.Proxy.Thread.{Phase, polling, Thread, initial}
use flash_reduce_dev.Proxy.Control.{wake, signal, proxy_create, proxy_start, request_stop}
use flash_reduce_dev.Proxy.System.{
  Event, allocate, fill, append, start, stop_request, turn, thread_turn, perform, IsAllowed, OpAt,
  owners, IsSound, IsSoundAfter,
}
use Worker.{turn-IsSound}
use Client.{allocate-IsSound, fill-IsSound, append-IsSound}

wake-OpAt : (ph : Phase) (p : Ptr) (r : List Chan) → OpAt ph p r → OpAt (wake ph) p r
wake-OpAt Phase.polling p r at = at
wake-OpAt Phase.waiting p r at = at
wake-OpAt Phase.working p r at = at
wake-OpAt Phase.advancing p r at = at
wake-OpAt Phase.returned p r at = tt

module _ (s : Proxy) (t : Thread) (r : List Chan) (free held : List Ptr) where
  signalled :
      (b : Bool)
      → IsSound s t r free held
      → IsSoundAfter r free held (signal t, held) (record s { stop = b })
  signalled b v = record {
    ring_after = r;
    free_after = free;
    sound = record {
      ring = set_stop b s r free v.ring;
      op_at = wake-OpAt t.phase t.op r v.op_at;
      one_owner = v.one_owner;
      ready = v.ready;
    };
    none_lost = λ x. omega arith;
  }

  start-IsSound :
      IsSound s t r free held → Returns (IsSoundAfter r free held) (perform start t held s)
  unfolding proxy_start
  start-IsSound v = elim (Bool-cases (s.ops == null)) [
    | inl empty ↦
        simp empty
          (record { ring_after = r; free_after = free; sound = v; none_lost = λ x. omega arith })
    | inr more ↦ simp more (signalled false v)
  ]

  stop-IsSound :
      IsSound s t r free held → Returns (IsSoundAfter r free held) (perform stop_request t held s)
  unfolding request_stop
  stop-IsSound v = signalled true v

-- In a sound system every allowed step, of the thread or of a client, runs without an access
-- through a null or dangling pointer, and leaves a sound system in which every entry that was
-- queued, free or held still is.
pub perform-IsSound :
    (e : Event) (s : Proxy) (t : Thread) (r : List Chan) (free held : List Ptr)
    → IsSound s t r free held
    → IsAllowed e s held
    → Returns (IsSoundAfter r free held) (perform e t held s)
perform-IsSound (allocate fresh) s t r free held v (set, new) =
    allocate-IsSound s t r free held v fresh set new
perform-IsSound (fill a n) s t r free held v (mine, alone) =
    fill-IsSound s t r free held v a mine n alone
perform-IsSound (append a) s t r free held v (mine, channel) =
    append-IsSound s t r free held v a mine channel
perform-IsSound start s t r free held v _ = start-IsSound s t r free held v
perform-IsSound stop_request s t r free held v _ = stop-IsSound s t r free held v
perform-IsSound (turn progress) s t r free held v keeps =
    Returns-then _ _ (thread_turn progress t.phase t s) _
      (turn-IsSound s t r free held progress keeps t.phase refl v) λ t' s' v'. v'

-- The states of the system from a new handler on, whose memory is zeroed.
pub data Reachable : Proxy → Thread → (held : List Ptr) → Type 0 where
  created :
      (s : Proxy)
      → s.thread ≡ false
      → s.pool ≡ null
      → ((k : Ptr) → s.tail k ≡ null)
      → Reachable (proxy_create s initial).0 (proxy_create s initial).1 []
  performed :
      (e : Event) (s : Proxy) (t : Thread) (held : List Ptr)
      → Reachable s t held
      → IsAllowed e s held
      → (s' : Proxy) (t' : Thread) (held' : List Ptr) → perform e t held s ≡ ok (t', held') s'
      → Reachable s' t' held'

-- Some ring and pool make the system sound.
pub record Sound (s : Proxy) (t : Thread) (held : List Ptr) : Type 0 where
  pub ring : List Chan
  pub free : List Ptr
  pub sound : IsSound s t ring free held

created-Sound :
    (s : Proxy)
    → s.thread ≡ false
    → s.pool ≡ null
    → ((k : Ptr) → s.tail k ≡ null)
    → Sound (proxy_create s initial).0 (proxy_create s initial).1 []
unfolding proxy_create
created-Sound s new empty quiet = rw new (record {
  ring = [];
  free = [];
  sound = record {
    ring = record {
      front = refl;
      ring = tt;
      chans = tt;
      one_cell = λ k. omega arith;
      quiet = λ k h. quiet k;
      pooled = tt;
      pool_head = empty;
      once = λ a. omega arith;
      alive = λ a h. absurd (omega arith);
    };
    op_at = inl refl;
    one_owner = λ x. omega arith;
    ready = λ x h. absurd (omega arith);
  };
})

-- Whatever the order of the thread's and the clients' steps, a system that is reached from a new
-- handler is sound.
pub Reachable-Sound :
    (s : Proxy) (t : Thread) (held : List Ptr) → Reachable s t held → Sound s t held
Reachable-Sound s t held (created s0 new empty quiet) = created-Sound s0 new empty quiet
Reachable-Sound s t held (performed e s0 t0 held0 before allowed s' t' held' run) =
    let v = Reachable-Sound s0 t0 held0 before in
    let w =
      subst (Returns (IsSoundAfter v.ring v.free held0)) run
        (perform-IsSound e s0 t0 v.ring v.free held0 v.sound allowed) in
    record { ring = w.ring_after; free = w.free_after; sound = w.sound }

-- From every reached state each allowed step returns: no order of the steps leads to a fault.
pub Reachable-Returns :
    (e : Event) (s : Proxy) (t : Thread) (held : List Ptr)
    → Reachable s t held
    → IsAllowed e s held
    → Returns (λ p s'. Reachable s' p.0 p.1) (perform e t held s)
Reachable-Returns e s t held before allowed =
    let v = Reachable-Sound s t held before in
    go _ (perform e t held s) refl (perform-IsSound e s t v.ring v.free held v.sound allowed)
  where
    go :
        (P : Thread × List Ptr → Proxy → Type 0) (m : Run (Thread × List Ptr))
        → perform e t held s ≡ m
        → Returns P m
        → Returns (λ p s'. Reachable s' p.0 p.1) m
    go P (ok (t', held') s') run h = performed e s t held before allowed s' t' held' run
    go P fault run h = h
    go P exited run h = h
