-- ===== src/Proxy/Soundness/Waiting.antt =====
-- `ProxyWaitAllOpFinished` of csrc/proxy.cc, which looks at `ops` without the mutex, and so also
-- while the thread is in its second locked section. That section writes `ops` at most once: a look
-- before that sees what a look before the section sees, and one behind it what this file calls a
-- look in the middle.
use flash_reduce_dev.Common.{
  ℕ, zero, suc, ◌≡◌, ◌∙◌, refl, sym, ap, subst, inl, inr, Bool, true, false, ◌&&◌, Bool-cases,
  true≢false, Option, none, some, ◌==◌, if◌then◌else◌,
}
use flash_reduce_dev.Proxy.State.{
  Ptr, is_none, ProxyArgs, Proxy, Run, fault, exited, Cmd, ok, and_then, pure, get, load, set_next,
  set_ops, set_pool, ◌>>=◌, ◌>>◌, Returns, null,
}
use flash_reduce_dev.Proxy.Thread.{Phase, Thread, advance, unlink, retire, recycle, spin}
use flash_reduce_dev.Proxy.Control.{all_finished}
use flash_reduce_dev.Proxy.System.{thread_turn}
use flash_reduce_dev.Proxy.Soundness.Loop.{run_until, run_until-next, run_until-over}

-- The thread has written `ops`: `next`, and the entry that it has yet to give back to the pool.
pub record Section : Type 0 where
  pub next : Ptr
  pub freed : Option Ptr

abbrev pub put_ops : (free next : Ptr) → Cmd (Unit {0})
put_ops free next = do s ← get; if free == s.ops then set_ops next else pure tt

-- The second locked section up to its write of `ops`.
unfoldable pub to_ops : Thread → Cmd Section
to_ops t = do
  o ← load t.op
  n ← load o.next
  if is_none n.state
      then (do
        q ← unlink t.op o.next
        put_ops o.next q
        pure (record { next = q; freed = some o.next }))
      else pure (record { next = o.next; freed = none })

abbrev pub push : Option Ptr → Cmd (Unit {0})
push none = pure tt
push (some free) = do s ← get; set_next free s.pool; set_pool free

-- The rest of it.
unfoldable pub from_ops : Thread → Section → Cmd Thread
from_ops t m = do push m.freed; s ← get; pure (spin s m.next t)

abbrev pub is_advancing : Phase → Bool
is_advancing Phase.polling = false
is_advancing Phase.waiting = false
is_advancing Phase.working = false
is_advancing Phase.advancing = true
is_advancing Phase.returned = false

-- Where the thread is when the call returns: between its steps, or in the middle of the section.
pub record Waited : Type 0 where
  pub thread : Thread
  pub section : Option Section

-- The thread gets out of the section.
abbrev pub leave_section : Waited → Cmd Thread
leave_section w = leave w.section
  where
    leave : Option Section → Cmd Thread
    leave none = pure w.thread
    leave (some m) = from_ops w.thread m

-- The call looks before each step of the thread, and, in the turns that `looks` tells, in the middle
-- of the section. `k` turns at most.
unfoldable pub wait_all_finished :
    (progress : ℕ → ℕ → ProxyArgs → ProxyArgs) (looks : ℕ → Bool) → ℕ → Thread → Cmd Waited
wait_all_finished progress looks zero t = pure (record { thread = t; section = none })
wait_all_finished progress looks (suc k) t = do
  s ← get
  if all_finished s
      then pure (record { thread = t; section = none })
      else if is_advancing t.phase && looks k
      then (do
        m ← to_ops t
        s ← get
        if all_finished s
            then pure (record { thread = t; section = some m })
            else (do t' ← from_ops t m; wait_all_finished progress looks k t'))
      else (do t' ← thread_turn (progress k) t.phase t; wait_all_finished progress looks k t')

module _ {A B C : Type 0} where
  then_assoc :
      (r : Run A) (k : A → Cmd B) (h : B → Cmd C)
      → and_then (and_then r k) h ≡ and_then r λ a s. and_then (k a s) h
  then_assoc (ok a s) k h = refl
  then_assoc fault k h = refl
  then_assoc exited k h = refl

module _ {A B : Type 0} where
  then_ap :
      (r : Run A) (k k' : A → Cmd B)
      → ((a : A) (s : Proxy) → k a s ≡ k' a s)
      → and_then r k ≡ and_then r k'
  then_ap (ok a s) k k' e = e a s
  then_ap fault k k' e = refl
  then_ap exited k k' e = refl

recycle-put_ops :
    (t : Thread) (free q : Ptr) (s : Proxy)
    → and_then (recycle free q s) (λ u s'. ok (spin s' q t) s')
      ≡ and_then (put_ops free q s) λ u. from_ops t (record { next = q; freed = some free })
unfolding recycle from_ops
recycle-put_ops t free q s = elim (Bool-cases (free == s.ops)) [
  | inl first ↦
      rw first
        (elim (Bool-cases (s.live free)) [ inl on ↦ simp (on) refl | inr off ↦ simp (off) refl ])
  | inr other ↦
      rw other
        (elim (Bool-cases (s.live free)) [ inl on ↦ simp (on) refl | inr off ↦ simp (off) refl ])
]

section_split :
    (b : Bool) (t : Thread) (free : Ptr) (s : Proxy)
    → and_then ((if b then retire t.op free else pure free) s) (λ q s'. ok (spin s' q t) s')
      ≡ and_then
          ((if b
              then (do
                q ← unlink t.op free
                put_ops free q
                pure (record { next = q; freed = some free }))
              else pure (record { next = free; freed = none }))
            s)
          (from_ops t)
unfolding retire from_ops
section_split true t free s =
    then_assoc (unlink t.op free s) _ _
    ∙ then_ap (unlink t.op free s) _ _ (λ q s1.
      then_assoc (recycle free q s1) _ _
      ∙ recycle-put_ops t free q s1
      ∙ sym (then_assoc (put_ops free q s1) _ _))
    ∙ sym (then_assoc (unlink t.op free s) _ _)
section_split false t free s = refl

-- The two parts of the second locked section, one behind the other, are the section.
advance-split : (t : Thread) (s : Proxy) → advance t s ≡ and_then (to_ops t s) (from_ops t)
unfolding advance to_ops
advance-split t s =
    then_ap (load t.op s) _ _ (λ o s1.
      then_ap (load o.next s1) _ _ (λ n s2. section_split (is_none n.state) t o.next s2)
      ∙ sym (then_assoc (load o.next s1) _ _))
    ∙ sym (then_assoc (load t.op s) _ _)

Returns-map :
    {A B C : Type 0} (P : B → Proxy → Type 0) (Q : C → Proxy → Type 0) (r : Run A) (k : A → Cmd B)
    (h : A → Cmd C)
    → Returns P (and_then r k)
    → ((a : A) (s : Proxy) → Returns P (k a s) → Returns Q (h a s))
    → Returns Q (and_then r h)
Returns-map P Q (ok a s) k h on next = next a s on
Returns-map P Q fault k h on next = on
Returns-map P Q exited k h on next = on

-- The rest of the section leaves `ops` alone.
from_ops-over :
    (k : Thread → Cmd Thread) (t : Thread) (m : Section) (s : Proxy)
    → ((t' : Thread) (s' : Proxy) → s'.ops ≡ s.ops → k t' s' ≡ ok t' s')
    → and_then (from_ops t m s) k ≡ from_ops t m s
unfolding from_ops
from_ops-over k t m s over = push_over m.freed
  where
    push_over :
        (freed : Option Ptr)
        → and_then (and_then (push freed s) (λ u s'. ok (spin s' m.next t) s')) k
          ≡ and_then (push freed s) λ u s'. ok (spin s' m.next t) s'
    push_over none = over (spin s m.next t) s refl
    push_over (some free) = elim (Bool-cases (s.live free)) [
      | inl on ↦ simp (on) (over _ _ refl)
      | inr off ↦ simp (off) refl
    ]

&&-first : (a b : Bool) → a && b ≡ true → a ≡ true
&&-first true b e = refl
&&-first false b e = e

turn-advancing :
    (progress : ℕ → ProxyArgs → ProxyArgs) (p : Phase) (t : Thread) (s : Proxy)
    → is_advancing p ≡ true
    → thread_turn progress p t s ≡ advance t s
turn-advancing progress Phase.advancing t s e = refl
turn-advancing progress Phase.polling t s e = absurd (true≢false (sym e))
turn-advancing progress Phase.waiting t s e = absurd (true≢false (sym e))
turn-advancing progress Phase.working t s e = absurd (true≢false (sym e))
turn-advancing progress Phase.returned t s e = absurd (true≢false (sym e))

module _ (progress : ℕ → ℕ → ProxyArgs → ProxyArgs) (looks : ℕ → Bool) (P : Thread → Proxy → Type 0)
    (finished : (t : Thread) (s : Proxy) → P t s → all_finished s ≡ true) where
  stays :
      (k : ℕ) (t : Thread) (m : Section) (s : Proxy)
      → all_finished s ≡ true
      → and_then (from_ops t m s) (run_until progress (λ s t. all_finished s) k)
        ≡ leave_section (record { thread = t; section = some m }) s
  unfolding all_finished
  stays k t m s seen =
      from_ops-over (run_until progress (λ s t. all_finished s) k) t m s λ t' s' same.
        run_until-over progress (λ s t. all_finished s) k t' s' (ap (λ o. o == null) same ∙ seen)

  -- What a wait that looks between the thread's steps only leaves, this one leaves once the thread
  -- is out of its section; and it has seen `ops` empty.
  pub wait_all_finished-Returns :
      (k : ℕ) (t : Thread) (s : Proxy)
      → Returns P (run_until progress (λ s t. all_finished s) k t s)
      → Returns
          (λ w s'. (all_finished s' ≡ true) × Returns P (leave_section w s'))
          (wait_all_finished progress looks k t s)
  unfolding wait_all_finished run_until
  wait_all_finished-Returns zero t s on = (finished t s on, on)
  wait_all_finished-Returns (suc k) t s on = elim (Bool-cases (all_finished s)) [
    | inl over ↦ rw over (
      over,
      subst (Returns P) (run_until-over progress (λ s t. all_finished s) (suc k) t s over) on,
    )
    | inr more ↦
        let on' =
          subst (Returns P)
            (run_until-next progress (λ s t. all_finished s) k t s t.phase more refl) on in
        elim (Bool-cases (is_advancing t.phase && looks k)) [
          | inl middle ↦
              rw (more, middle)
                (Returns-map P _ (to_ops t s) _ _
                  (subst (Returns P)
                    (ap (λ r. and_then r (run_until progress (λ s t. all_finished s) k))
                        (turn-advancing (progress k) t.phase t s
                            (&&-first (is_advancing t.phase) (looks k) middle)
                          ∙ advance-split t s)
                      ∙ then_assoc (to_ops t s) (from_ops t) _)
                    on')
                  λ m s1 on1. elim (Bool-cases (all_finished s1)) [
                    | inl seen ↦ rw seen (seen, subst (Returns P) (stays k t m s1 seen) on1)
                    | inr unseen ↦ rw unseen (
                        Returns-map P _ (from_ops t m s1) _ _ on1
                          λ t' s' on2. wait_all_finished-Returns k t' s' on2)
                  ])
          | inr between ↦
              rw (more, between)
                (Returns-map P _ (thread_turn (progress k) t.phase t s) _ _ on'
                  λ t' s' on1. wait_all_finished-Returns k t' s' on1)
        ]
  ]
