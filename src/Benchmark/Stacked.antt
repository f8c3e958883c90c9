-- ===== src/Benchmark/Stacked.antt =====
-- Objects of examples/proxy_send_recv.cc on top of others: how a creation and a release fare.
use flash_reduce_dev.Common.{
  ℕ, ◌≡◌, ◌≢◌, ◌∙◌, refl, ap, sym, inl, inr, false, true, List, [], ◌∷◌, ◌==◌, true≢false, Outcome,
  done, check_failed, undefined, ◌>>=◌, All, eq→==, Bool-cases, ==→eq,
}
use flash_reduce_dev.Proxy.State.{Ptr, null}
use flash_reduce_dev.Benchmark.Objects.{successful, non_null}
use flash_reduce_dev.Benchmark.Live.{
  Kind, rank, Object, listed, is_used, is_taken, is_there, without, Creates, Releases,
}

-- The object is not in use, its address is its own, and what it is built on is there.
pub record IsNew (o : Object) (os : List Object) : Type 0 where
  pub unused : is_used o.at os ≡ false
  pub untaken : is_taken o.at os ≡ false
  pub grounded : All (λ n. is_taken n os ≡ true) o.needs

listed-grounded :
    (p : Ptr) (os : List Object) (ns : List Ptr)
    → is_taken p os ≡ false
    → All (λ n. is_taken n os ≡ true) ns
    → listed p ns ≡ false
listed-grounded p os [] free all = refl
listed-grounded p os (n ∷ ns) free all = elim (Bool-cases (n == p)) [
  | inl hit ↦
      absurd (true≢false (sym all.0 ∙ ap (λ (q : Ptr). is_taken q os) (==→eq n p hit) ∙ free))
  | inr miss ↦ rw miss (listed-grounded p os ns free all.1)
]

pub is_set : (p : Ptr) → (p == null) ≡ false → p ≢ null
is_set p h e = true≢false (sym (eq→== p null e) ∙ h)

module _ {V : Type 0} (live : V → List Object) where
  -- A new object can be released at once.
  pub pop :
      (k : Kind) (p : Ptr) (needs : List Ptr) (os : List Object) (d d' : V)
      → IsNew (record { kind = k; at = p; needs = needs }) os
      → live d ≡ record { kind = k; at = p; needs = needs } ∷ os
      → Releases live k p d d'
      → live d' ≡ os
  pop k p needs os d d' new e released =
      released (ap (is_there k p) e ∙ rw (eq→== (rank k) (rank k) refl, eq→== p p refl) refl) (
        ap (is_used p) e
        ∙ rw (listed-grounded p os needs new.untaken new.grounded, new.unused) refl)
      ∙ ap (without k p) e
      ∙ rw (eq→== (rank k) (rank k) refl, eq→== p p refl) refl

-- How a part of `main` ends: when it goes on, `P` holds, and when it fails a check, `F`.
abbrev pub Settles : {A : Type 0} (F : Type 0) → (A → Type 0) → Outcome A → Type 0
Settles F P (done a) = P a
Settles F P check_failed = F
Settles F P undefined = ⊥

pub Settles-then :
    {A B : Type 0} (E F : Type 0) (P : A → Type 0) (Q : B → Type 0) (m : Outcome A)
    (f : A → Outcome B)
    → Settles E P m
    → (E → F)
    → ((a : A) → P a → Settles F Q (f a))
    → Settles F Q (m >>= f)
Settles-then E F P Q (done a) f h fails step = step a h
Settles-then E F P Q check_failed f h fails step = fails h
Settles-then E F P Q undefined f h fails step = h

pub Settles-failed :
    {A : Type 0} (P : A → Type 0) (m : Outcome A)
    → Settles Unit P m
    → Settles (m ≡ check_failed) P m
Settles-failed P (done a) h = h
Settles-failed P check_failed h = refl
Settles-failed P undefined h = h

module _ {V B : Type 0} (F : Type 0) (Q : B → Type 0) where
  pub successful-then :
      {A : Type 0} (r : V × ℕ × A) (f : V × A → Outcome B)
      → (r.1 ≢ 0 → F)
      → Settles F Q (f (r.0, r.2))
      → Settles F Q (successful r >>= f)
  unfolding successful
  successful-then r f fails next = elim (Bool-cases (r.1 == 0)) [
    | inl hit ↦ rw hit next
    | inr miss ↦ rw miss (fails λ e. true≢false (sym (eq→== r.1 0 e) ∙ miss))
  ]

  pub non_null-then :
      (r : V × Ptr) (f : V × Ptr → Outcome B)
      → (r.1 ≡ null → F)
      → (r.1 ≢ null → Settles F Q (f r))
      → Settles F Q (non_null r >>= f)
  unfolding non_null
  non_null-then r f fails next = elim (Bool-cases (r.1 == null)) [
    | inl hit ↦ rw hit (fails (==→eq r.1 null hit))
    | inr miss ↦ rw miss (next (is_set r.1 miss))
  ]

module _ {V : Type 0} (live : V → List Object) where
  -- A successful creation on top of the objects `os`.
  pub Creates-live :
      (k : Kind) (needs : List Ptr) (os : List Object) (d : V) (r : V × Ptr)
      → live d ≡ os
      → Creates live k needs d r
      → r.1 ≢ null
      → live r.0 ≡ record { kind = k; at = r.1; needs = needs } ∷ os
  Creates-live k needs os d r e c set =
      c.live_after set ∙ ap (λ os'. record { kind = k; at = r.1; needs = needs } ∷ os') e

  pub Creates-IsNew :
      (k : Kind) (needs : List Ptr) (os : List Object) (d : V) (r : V × Ptr)
      → live d ≡ os
      → Creates live k needs d r
      → r.1 ≢ null
      → All (λ n. is_taken n os ≡ true) needs
      → IsNew (record { kind = k; at = r.1; needs = needs }) os
  Creates-IsNew k needs os d r e c set grounded = record {
    unused = sym (ap (is_used r.1) e) ∙ c.unused set;
    untaken = sym (ap (is_taken r.1) e) ∙ c.untaken set;
    grounded = grounded;
  }
