-- ===== src/Controller/Table.antt =====
-- What a step of `RdmaSession` of controller/controller.py does to the table of sessions.
use flash_reduce_dev.Common.{
  ℕ, ◌≡◌, refl, sym, subst, inl, inr, Bool, true, false, Bool-cases, Option, none, some, List, [],
  ◌∷◌, ◌==◌, if◌then◌else◌, ℤ, All, eq→==, ==→eq,
}
use flash_reduce_dev.Messages.SessionRequest.{RdmaSessionRequest}
use flash_reduce_dev.Controller.Barrier.{Barriers, Phase}
use flash_reduce_dev.Controller.Session.{
  insert, Session, Sessions, or_new, add_request, enter_request, enter_counted, table_after,
}
use flash_reduce_dev.Controller.Calls.{is_calling}

-- A request of the kind is in the session.
abbrev pub HasSome : {A : Type 0} → Option A → Type 0
HasSome none = ⊥
HasSome (some a) = Unit

abbrev pub HasEntry : {A : Type 0} → List A → Type 0
HasEntry [] = ⊥
HasEntry (x ∷ xs) = Unit

abbrev pub HasKind : {U : Type 0} → (root : Bool) → Session U → Type 0
HasKind true x = HasSome x.root
HasKind false x = HasEntry x.workers

abbrev pub Has : {U : Type 0} → (root : Bool) → Option (Session U) → Type 0
Has b none = ⊥
Has b (some x) = HasKind b x

module _ {U : Type 0} where
  abbrev pub IsStored : Sessions U → RdmaSessionRequest U → Type 0
  IsStored t q = Has (q.root == 1) (t q.session_id)

  insert-HasEntry :
      (k : ℕ) (q : RdmaSessionRequest U) (d : List (ℕ × RdmaSessionRequest U))
      → HasEntry (insert k q d)
  insert-HasEntry k q [] = tt
  insert-HasEntry k q (e ∷ d) = elim (Bool-cases (e.0 == k)) [
    | inl hit ↦ rw hit tt
    | inr miss ↦ rw miss tt
  ]

  add_request_self :
      (q : RdmaSessionRequest U) (x : Session U) → HasKind (q.root == 1) (add_request q x)
  add_request_self q x = elim (Bool-cases (q.root == 1)) [
    | inl top ↦ rw top tt
    | inr low ↦ rw low (insert-HasEntry q.rank q x.workers)
  ]

  add_request_keep :
      (b : Bool) (q : RdmaSessionRequest U) (x : Session U)
      → HasKind b x
      → HasKind b (add_request q x)
  add_request_keep true q x h = elim (Bool-cases (q.root == 1)) [
    | inl top ↦ rw top tt
    | inr low ↦ rw low h
  ]
  add_request_keep false q x h = elim (Bool-cases (q.root == 1)) [
    | inl top ↦ rw top h
    | inr low ↦ rw low (insert-HasEntry q.rank q x.workers)
  ]

  keep_at :
      (b : Bool) (q : RdmaSessionRequest U) (o : Option (Session U))
      → Has b o
      → Has b (some (add_request q (or_new o)))
  keep_at b q none h = absurd h
  keep_at b q (some x) h = add_request_keep b q x h

  enter_request_self : (q : RdmaSessionRequest U) (t : Sessions U) → IsStored (enter_request q t) q
  enter_request_self q t =
      rw (eq→== q.session_id q.session_id refl) (add_request_self q (or_new (t q.session_id)))

  enter_request_keep :
      (r q : RdmaSessionRequest U) (t : Sessions U) → IsStored t q → IsStored (enter_request r t) q
  enter_request_keep r q t h = elim (Bool-cases (q.session_id == r.session_id)) [
    | inl hit ↦ rw hit (
        keep_at (q.root == 1) r (t r.session_id)
          (subst (λ k. Has (q.root == 1) (t k)) (==→eq q.session_id r.session_id hit) h))
    | inr miss ↦ rw miss h
  ]

  pub table_after_keep :
      (b : Barriers) (w : Phase) (r q : RdmaSessionRequest U) (t : Sessions U)
      → IsStored t q
      → IsStored (table_after b w r t) q
  table_after_keep b Phase.calling r q t h = counted (b.ctrs b.op_id)
    where
      counted : (o : Option ℤ) → IsStored (enter_counted o r t) q
      counted none = h
      counted (some c) = enter_request_keep r q t h
  table_after_keep b (Phase.checking o) r q t h = h
  table_after_keep b (Phase.waiting o) r q t h = h
  table_after_keep b (Phase.leaving o) r q t h = h
  table_after_keep b (Phase.returned o) r q t h = h
  table_after_keep b Phase.key_error r q t h = h

  -- With a counter, the step of a worker that has not arrived enters its request; later ones find
  -- it there.
  pub table_after_self :
      (b : Barriers) (w : Phase) (q : RdmaSessionRequest U) (t : Sessions U) (c : ℤ)
      → b.ctrs b.op_id ≡ some c
      → (is_calling w ≡ false → IsStored t q)
      → IsStored (table_after b w q t) q
  table_after_self b Phase.calling q t c e h = rw e (enter_request_self q t)
  table_after_self b (Phase.checking o) q t c e h = h refl
  table_after_self b (Phase.waiting o) q t c e h = h refl
  table_after_self b (Phase.leaving o) q t c e h = h refl
  table_after_self b (Phase.returned o) q t c e h = h refl
  table_after_self b Phase.key_error q t c e h = h refl

-- Where the requests of the table come from.
module _ {U : Type 0} (Root Worker : ℕ → RdmaSessionRequest U → Type 0) where
  abbrev pub RootFrom : (sid : ℕ) → Option (RdmaSessionRequest U) → Type 0
  RootFrom sid none = Unit
  RootFrom sid (some q) = Root sid q

  abbrev pub From : (sid : ℕ) → Option (Session U) → Type 0
  From sid none = Unit
  From sid (some x) = RootFrom sid x.root × All (λ e. Worker sid e.1) x.workers

  abbrev pub Comes : RdmaSessionRequest U → Type 0
  Comes q = if q.root == 1 then Root q.session_id q else Worker q.session_id q

  insert-All :
      (sid k : ℕ) (q : RdmaSessionRequest U) (d : List (ℕ × RdmaSessionRequest U))
      → Worker sid q
      → All (λ e. Worker sid e.1) d
      → All (λ e. Worker sid e.1) (insert k q d)
  insert-All sid k q [] h all = (h, tt)
  insert-All sid k q (e ∷ d) h all = elim (Bool-cases (e.0 == k)) [
    | inl hit ↦ rw hit (h, all.1)
    | inr miss ↦ rw miss (all.0, insert-All sid k q d h all.1)
  ]

  or_new-From : (sid : ℕ) (o : Option (Session U)) → From sid o → From sid (some (or_new o))
  or_new-From sid none h = (tt, tt)
  or_new-From sid (some x) h = h

  add_request-From :
      (q : RdmaSessionRequest U) (x : Session U)
      → Comes q
      → From q.session_id (some x)
      → From q.session_id (some (add_request q x))
  add_request-From q x = elim (Bool-cases (q.root == 1)) [
    | inl top ↦ rw top (λ new old. (new, old.1))
    | inr low ↦ rw low (λ new old. (old.0, insert-All q.session_id q.rank q x.workers new old.1))
  ]

  enter_request-From :
      (q : RdmaSessionRequest U) (t : Sessions U)
      → Comes q
      → ((sid : ℕ) → From sid (t sid))
      → (sid : ℕ) → From sid (enter_request q t sid)
  enter_request-From q t new old sid = elim (Bool-cases (sid == q.session_id)) [
    | inl hit ↦ rw hit (
        subst (λ k. From k (some (add_request q (or_new (t q.session_id)))))
          (sym (==→eq sid q.session_id hit))
          (add_request-From q (or_new (t q.session_id)) new
            (or_new-From q.session_id (t q.session_id) (old q.session_id))))
    | inr miss ↦ rw miss (old sid)
  ]

  pub table_after-From :
      (b : Barriers) (w : Phase) (q : RdmaSessionRequest U) (t : Sessions U)
      → Comes q
      → ((sid : ℕ) → From sid (t sid))
      → (sid : ℕ) → From sid (table_after b w q t sid)
  table_after-From b Phase.calling q t new old = counted (b.ctrs b.op_id)
    where
      counted : (o : Option ℤ) (sid : ℕ) → From sid (enter_counted o q t sid)
      counted none = old
      counted (some c) = enter_request-From q t new old
  table_after-From b (Phase.checking o) q t new old = old
  table_after-From b (Phase.waiting o) q t new old = old
  table_after-From b (Phase.leaving o) q t new old = old
  table_after-From b (Phase.returned o) q t new old = old
  table_after-From b Phase.key_error q t new old = old
