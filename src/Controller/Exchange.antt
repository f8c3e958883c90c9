-- ===== src/Controller/Exchange.antt =====
-- What `RdmaSession` of controller/controller.py gives back, in any order of the calls' steps.
use flash_reduce_dev.Common.{
  ℕ, ◌<◌, ◌≡◌, ◌∙◌, refl, sym, ap, subst, inl, inr, true, false, Bool-cases, Option, none, some,
  List, [], ◌∷◌, ◌++◌, ◌==◌, All, Any, not, All-map, All-append_right, length,
}
use flash_reduce_dev.Messages.SessionRequest.{RdmaSessionRequest}
use flash_reduce_dev.Controller.Barrier.{Mark}
use flash_reduce_dev.Controller.Session.{
  Session, Caller, Controller, first_request, answer_of, answer, SessionRun,
}
use flash_reduce_dev.Controller.Calls.{is_back}
use flash_reduce_dev.Controller.Table.{Has, HasSome, HasEntry, IsStored, From, RootFrom, Comes}
use flash_reduce_dev.Controller.Kept.{Kept, SessionRun-Kept}

-- What a session that has a request of the other kind answers, when all of these are `q`.
answer_other :
    {U : Type 0} (sid : ℕ) (req q : RdmaSessionRequest U) (o : Option (Session U))
    → Has (not (req.root == 1)) o
    → From
        (λ s r. s ≡ sid → not (req.root == 1) ≡ true → r ≡ q)
        (λ s r. s ≡ sid → not (req.root == 1) ≡ false → r ≡ q)
        sid
        o
    → answer_of req o ≡ some q
answer_other sid req q none = λ h from. absurd h
answer_other {U = U} sid req q (some x) = elim (Bool-cases (req.root == 1)) [
  | inl top ↦ rw top (λ h from. from_workers x.workers h from.1)
  | inr low ↦ rw low (λ h from. from_root x.root h from.0)
]
  where
    from_workers :
        (d : List (ℕ × RdmaSessionRequest U))
        → HasEntry d
        → All (λ e. sid ≡ sid → false ≡ false → e.1 ≡ q) d
        → first_request d ≡ some q
    from_workers [] h all = absurd h
    from_workers (e ∷ d) h all = ap some (all.0 refl refl)

    from_root :
        (r : Option (RdmaSessionRequest U))
        → HasSome r
        → RootFrom
            (λ s q'. s ≡ sid → true ≡ true → q' ≡ q)
            (λ s q'. s ≡ sid → true ≡ false → q' ≡ q)
            sid
            r
        → r ≡ some q
    from_root none h from = absurd h
    from_root (some r) h from = ap some (from refl refl)

-- The request is of the other kind in the same session.
abbrev pub IsOther : {U : Type 0} → (req other : RdmaSessionRequest U) → Type 0
IsOther req other = ((other.root == 1) ≡ not (req.root == 1)) × (other.session_id ≡ req.session_id)

module _ {U : Type 0} (n : ℕ) (some_workers : 0 < n) where
  -- As many workers as each of them asks for call `RdmaSession`, in any order of their steps, and
  -- as often as they like. A call that is back from the barrier finds the other side's request,
  -- when the requests of the other kind in its session are there and are all the same: the root
  -- that of its worker, and a worker that of the root.
  pub answer-IsOther :
      (k : Controller U) (front : List (Caller U)) (c : Caller U) (back : List (Caller U))
      (log : List Mark) (q : RdmaSessionRequest U)
      → SessionRun k (front ++ c ∷ back) log
      → length (front ++ c ∷ back) ≡ n
      → All (λ d. d.request.num_workers ≡ n) (front ++ c ∷ back)
      → Any (λ d. IsOther c.request d.request) (front ++ c ∷ back)
      → All (λ d. IsOther c.request d.request → d.request ≡ q) (front ++ c ∷ back)
      → is_back c.phase ≡ true
      → answer k.sessions c.request ≡ some q
  unfolding answer
  answer-IsOther k front c back log q run many asked there same gone =
      answer_other c.request.session_id c.request q (k.sessions c.request.session_id) found
        (kept.from c.request.session_id)
    where
      Root : ℕ → RdmaSessionRequest U → Type 0
      Root sid r = sid ≡ c.request.session_id → not (c.request.root == 1) ≡ true → r ≡ q

      Worker : ℕ → RdmaSessionRequest U → Type 0
      Worker sid r = sid ≡ c.request.session_id → not (c.request.root == 1) ≡ false → r ≡ q

      comes :
          (d : Caller U)
          → (IsOther c.request d.request → d.request ≡ q)
          → Comes Root Worker d.request
      comes d h = elim (Bool-cases (d.request.root == 1)) [
        | inl top ↦ rw top (λ e other. h (top ∙ sym other, e))
        | inr low ↦ rw low (λ e other. h (low ∙ sym other, e))
      ]

      kept : Kept n some_workers Root Worker k (front ++ c ∷ back)
      kept = SessionRun-Kept n some_workers Root Worker k (front ++ c ∷ back) log run (record {
        many = many;
        asked = asked;
        comes = All-map _ _ (front ++ c ∷ back) comes same;
      })

      find :
          (ds : List (Caller U))
          → All (λ d. IsStored k.sessions d.request) ds
          → Any (λ d. IsOther c.request d.request) ds
          → Has (not (c.request.root == 1)) (k.sessions c.request.session_id)
      find [] all any = absurd any
      find (d ∷ ds) all (inl o) =
          subst (λ b. Has b (k.sessions c.request.session_id)) o.0
            (subst (λ sid. Has (d.request.root == 1) (k.sessions sid)) o.1 all.0)
      find (d ∷ ds) all (inr o) = find ds all.1 o

      found : Has (not (c.request.root == 1)) (k.sessions c.request.session_id)
      found =
          find (front ++ c ∷ back)
            (kept.all_stored ((All-append_right _ front (c ∷ back) kept.back).0 gone)) there
