-- ===== src/Controller/Calls.antt =====
-- The calls of `RdmaSession` of controller/controller.py seen as calls at the barrier, and the
-- operations that a step leaves behind.
use flash_reduce_dev.Common.{
  ℕ, ◌≤◌, ◌≡◌, refl, sym, ap, subst, Bool, true, false, true≢false, Option, none, some, List, [],
  ◌∷◌, ◌++◌, map, ℤ, All, All-replace, All-append_right, arith,
}
use flash_reduce_dev.Controller.Barrier.{
  Barriers, Phase, turn, arrive_at, leave_at, complete, Mark, note, Run,
}
use flash_reduce_dev.Controller.Session.{Caller, Controller, session_turn, SessionRun}

-- The worker may not have arrived yet.
abbrev pub is_calling : Phase → Bool
is_calling Phase.calling = true
is_calling (Phase.checking op) = false
is_calling (Phase.waiting op) = false
is_calling (Phase.leaving op) = false
is_calling (Phase.returned op) = false
is_calling Phase.key_error = false

abbrev pub is_back : Phase → Bool
is_back Phase.calling = false
is_back (Phase.checking op) = false
is_back (Phase.waiting op) = false
is_back (Phase.leaving op) = false
is_back (Phase.returned op) = true
is_back Phase.key_error = false

-- The calls of a session are calls at the barrier.
pub phases_split :
    {U : Type 0} (front : List (Caller U)) (c : Caller U) (back : List (Caller U))
    → map (λ d. d.phase) (front ++ c ∷ back)
      ≡ map (λ d. d.phase) front ++ c.phase ∷ map (λ d. d.phase) back
phases_split [] c back = refl
phases_split (d ∷ front) c back = ap (λ l. d.phase ∷ l) (phases_split front c back)

module _ {U : Type 0} (n : ℕ) where
  pub SessionRun-Run :
      (k : Controller U) (cs : List (Caller U)) (log : List Mark)
      → SessionRun k cs log
      → All (λ c. c.request.num_workers ≡ n) cs
      → Run n k.barriers (map (λ c. c.phase) cs) log
  SessionRun-Run k cs log (SessionRun.opened ds all) same = Run.started _ (calling-phases ds all)
    where
      calling-phases :
          (es : List (Caller U))
          → All (λ c. c.phase ≡ Phase.calling) es
          → All (λ w. w ≡ Phase.calling) (map (λ c. c.phase) es)
      calling-phases [] h = tt
      calling-phases (e ∷ es) h = (h.0, calling-phases es h.1)
  SessionRun-Run k' cs log' (SessionRun.moved k front c back log before) same =
      let c' = (session_turn k c).0 in
      let e = (All-append_right _ front (c' ∷ back) same).0 in
      subst (λ ws. Run n (turn c.request.num_workers k.barriers c.phase).1 ws (note c'.phase log))
        (sym (phases_split front c' back))
        (subst
          (λ (m : ℕ).
            Run n (turn m k.barriers c.phase).1
              (map (λ d. d.phase) front ++ (turn m k.barriers c.phase).0 ∷ map (λ d. d.phase) back)
              (note (turn m k.barriers c.phase).0 log))
          (sym e)
          (Run.stepped k.barriers (map (λ d. d.phase) front) c.phase (map (λ d. d.phase) back) log (
            subst (λ ws. Run n k.barriers ws log) (phases_split front c back)
              (SessionRun-Run k (front ++ c ∷ back) log before
                (All-replace _ front c' c back same e)))))

module _ (n : ℕ) (b : Barriers) where
  arrive-op_id : (o : Option ℤ) → b.op_id ≤ (arrive_at n b o).1.op_id
  unfolding arrive_at complete
  arrive-op_id none = omega arith
  arrive-op_id (some c) = ground arith

  leave-op_id : (op : ℕ) (o : Option ℤ) → (leave_at op b o).1.op_id ≡ b.op_id
  unfolding leave_at
  leave-op_id op none = refl
  leave-op_id op (some c) = ground arith

  pub turn-op_id : (w : Phase) → is_calling w ≡ false → (turn n b w).1.op_id ≡ b.op_id
  unfolding turn
  turn-op_id Phase.calling h = absurd (true≢false h)
  turn-op_id (Phase.checking o) h = refl
  turn-op_id (Phase.waiting o) h = refl
  turn-op_id (Phase.leaving o) h = leave-op_id o (b.ctrs o)
  turn-op_id (Phase.returned o) h = refl
  turn-op_id Phase.key_error h = refl

  pub turn-op_id_le : (w : Phase) → b.op_id ≤ (turn n b w).1.op_id
  unfolding turn
  turn-op_id_le Phase.calling = arrive-op_id (b.ctrs b.op_id)
  turn-op_id_le (Phase.checking o) = omega arith
  turn-op_id_le (Phase.waiting o) = omega arith
  turn-op_id_le (Phase.leaving o) = omega (arith, leave-op_id o (b.ctrs o))
  turn-op_id_le (Phase.returned o) = omega arith
  turn-op_id_le Phase.key_error = omega arith
