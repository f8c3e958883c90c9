-- ===== src/Controller/Kept.antt =====
-- The table of sessions of controller/controller.py has the requests of those who have arrived.
use flash_reduce_dev.Common.{
  ℕ, ◌+◌, ◌≤◌, ◌<◌, ◌≡◌, ◌∙◌, refl, sym, ap, subst, inl, inr, true, false, true≢false, Bool-cases,
  List, ◌∷◌, ◌++◌, map, if◌then◌else◌, All, All-replace, All-both, All-append, All-map,
  All-append_left, All-append_right, length, length-append, arith, zero_or_pos,
}
use flash_reduce_dev.Messages.SessionRequest.{RdmaSessionRequest}
use flash_reduce_dev.Controller.Barrier.{Mark, note}
use flash_reduce_dev.Controller.Counting.{returns, is_inside, is_leaving, sum, IsBarrier}
use flash_reduce_dev.Controller.Order.{Run-IsBarrier}
use flash_reduce_dev.Controller.Session.{Caller, Controller, session_turn, SessionRun}
use flash_reduce_dev.Controller.Calls.{
  is_calling, is_back, SessionRun-Run, turn-op_id, turn-op_id_le,
}
use flash_reduce_dev.Controller.Table.{
  IsStored, table_after_keep, table_after_self, From, Comes, table_after-From,
}
use flash_reduce_dev.Controller.Inside.{
  note-arrivals, inside_le, back_over, insides, insides_split, insides_le, all_inside,
}

module _ {U : Type 0} (n : ℕ) (some_workers : 0 < n)
    (Root Worker : ℕ → RdmaSessionRequest U → Type 0) where
  -- Who has arrived has its request in the table; so have all, once an operation is over.
  pub record Kept (k : Controller U) (cs : List (Caller U)) : Type 0 where
    pub stored : All (λ c. is_calling c.phase ≡ false → IsStored k.sessions c.request) cs
    pub all_stored : 0 < k.barriers.op_id → All (λ c. IsStored k.sessions c.request) cs
    pub back : All (λ c. is_back c.phase ≡ true → 0 < k.barriers.op_id) cs
    pub from : (sid : ℕ) → From Root Worker sid (k.sessions sid)

  -- The calls are as many as they ask for.
  pub record AreMet (cs : List (Caller U)) : Type 0 where
    pub many : length cs ≡ n
    pub asked : All (λ c. c.request.num_workers ≡ n) cs
    pub comes : All (λ c. Comes Root Worker c.request) cs

  AreMet-back :
      (front : List (Caller U)) (c c' : Caller U) (back : List (Caller U))
      → c'.request ≡ c.request
      → AreMet (front ++ c' ∷ back)
      → AreMet (front ++ c ∷ back)
  AreMet-back front c c' back e m = record {
    many = omega (arith, m.many, length-append front (c' ∷ back), length-append front (c ∷ back));
    asked =
        All-replace _ front c' c back m.asked
          (ap (λ q. q.num_workers) (sym e) ∙ (All-append_right _ front (c' ∷ back) m.asked).0);
    comes =
        All-replace _ front c' c back m.comes
          (subst (Comes Root Worker) e (All-append_right _ front (c' ∷ back) m.comes).0);
  }

  module _ (k : Controller U) (front : List (Caller U)) (c : Caller U) (back : List (Caller U))
      (log : List Mark) (run : SessionRun k (front ++ c ∷ back) log)
      (met : AreMet (front ++ (session_turn k c).0 ∷ back))
      (kept : Kept k (front ++ c ∷ back)) where
    before : AreMet (front ++ c ∷ back)
    before = AreMet-back front c (session_turn k c).0 back refl met

    v :
        IsBarrier n k.barriers log
          (λ op. sum (is_inside op) (map (λ d. d.phase) (front ++ c ∷ back)))
          (λ op. sum (is_leaving op) (map (λ d. d.phase) (front ++ c ∷ back)))
    v =
        (Run-IsBarrier n some_workers k.barriers _ log
          (SessionRun-Run n k (front ++ c ∷ back) log run before.asked)).0

    v' :
        IsBarrier n
          (session_turn k c).1.barriers
          (note (session_turn k c).0.phase log)
          (λ op. sum (is_inside op) (map (λ d. d.phase) (front ++ (session_turn k c).0 ∷ back)))
          (λ op. sum (is_leaving op) (map (λ d. d.phase) (front ++ (session_turn k c).0 ∷ back)))
    v' =
        (Run-IsBarrier n some_workers (session_turn k c).1.barriers _ _ (
          SessionRun-Run n (session_turn k c).1 (front ++ (session_turn k c).0 ∷ back) _
            (SessionRun.moved k front c back log run) met.asked)).0

    own : IsStored (session_turn k c).1.sessions c.request
    own =
        table_after_self k.barriers c.phase c.request k.sessions _ v.current
          (All-append_right _ front (c ∷ back) kept.stored).0

    keep :
        (d : Caller U)
        → IsStored k.sessions d.request
        → IsStored (session_turn k c).1.sessions d.request
    keep d = table_after_keep k.barriers c.phase c.request d.request k.sessions

    -- When the step completes the first operation, the others are inside of it.
    others_in :
        k.barriers.op_id ≡ 0
        → 0 < (session_turn k c).1.barriers.op_id
        → All (λ d. is_calling d.phase ≡ false) front × All (λ d. is_calling d.phase ≡ false) back
    unfolding insides
    others_in start over = (
      all_inside 0 front (omega (arith, crowd, insides_le 0 back)),
      all_inside 0 back (omega (arith, crowd, insides_le 0 front)),
    )
      where
        calls : is_inside 0 c.phase ≡ 0
        calls = elim (Bool-cases (is_calling c.phase)) [
          | inl yet ↦ omega (
            arith,
            subst (λ b. is_inside 0 c.phase + (if b then 1 else 0) ≤ 1) yet (inside_le 0 c.phase),
          )
          | inr gone ↦
              absurd (
                omega
                  (arith, over, start, turn-op_id c.request.num_workers k.barriers c.phase gone))
        ]

        crowd : length front + length back ≤ insides 0 front + insides 0 back
        crowd = omega (
          arith,
          calls,
          (v'.past 0 over).full,
          note-arrivals 0 (session_turn k c).0.phase log,
          v.flow 0,
          insides_split 0 front c back,
          ap (λ o. returns o log) (sym start) ∙ v.none_back,
          before.many,
          length-append front (c ∷ back),
        )

    arrived :
        (ds : List (Caller U))
        → All (λ d. is_calling d.phase ≡ false → IsStored k.sessions d.request) ds
        → All (λ d. is_calling d.phase ≡ false) ds
        → All (λ d. IsStored (session_turn k c).1.sessions d.request) ds
    arrived ds h calm = All-map _ _ ds (λ d both. keep d (both.0 both.1)) (All-both _ _ ds h calm)

    step-Kept : Kept (session_turn k c).1 (front ++ (session_turn k c).0 ∷ back)
    step-Kept = record {
      stored =
          All-replace _ front c (session_turn k c).0 back
            (All-map _ _ (front ++ c ∷ back) (λ d h calm. keep d (h calm)) kept.stored)
            (λ calm. own);
      all_stored = λ over. elim (zero_or_pos k.barriers.op_id) [
        | inl start ↦
            let (f, g) = others_in start over in
            All-append _ front ((session_turn k c).0 ∷ back)
              (arrived front (All-append_left _ front (c ∷ back) kept.stored) f)
              (own, arrived back (All-append_right _ front (c ∷ back) kept.stored).1 g)
        | inr on ↦
            All-replace _ front c (session_turn k c).0 back
              (All-map _ _ (front ++ c ∷ back) keep (kept.all_stored on)) own
      ];
      back =
          All-replace _ front c (session_turn k c).0 back
            (All-map _ _ (front ++ c ∷ back)
              (λ d h e. omega (arith, h e, turn-op_id_le c.request.num_workers k.barriers c.phase))
              kept.back)
            (λ e.
              back_over n (session_turn k c).1.barriers (session_turn k c).0.phase log _ _
                some_workers v' e);
      from =
          table_after-From Root Worker k.barriers c.phase c.request k.sessions
            (All-append_right _ front (c ∷ back) before.comes).0 kept.from;
    }

  pub SessionRun-Kept :
      (k : Controller U) (cs : List (Caller U)) (log : List Mark)
      → SessionRun k cs log
      → AreMet cs
      → Kept k cs
  SessionRun-Kept k cs log (SessionRun.opened ds all) met = record {
    stored = All-map _ _ ds (λ d e h. absurd (true≢false (sym (ap is_calling e) ∙ h))) all;
    all_stored = λ over. absurd (omega (arith, over));
    back = All-map _ _ ds (λ d e h. absurd (true≢false (sym h ∙ ap is_back e))) all;
    from = λ sid. tt;
  }
  SessionRun-Kept k' cs log' (SessionRun.moved k front c back log run) met =
      step-Kept k front c back log run met (
        SessionRun-Kept k (front ++ c ∷ back) log run
          (AreMet-back front c (session_turn k c).0 back refl met))
