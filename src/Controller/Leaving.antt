-- ===== src/Controller/Leaving.antt =====
-- A call that has arrived at the barrier of controller/controller.py goes on and returns.
use flash_reduce_dev.Common.{
  ℕ, zero, suc, ◌+◌, ◌≤◌, ◌<◌, ◌≡◌, ltb, Bool, true, false, true≢false, ◌≢◌, Option, none, some,
  List, ◌==◌, if◌then◌else◌, ℤ, pos, negsuc, ◌⊎◌, arith, inl, inr, refl, Bool-cases, ==→eq, eq→==,
  ap, sym, ◌∙◌, ne→==, subst,
}
use flash_reduce_dev.Controller.Barrier.{Barriers, Phase, put, check_at, leave_at, Mark}
use flash_reduce_dev.Controller.Counting.{
  Stepped, less_ltb, decrement, arrivals, returns, Counted, Completed, IsBarrier,
}

module _ (n : ℕ) (b : Barriers) (log : List Mark) (m k : ℕ → ℕ) where
  -- The worker that was inside of `o` returns; only the entry of `o` may have changed.
  return-Stepped :
      (o : ℕ) (c : ℕ → Option ℤ) (ev : ℕ → Bool) (l : ℕ → ℕ)
      → IsBarrier n b log (λ op. m op + (if o == op then 1 else 0)) l
      → ((op : ℕ) → k op ≤ l op)
      → o < b.op_id
      → ((op : ℕ) → (op == o) ≡ false → (c op ≡ b.ctrs op) × (ev op ≡ b.events op))
      → Counted n (1 + returns o log) (ev o) (c o)
      → Stepped n log m k
          (Phase.returned o, record { op_id = b.op_id; ctrs = c; events = ev; is_set = b.is_set })
  return-Stepped o c ev l v more before same counted =
      let away = ne→== b.op_id o (λ h. absurd (omega (arith, h, before))) in
      let away' = ne→== o b.op_id (λ h. absurd (omega (arith, h, before))) in
      record {
        barrier = record {
          current = (same b.op_id away).0 ∙ v.current;
          entry = (same b.op_id away).1 ∙ v.entry;
          unset = v.unset;
          room = v.room;
          none_back = rw away' (omega (arith, v.none_back));
          none_leaves = omega (arith, v.none_leaves, more b.op_id);
          future = λ op less. ((v.future op less).0, omega (arith, (v.future op less).1, more op));
          past = λ op less. elim (Bool-cases (o == op)) [
            | inl hit ↦ subst (Completed n _ _) (==→eq o op hit) (record {
              full = (v.past o before).full;
              set = (v.past o before).set;
              counted = rw (eq→== o o refl) counted;
            })
            | inr other ↦
                let p = v.past op less in
                let other' = ne→== op o (λ h. absurd (ground (arith, h, other))) in
                record {
                  full = p.full;
                  set = p.set;
                  counted =
                      rw (other, (same op other').0, (same op other').1)
                        (subst (λ r. Counted n r (b.events op) (b.ctrs op)) (omega arith)
                          p.counted);
                }
          ];
          flow = λ op. omega (arith, v.flow op);
          ordered = (omega (arith, (v.past o before).full), v.ordered);
        };
        sound = refl;
      }

  module _ (o : ℕ) (l : ℕ → ℕ)
      (v : IsBarrier n b log (λ op. m op + (if o == op then 1 else 0)) l) where
    inside_now : arrivals o log ≡ m o + 1 + returns o log
    inside_now =
        subst (λ (same : Bool). arrivals o log ≡ m o + (if same then 1 else 0) + returns o log)
          (eq→== o o refl) (v.flow o)

    -- Who is inside of an operation is in the current one or one before it.
    is_current : (o ≡ b.op_id) ⊎ (o < b.op_id)
    is_current = elim (Bool-cases (ltb b.op_id o)) [
      | inl later ↦ absurd (omega (arith, inside_now, (v.future o (ground (arith, later))).0))
      | inr now ↦ elim (Bool-cases (o == b.op_id)) [
        | inl hit ↦ inl (==→eq o b.op_id hit)
        | inr miss ↦ inr (ground (arith, now, miss))
      ]
    ]

    -- One that is inside is not back.
    not_all_back : o < b.op_id → returns o log < n
    not_all_back before = omega (arith, (v.past o before).full, inside_now)

  -- The test, on the counter that a completed operation has.
  check_completed :
      (o : ℕ) (c : Option ℤ)
      (v : IsBarrier n b log (λ op. m op + (if o == op then 1 else 0)) (λ op. k op + 0))
      → o < b.op_id
      → b.ctrs o ≡ c
      → Counted n (returns o log) (b.events o) c
      → Stepped n log m k (check_at n o c, b)
  unfolding check_at
  check_completed o none v before e h = absurd (omega (arith, h, not_all_back o _ v before))
  check_completed o (some (pos c)) v before e h = elim (Bool-cases (ltb c n)) [
    | inl less ↦ rw less (record { barrier = v; sound = refl })
    | inr more ↦ rw more (
        return-Stepped o b.ctrs b.events _ v (λ op. omega arith) before (λ op miss. (refl, refl))
          (subst (Counted n (1 + returns o log) (b.events o)) (sym e) (omega (arith, h.0), h.1)))
  ]
  check_completed o (some (negsuc c)) v before e h = absurd h

  pub check-Stepped :
      (o : ℕ)
      → IsBarrier n b log (λ op. m op + (if o == op then 1 else 0)) (λ op. k op + 0)
      → Stepped n log m k (check_at n o (b.ctrs o), b)
  unfolding check_at
  check-Stepped o v = elim (is_current o _ v) [
    | inl now ↦
        rw (ap b.ctrs now ∙ v.current, less_ltb _ n v.room) (record { barrier = v; sound = refl })
    | inr before ↦ check_completed o (b.ctrs o) v before refl (v.past o before).counted
  ]

  pub wait-Stepped :
      (o : ℕ)
      → IsBarrier n b log (λ op. m op + (if o == op then 1 else 0)) (λ op. k op + 0)
      → Stepped n log m k ((if b.is_set o then Phase.leaving o else Phase.waiting o), b)
  wait-Stepped o v = elim (Bool-cases (b.is_set o)) [
    | inl set ↦ rw set (record {
      barrier = record {
        current = v.current;
        entry = v.entry;
        unset = v.unset;
        room = v.room;
        none_back = v.none_back;
        none_leaves = rw (ne→== o b.op_id (not_current set)) (omega (arith, v.none_leaves));
        future = λ op less. (
          (v.future op less).0,
          rw (ne→== o op (not_later op less)) (omega (arith, (v.future op less).1)),
        );
        past = v.past;
        flow = v.flow;
        ordered = v.ordered;
      };
      sound = refl;
    })
    | inr unset ↦ rw unset (record { barrier = v; sound = refl })
  ]
    where
      not_current : b.is_set o ≡ true → o ≢ b.op_id
      not_current set now = true≢false (sym set ∙ ap b.is_set now ∙ v.unset)

      not_later : (op : ℕ) → b.op_id < op → o ≢ op
      not_later op less e = elim (is_current o _ v) [
        | inl now ↦ absurd (omega (arith, now, less, e))
        | inr before ↦ absurd (omega (arith, before, less, e))
      ]

  -- The second locked section, on the counter of a completed operation.
  leave_completed :
      (o : ℕ) (c : Option ℤ)
      (v : IsBarrier n b log
        (λ op. m op + (if o == op then 1 else 0))
        (λ op. k op + (if o == op then 1 else 0)))
      → o < b.op_id
      → Counted n (returns o log) (b.events o) c
      → Stepped n log m k (leave_at o b c)
  unfolding leave_at
  leave_completed o none v before h = absurd (omega (arith, h, not_all_back o _ v before))
  leave_completed o (some (pos zero)) v before h =
      absurd (omega (arith, h.0, not_all_back o _ v before))
  leave_completed o (some (pos (suc c))) v before h = rw (decrement c) (elim (Bool-cases (c == 0)) [
    | inl last ↦
        rw (last, h.1)
          (return-Stepped o (put b.ctrs o none) (put b.events o false) _ v (λ op. omega arith)
            before (λ op miss. (rw miss refl, rw miss refl))
            (rw (eq→== o o refl) (omega (arith, h.0, ==→eq c 0 last))))
    | inr more ↦ rw more (
        return-Stepped o (put b.ctrs o (some (pos c))) b.events _ v (λ op. omega arith) before
          (λ op miss. (rw miss refl, refl)) (rw (eq→== o o refl) (omega (arith, h.0), h.1)))
  ])
  leave_completed o (some (negsuc c)) v before h = absurd h

  pub leave-Stepped :
      (o : ℕ)
      → IsBarrier n b log
          (λ op. m op + (if o == op then 1 else 0))
          (λ op. k op + (if o == op then 1 else 0))
      → Stepped n log m k (leave_at o b (b.ctrs o))
  leave-Stepped o v = elim (is_current o _ v) [
    | inl now ↦ absurd (
        omega (
          arith,
          subst (λ (same : Bool). k b.op_id + (if same then 1 else 0) ≡ 0) (eq→== o b.op_id now)
              v.none_leaves,
        ))
    | inr before ↦ leave_completed o (b.ctrs o) v before (v.past o before).counted
  ]
