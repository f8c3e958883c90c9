-- ===== src/Controller/Arriving.antt =====
-- A call arrives at the barrier of controller/controller.py.
use flash_reduce_dev.Common.{
  ℕ, ◌+◌, ◌<◌, ◌≡◌, ltb, some, List, ◌==◌, pos, arith, inl, inr, refl, Bool-cases, ==→eq, eq→==, ap,
  ne→==, subst,
}
use flash_reduce_dev.Controller.Barrier.{Barriers, Phase, put, complete, arrive_at, Mark}
use flash_reduce_dev.Controller.Counting.{Stepped, arrivals, Completed, IsBarrier}

module _ (n : ℕ) (b : Barriers) (log : List Mark) (m k : ℕ → ℕ) where
  complete-Stepped :
      (a : ℕ)
      → arrivals b.op_id log ≡ a
      → a + 1 ≡ n
      → IsBarrier n b log (λ op. m op + 0) (λ op. k op + 0)
      → Stepped n log m k (
        Phase.checking b.op_id,
        complete (record b { ctrs = put b.ctrs b.op_id (some (pos (a + 1))) }),
      )
  unfolding complete
  complete-Stepped a e last v =
      let f = v.future (b.op_id + 1) (omega arith) in
      let miss = ne→== b.op_id (b.op_id + 1) (λ h. absurd (omega (arith, h))) in
      let hit = eq→== (b.op_id + 1) (b.op_id + 1) refl in
      record {
        barrier = record {
          current = rw (miss, f.0, hit) refl;
          entry = rw hit refl;
          unset = rw hit refl;
          room = rw (miss, f.0) (omega (arith, last));
          none_back = omega (arith, f.0, v.flow (b.op_id + 1));
          none_leaves = omega (arith, f.1);
          future = λ op less. (
            ground (arith, (v.future op (omega (arith, less))).0, less),
            omega (arith, (v.future op (omega (arith, less))).1),
          );
          past = λ op less. elim (Bool-cases (b.op_id == op)) [
            | inl same ↦ subst (Completed n _ _) (==→eq b.op_id op same) (record {
              full = rw (eq→== b.op_id b.op_id refl) (omega (arith, e, last));
              set = rw (miss, eq→== b.op_id b.op_id refl) refl;
              counted = rw (miss, eq→== b.op_id b.op_id refl) (omega (arith, last), v.entry);
            })
            | inr other ↦
                let p = v.past op (ground (arith, less, other)) in
                record {
                  full = rw other (omega (arith, p.full));
                  set =
                      rw
                        (
                          ne→== op (b.op_id + 1) (λ h. absurd (omega (arith, h, less))),
                          ne→== op b.op_id (λ h. absurd (ground (arith, h, other))),
                        )
                        p.set;
                  counted =
                      rw
                        (
                          ne→== op (b.op_id + 1) (λ h. absurd (omega (arith, h, less))),
                          ne→== op b.op_id (λ h. absurd (ground (arith, h, other))),
                        )
                        p.counted;
                }
          ];
          flow = λ op. omega (arith, v.flow op);
          ordered = v.ordered;
        };
        sound = refl;
      }

  -- Not the last one.
  join-Stepped :
      (a : ℕ)
      → arrivals b.op_id log ≡ a
      → a + 1 < n
      → IsBarrier n b log (λ op. m op + 0) (λ op. k op + 0)
      → Stepped n log m k
          (Phase.checking b.op_id, record b { ctrs = put b.ctrs b.op_id (some (pos (a + 1))) })
  join-Stepped a e more v =
      let hit = eq→== b.op_id b.op_id refl in
      record {
        barrier = record {
          current = rw hit (ap (λ z. some (pos z)) (omega (arith, e)));
          entry = v.entry;
          unset = v.unset;
          room = rw hit (omega (arith, e, more));
          none_back = v.none_back;
          none_leaves = v.none_leaves;
          future = λ op less. (ground (arith, (v.future op less).0, less), (v.future op less).1);
          past = λ op less.
              let p = v.past op less in
              let other = ne→== b.op_id op (λ h. absurd (omega (arith, h, less))) in
              let other' = ne→== op b.op_id (λ h. absurd (omega (arith, h, less))) in
              record {
                full = rw other (omega (arith, p.full));
                set = p.set;
                counted = rw other' p.counted;
              };
          flow = λ op. omega (arith, v.flow op);
          ordered = v.ordered;
        };
        sound = refl;
      }

  pub arrive-Stepped :
      IsBarrier n b log (λ op. m op + 0) (λ op. k op + 0)
      → Stepped n log m k (arrive_at n b (b.ctrs b.op_id))
  unfolding arrive_at
  arrive-Stepped v =
      rw (v.current, v.entry)
        (elim (Bool-cases (ltb (arrivals b.op_id log + 1) n)) [
          | inl more ↦ rw more (join-Stepped _ refl (ground (arith, more)) v)
          | inr last ↦ rw last (complete-Stepped _ refl (ground (arith, last, v.room)) v)
        ])
