-- ===== src/Controller/Order.antt =====
-- What the workers can rely on at the barrier of controller/controller.py, in any order of steps.
use flash_reduce_dev.Common.{
  ℕ, zero, suc, ◌<◌, ◌≡◌, ltb, Bool, true, false, Option, none, some, List, [], ◌∷◌, ◌++◌, ◌==◌, ℤ,
  pos, negsuc, All, arith, inl, inr, refl, Bool-cases, ==→eq, eq→==, ap, sym, ◌∙◌,
}
use flash_reduce_dev.Controller.Barrier.{
  Barriers, Phase, new_barriers, turn, Mark, Run, check_at, leave_at,
}
use flash_reduce_dev.Controller.Counting.{
  decrement, arrivals, returns, IsOrdered, is_inside, is_leaving, is_error, sum, sum-split, Counted,
  Completed, IsBarrier,
}
use flash_reduce_dev.Controller.Meeting.{turn-Stepped}

IsBarrier_cong :
    (n : ℕ) (b : Barriers) (log : List Mark) (i l i' l' : ℕ → ℕ)
    → ((op : ℕ) → i' op ≡ i op)
    → ((op : ℕ) → l' op ≡ l op)
    → IsBarrier n b log i l
    → IsBarrier n b log i' l'
IsBarrier_cong n b log i l i' l' same same' v = record {
  current = v.current;
  entry = v.entry;
  unset = v.unset;
  room = v.room;
  none_back = v.none_back;
  none_leaves = same' b.op_id ∙ v.none_leaves;
  future = λ op less. ((v.future op less).0, same' op ∙ (v.future op less).1);
  past = v.past;
  flow = λ op. omega (arith, v.flow op, same op);
  ordered = v.ordered;
}

sum_calling :
    (f : Phase → ℕ) (ws : List Phase)
    → f Phase.calling ≡ 0
    → All (λ w. w ≡ Phase.calling) ws
    → sum f ws ≡ 0
sum_calling f [] z h = refl
sum_calling f (w ∷ ws) z h = rw (h.0) (omega (arith, z, sum_calling f ws z h.1))

new-IsBarrier : (n : ℕ) → 0 < n → IsBarrier n new_barriers [] (λ op. 0) (λ op. 0)
new-IsBarrier n some_workers = record {
  current = refl;
  entry = refl;
  unset = refl;
  room = some_workers;
  none_back = refl;
  none_leaves = refl;
  future = λ op less. (refl, refl);
  past = λ op less. absurd (omega (arith, less));
  flow = λ op. omega arith;
  ordered = tt;
}

module _ (n : ℕ) (some_workers : 0 < n) where
  pub Run-IsBarrier :
      (b : Barriers) (ws : List Phase) (log : List Mark)
      → Run n b ws log
      → IsBarrier n b log (λ op. sum (is_inside op) ws) (λ op. sum (is_leaving op) ws)
        × (sum is_error ws ≡ 0)
  Run-IsBarrier b ws log (Run.started k all) = (
    IsBarrier_cong n new_barriers [] _ _ _ _ (λ op. sum_calling (is_inside op) k refl all)
        (λ op. sum_calling (is_leaving op) k refl all) (new-IsBarrier n some_workers),
    sum_calling is_error k refl all,
  )
  Run-IsBarrier b' ws log' (Run.stepped b front w back log before) =
      let (v, well) = Run-IsBarrier b (front ++ w ∷ back) log before in
      let s =
        turn-Stepped n b log (λ op. sum (is_inside op) (front ++ back))
          (λ op. sum (is_leaving op) (front ++ back)) w
          (omega (arith, well, sum-split is_error front w back))
          (IsBarrier_cong n b log _ _ _ _ (λ op. sym (sum-split (is_inside op) front w back))
            (λ op. sym (sum-split (is_leaving op) front w back)) v) in
      (
        IsBarrier_cong n _ _ _ _ _ _ (λ op. sum-split (is_inside op) front (turn n b w).0 back)
            (λ op. sum-split (is_leaving op) front (turn n b w).0 back) s.barrier,
        omega (
          arith,
          s.sound,
          well,
          sum-split is_error front w back,
          sum-split is_error front (turn n b w).0 back,
        ),
      )

  -- Whatever the number of workers and the order of their steps, when all ask for a barrier of the
  -- same number, not zero, no call returns from an operation before that many calls have arrived in
  -- it.
  pub Run-IsOrdered :
      (b : Barriers) (ws : List Phase) (log : List Mark) → Run n b ws log → IsOrdered n log
  Run-IsOrdered b ws log run = (Run-IsBarrier b ws log run).0.ordered

  -- Nor does any call end in a `KeyError`, although entries are deleted while others read them.
  pub Run-is_error :
      (b : Barriers) (ws : List Phase) (log : List Mark) → Run n b ws log → sum is_error ws ≡ 0
  Run-is_error b ws log run = (Run-IsBarrier b ws log run).1

-- The steps that a worker inside has left.
abbrev pub distance : Phase → ℕ
distance Phase.calling = 4
distance (Phase.checking o) = 3
distance (Phase.waiting o) = 2
distance (Phase.leaving o) = 1
distance (Phase.returned o) = 0
distance Phase.key_error = 4

-- The call is in the operation or back from it.
abbrev pub is_in : (op : ℕ) → Phase → Bool
is_in op Phase.calling = false
is_in op (Phase.checking o) = o == op
is_in op (Phase.waiting o) = o == op
is_in op (Phase.leaving o) = o == op
is_in op (Phase.returned o) = o == op
is_in op Phase.key_error = false

abbrev pub Closer : (op : ℕ) → Phase → Phase → Type 0
Closer op w w' = (distance w' < distance w) × (is_in op w' ≡ true)

inside-here : (o op : ℕ) → is_inside op (Phase.checking o) ≡ 1 → o ≡ op
inside-here o op h = ground (arith, h)

check-Closer :
    (n op back : ℕ) (event : Bool) (c : Option ℤ)
    → Counted n back event c
    → back < n
    → Closer op (Phase.checking op) (check_at n op c)
unfolding check_at
check-Closer n op back event none h less = absurd (omega (arith, h, less))
check-Closer n op back event (some (pos c)) h less = elim (Bool-cases (ltb c n)) [
  | inl e ↦ rw e (omega arith, eq→== op op refl)
  | inr e ↦ rw e (omega arith, eq→== op op refl)
]
check-Closer n op back event (some (negsuc c)) h less = absurd h

leave-Closer :
    (n op back : ℕ) (b : Barriers) (c : Option ℤ)
    → Counted n back (b.events op) c
    → back < n
    → Closer op (Phase.leaving op) (leave_at op b c).0
unfolding leave_at
leave-Closer n op back b none h less = absurd (omega (arith, h, less))
leave-Closer n op back b (some (pos zero)) h less = absurd (omega (arith, h.0, less))
leave-Closer n op back b (some (pos (suc c))) h less =
    rw (decrement c) (elim (Bool-cases (c == 0)) [
      | inl last ↦ rw (last, h.1) (omega arith, eq→== op op refl)
      | inr more ↦ rw more (omega arith, eq→== op op refl)
    ])
leave-Closer n op back b (some (negsuc c)) h less = absurd h

module _ (n : ℕ) (some_workers : 0 < n) where
  -- Once as many calls have arrived in an operation as its barrier asks for, nobody is stuck in it:
  -- in every state that is reached, each step of a worker that is in it takes the worker closer to
  -- its return, which it reaches in three steps at most, whatever the others do in between.
  pub turn-Closer :
      (b : Barriers) (front : List Phase) (w : Phase) (back : List Phase) (log : List Mark) (op : ℕ)
      → Run n b (front ++ w ∷ back) log
      → is_inside op w ≡ 1
      → arrivals op log ≡ n
      → Closer op w (turn n b w).0
  unfolding turn
  turn-Closer b front w back log op run inside full = closer w inside
    where
      v :
          IsBarrier n b log
            (λ op. sum (is_inside op) (front ++ w ∷ back))
            (λ op. sum (is_leaving op) (front ++ w ∷ back))
      v = (Run-IsBarrier n some_workers b (front ++ w ∷ back) log run).0

      before : op < b.op_id
      before = elim (Bool-cases (ltb op b.op_id)) [
        | inl less ↦ ground (arith, less)
        | inr more ↦ elim (Bool-cases (op == b.op_id)) [
          | inl now ↦
              absurd
                (omega (arith, v.room, full, ap (λ (o : ℕ). arrivals o log) (==→eq op b.op_id now)))
          | inr miss ↦
              absurd
                (omega (arith, (v.future op (ground (arith, more, miss))).0, full, some_workers))
        ]
      ]

      p : Completed n b log op
      p = v.past op before

      less : returns op log < n
      less = omega (arith, full, v.flow op, sum-split (is_inside op) front w back, inside)

      closer : (x : Phase) → is_inside op x ≡ 1 → Closer op x (turn n b x).0
      closer Phase.calling h = absurd (omega (arith, h))
      closer (Phase.checking o) h =
          rw (inside-here o op h) (check-Closer n op _ _ (b.ctrs op) p.counted less)
      closer (Phase.waiting o) h = rw (inside-here o op h, p.set) (omega arith, eq→== op op refl)
      closer (Phase.leaving o) h =
          rw (inside-here o op h) (leave-Closer n op _ b (b.ctrs op) p.counted less)
      closer (Phase.returned o) h = absurd (omega (arith, h))
      closer Phase.key_error h = absurd (omega (arith, h))
