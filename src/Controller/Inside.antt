-- ===== src/Controller/Inside.antt =====
-- Who is inside an operation of the barrier of controller/controller.py, among calls of
-- `RdmaSession`.
use flash_reduce_dev.Common.{
  ℕ, ◌+◌, ◌≤◌, ◌<◌, ◌≡◌, ◌∙◌, sym, ap, subst, inl, inr, true, false, true≢false, Bool-cases, List,
  [], ◌∷◌, ◌++◌, map, if◌then◌else◌, All, length, arith, zero_or_pos,
}
use flash_reduce_dev.Controller.Barrier.{Barriers, Phase, Mark, note}
use flash_reduce_dev.Controller.Counting.{arrivals, is_inside, sum, IsBarrier}
use flash_reduce_dev.Controller.Session.{Caller}
use flash_reduce_dev.Controller.Calls.{is_calling, is_back}

pub note-arrivals :
    (op : ℕ) (w : Phase) (log : List Mark) → arrivals op (note w log) ≤ arrivals op log + 1
note-arrivals op Phase.calling log = omega arith
note-arrivals op (Phase.checking o) log = ground arith
note-arrivals op (Phase.waiting o) log = omega arith
note-arrivals op (Phase.leaving o) log = omega arith
note-arrivals op (Phase.returned o) log = omega arith
note-arrivals op Phase.key_error log = omega arith

-- A worker that is inside has arrived, and counts once.
pub inside_le : (op : ℕ) (w : Phase) → is_inside op w + (if is_calling w then 1 else 0) ≤ 1
inside_le op Phase.calling = omega arith
inside_le op (Phase.checking o) = ground arith
inside_le op (Phase.waiting o) = ground arith
inside_le op (Phase.leaving o) = ground arith
inside_le op (Phase.returned o) = omega arith
inside_le op Phase.key_error = omega arith

-- Who comes back has an operation that is over.
pub back_over :
    (n : ℕ) (b : Barriers) (w : Phase) (log : List Mark) (i l : ℕ → ℕ)
    → 0 < n
    → IsBarrier n b (note w log) i l
    → is_back w ≡ true
    → 0 < b.op_id
back_over n b Phase.calling log i l some_workers v h = absurd (true≢false (sym h))
back_over n b (Phase.checking o) log i l some_workers v h = absurd (true≢false (sym h))
back_over n b (Phase.waiting o) log i l some_workers v h = absurd (true≢false (sym h))
back_over n b (Phase.leaving o) log i l some_workers v h = absurd (true≢false (sym h))
back_over n b (Phase.returned o) log i l some_workers v h = elim (zero_or_pos b.op_id) [
  | inl start ↦ elim (zero_or_pos o) [
    | inl now ↦
        absurd (omega (arith, v.room, v.ordered.0, ap (λ k. arrivals k log) (start ∙ sym now)))
    | inr later ↦
        absurd
          (omega (arith, (v.future o (omega (arith, start, later))).0, v.ordered.0, some_workers))
  ]
  | inr over ↦ over
]
back_over n b Phase.key_error log i l some_workers v h = absurd (true≢false (sym h))

module _ {U : Type 0} where
  unfoldable pub insides : ℕ → List (Caller U) → ℕ
  insides op cs = sum (is_inside op) (map (λ c. c.phase) cs)

  pub insides_split :
      (op : ℕ) (front : List (Caller U)) (c : Caller U) (back : List (Caller U))
      → insides op (front ++ c ∷ back) ≡ insides op front + is_inside op c.phase + insides op back
  unfolding insides
  insides_split op [] c back = omega arith
  insides_split op (d ∷ front) c back = omega (arith, insides_split op front c back)

  pub insides_le : (op : ℕ) (cs : List (Caller U)) → insides op cs ≤ length cs
  unfolding insides
  insides_le op [] = omega arith
  insides_le op (c ∷ cs) = omega (arith, inside_le op c.phase, insides_le op cs)

  pub all_inside :
      (op : ℕ) (cs : List (Caller U))
      → length cs ≤ insides op cs
      → All (λ c. is_calling c.phase ≡ false) cs
  unfolding insides
  all_inside op [] h = tt
  all_inside op (c ∷ cs) h = elim (Bool-cases (is_calling c.phase)) [
    | inl yet ↦ absurd (
        omega (
          arith,
          h,
          subst (λ b. is_inside op c.phase + (if b then 1 else 0) ≤ 1) yet (inside_le op c.phase),
          insides_le op cs,
        ))
    | inr gone ↦ (gone, all_inside op cs (omega (arith, h, inside_le op c.phase)))
  ]
