-- ===== src/Controller/Counting.antt =====
-- How the barrier of controller/controller.py counts: what its entries say of the calls under way.
use flash_reduce_dev.Common.{
  ℕ, suc, ◌+◌, ◌≤◌, ◌<◌, ◌≡◌, ltb, Bool, true, false, Option, none, some, List, [], ◌∷◌, ◌++◌, ◌==◌,
  if◌then◌else◌, ℤ, pos, negsuc, ◌+ℤ◌, arith, ap,
}
use flash_reduce_dev.Controller.Barrier.{Barriers, Phase, Mark, note}

abbrev pub arrivals : (op : ℕ) → List Mark → ℕ
arrivals op [] = 0
arrivals op (Mark.arrival o ∷ log) = (if o == op then 1 else 0) + arrivals op log
arrivals op (Mark.return o ∷ log) = arrivals op log

abbrev pub returns : (op : ℕ) → List Mark → ℕ
returns op [] = 0
returns op (Mark.arrival o ∷ log) = returns op log
returns op (Mark.return o ∷ log) = (if o == op then 1 else 0) + returns op log

-- Each return from an operation comes after `n` arrivals in it.
abbrev pub IsOrdered : (n : ℕ) → List Mark → Type 0
IsOrdered n [] = Unit
IsOrdered n (Mark.arrival o ∷ log) = IsOrdered n log
IsOrdered n (Mark.return o ∷ log) = (n ≤ arrivals o log) × IsOrdered n log

-- The worker has arrived in the operation and is not back.
abbrev pub is_inside : (op : ℕ) → Phase → ℕ
is_inside op Phase.calling = 0
is_inside op (Phase.checking o) = if o == op then 1 else 0
is_inside op (Phase.waiting o) = if o == op then 1 else 0
is_inside op (Phase.leaving o) = if o == op then 1 else 0
is_inside op (Phase.returned o) = 0
is_inside op Phase.key_error = 0

abbrev pub is_leaving : (op : ℕ) → Phase → ℕ
is_leaving op Phase.calling = 0
is_leaving op (Phase.checking o) = 0
is_leaving op (Phase.waiting o) = 0
is_leaving op (Phase.leaving o) = if o == op then 1 else 0
is_leaving op (Phase.returned o) = 0
is_leaving op Phase.key_error = 0

abbrev pub is_error : Phase → ℕ
is_error Phase.calling = 0
is_error (Phase.checking o) = 0
is_error (Phase.waiting o) = 0
is_error (Phase.leaving o) = 0
is_error (Phase.returned o) = 0
is_error Phase.key_error = 1

abbrev pub sum : (Phase → ℕ) → List Phase → ℕ
sum f [] = 0
sum f (w ∷ ws) = f w + sum f ws

pub sum-split :
    (f : Phase → ℕ) (front : List Phase) (w : Phase) (back : List Phase)
    → sum f (front ++ w ∷ back) ≡ sum f (front ++ back) + f w
sum-split f [] w back = omega arith
sum-split f (x ∷ front) w back = omega (arith, sum-split f front w back)

-- The counter of a completed operation with `back` returns: as long as somebody is inside, it is
-- there, with its event.
abbrev pub Counted : (n back : ℕ) (event : Bool) → Option ℤ → Type 0
Counted n back event none = n ≤ back
Counted n back event (some (pos c)) = (n ≤ c + back) × (event ≡ true)
Counted n back event (some (negsuc c)) = ⊥

pub record Completed (n : ℕ) (b : Barriers) (log : List Mark) (op : ℕ) : Type 0 where
  pub full : arrivals op log ≡ n
  pub set : b.is_set op ≡ true
  pub counted : Counted n (returns op log) (b.events op) (b.ctrs op)

-- The state of the barrier while `inside op` workers are inside of `op` and `leave op` of them are
-- about to leave.
pub record IsBarrier (n : ℕ) (b : Barriers) (log : List Mark) (inside leave : ℕ → ℕ) : Type 0 where
  pub current : b.ctrs b.op_id ≡ some (pos (arrivals b.op_id log))
  pub entry : b.events b.op_id ≡ true
  pub unset : b.is_set b.op_id ≡ false
  pub room : arrivals b.op_id log < n
  pub none_back : returns b.op_id log ≡ 0
  pub none_leaves : leave b.op_id ≡ 0
  pub future : (op : ℕ) → b.op_id < op → (arrivals op log ≡ 0) × (leave op ≡ 0)
  pub past : (op : ℕ) → op < b.op_id → Completed n b log op
  pub flow : (op : ℕ) → arrivals op log ≡ inside op + returns op log
  pub ordered : IsOrdered n log

-- What a step leaves, with `m` other workers inside of each operation and `k` about to leave.
pub record Stepped (n : ℕ) (log : List Mark) (m k : ℕ → ℕ) (r : Phase × Barriers) : Type 0 where
  pub barrier :
      IsBarrier n r.1
        (note r.0 log)
        (λ op. m op + is_inside op r.0)
        (λ op. k op + is_leaving op r.0)
  pub sound : is_error r.0 ≡ 0

pub less_ltb : (a n : ℕ) → a < n → ltb a n ≡ true
less_ltb a n h = ground (arith, h)

pub decrement : (c : ℕ) → pos (suc c) +ℤ negsuc 0 ≡ pos c
decrement c = rw (less_ltb 0 (suc c) (omega arith)) (ap pos (omega arith))
