-- ===== src/Controller/Barrier.antt =====
-- The barrier of controller/controller.py, which its calls `Barrier` and `RdmaSession` share.
use flash_reduce_dev.Common.{
  ℕ, ◌+◌, ◌≡◌, ltb, Bool, true, false, not, Option, none, some, List, [], ◌∷◌, ◌++◌, ◌==◌,
  if◌then◌else◌, ℤ, pos, negsuc, ◌+ℤ◌, is_zero, All,
}

-- `_barrier_op_id`, `_barrier_ctrs`, the keys of `_barrier_events`, and the flag of the event that
-- was made for each operation, which those who hold the event still see when its entry is deleted.
pub record Barriers : Type 0 where
  pub op_id : ℕ
  pub ctrs : ℕ → Option ℤ
  pub events : ℕ → Bool
  pub is_set : ℕ → Bool

-- Where a worker's call is: before its first locked section, at the test behind it, in
-- `event.wait()`, before the second locked section, back from the call, or ended by a `KeyError`.
-- The number is `current_op_id`.
pub data Phase : Type 0 where
  calling : Phase
  checking : (op : ℕ) → Phase
  waiting : (op : ℕ) → Phase
  leaving : (op : ℕ) → Phase
  returned : (op : ℕ) → Phase
  key_error : Phase

-- `Controller.__init__`
abbrev pub new_barriers : Barriers
new_barriers = record {
  op_id = 0;
  ctrs = λ op. if op == 0 then some (pos 0) else none;
  events = λ op. op == 0;
  is_set = λ op. false;
}

abbrev pub put : {A : Type 0} → (ℕ → A) → (op : ℕ) → A → ℕ → A
put f op x k = if k == op then x else f k

-- `z < n`
abbrev pub below : ℤ → ℕ → Bool
below (pos m) n = ltb m n
below (negsuc m) n = true

-- The last to arrive sets the event and opens the next operation.
unfoldable pub complete : Barriers → Barriers
complete b = record {
  op_id = b.op_id + 1;
  ctrs = put b.ctrs (b.op_id + 1) (some (pos 0));
  events = put b.events (b.op_id + 1) true;
  is_set = put (put b.is_set b.op_id true) (b.op_id + 1) false;
}

-- The rest of the first locked section, with the counter that it has found.
unfoldable pub arrive_at : (num_workers : ℕ) → Barriers → Option ℤ → Phase × Barriers
arrive_at n b none = (Phase.key_error, b)
arrive_at n b (some c) =
    let c = c +ℤ pos 1 in
    let b = record b { ctrs = put b.ctrs b.op_id (some c) } in
    if not (b.events b.op_id)
    then (Phase.key_error, b)
    else (Phase.checking b.op_id, (if below c n then b else complete b))

-- The test between the locked sections, which reads the counter without the lock.
unfoldable pub check_at : (num_workers op : ℕ) → Option ℤ → Phase
check_at n op none = Phase.key_error
check_at n op (some c) = if below c n then Phase.waiting op else Phase.returned op

-- The second locked section.
unfoldable pub leave_at : (op : ℕ) → Barriers → Option ℤ → Phase × Barriers
leave_at op b none = (Phase.key_error, b)
leave_at op b (some c) =
    let c = c +ℤ negsuc 0 in
    let b' = record b { ctrs = put b.ctrs op (some c) } in
    let b'' = record b { ctrs = put b.ctrs op none } in
    if not (is_zero c)
    then (Phase.returned op, b')
    else if not (b.events op)
    then (Phase.key_error, b'')
    else (Phase.returned op, record b'' { events = put b.events op false })

-- One step of a worker. Back from a call it can make the next one.
unfoldable pub turn : (num_workers : ℕ) → Barriers → Phase → Phase × Barriers
turn n b Phase.calling = arrive_at n b (b.ctrs b.op_id)
turn n b (Phase.checking op) = (check_at n op (b.ctrs op), b)
turn n b (Phase.waiting op) = (if b.is_set op then Phase.leaving op else Phase.waiting op, b)
turn n b (Phase.leaving op) = leave_at op b (b.ctrs op)
turn n b (Phase.returned op) = (Phase.calling, b)
turn n b Phase.key_error = (Phase.key_error, b)

-- What can be seen of a run, newest first.
pub data Mark : Type 0 where
  arrival : (op : ℕ) → Mark
  return : (op : ℕ) → Mark

-- A worker that gets to a phase leaves a mark if it has arrived or returned.
abbrev pub note : Phase → List Mark → List Mark
note Phase.calling log = log
note (Phase.checking op) log = Mark.arrival op ∷ log
note (Phase.waiting op) log = log
note (Phase.leaving op) log = log
note (Phase.returned op) log = Mark.return op ∷ log
note Phase.key_error log = log

-- The states that any number of workers, which all ask for a barrier of `num_workers`, can reach by
-- steps in any order.
pub data Run (num_workers : ℕ) : Barriers → List Phase → List Mark → Type 0 where
  started : (k : List Phase) → All (λ w. w ≡ Phase.calling) k → Run num_workers new_barriers k []
  stepped :
      (b : Barriers) (front : List Phase) (w : Phase) (back : List Phase) (log : List Mark)
      → Run num_workers b (front ++ w ∷ back) log
      → Run num_workers
          (turn num_workers b w).1
          (front ++ (turn num_workers b w).0 ∷ back)
          (note (turn num_workers b w).0 log)
