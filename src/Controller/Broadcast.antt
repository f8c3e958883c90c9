-- ===== src/Controller/Broadcast.antt =====
-- `Broadcast` of controller/controller.py. The three lists `_bcast_bitmap`, `_bcast_values` and
-- `_bcast_events`, which grow and shrink together, are one list of operations.
use flash_reduce_dev.Common.{
  ℕ, ◌+◌, ◌<◌, ◌≡◌, Bool, true, false, ◌&&◌, ltb, ◌==◌, if◌then◌else◌, Option, none, some, List, [],
  ◌∷◌, ◌++◌, length, get_elem?, set, replicate,
}
use flash_reduce_dev.Messages.BroadcastCall.{BroadcastRequest}
use flash_reduce_dev.Controller.Barrier.{put}

-- An entry of `_bcast_bitmap`, `_bcast_values` and `_bcast_events`; the event is a number.
pub record Operation : Type 0 where
  pub bitmap : List Bool
  pub value : Option ℕ
  pub event : ℕ

-- The operations, the number of the next event, and the events' flags, which those who hold an
-- event still see when its entry is deleted.
pub record Broadcasts : Type 0 where
  pub operations : List Operation
  pub next_event : ℕ
  pub is_set : ℕ → Bool

-- Where a call is: before the locked section, in `current_event.wait()` with its event and
-- `current_idx`, before the rest of the section, behind the section, back with a value, or ended by
-- an `IndexError`.
pub data Stage : Type 0 where
  calling : Stage
  waiting : (event idx : ℕ) → Stage
  marking : (idx : ℕ) → Stage
  reading : (idx : ℕ) → Stage
  returned : (value : Option ℕ) → Stage
  index_error : Stage

-- `Controller.__init__`
abbrev pub new_broadcasts : Broadcasts
new_broadcasts = record { operations = []; next_event = 0; is_set = λ e. false }

-- `all(bits)`
abbrev pub all_true : List Bool → Bool
all_true [] = true
all_true (bit ∷ bits) = bit && all_true bits

-- Completed operations are deleted, from the last one down.
abbrev pub clean_up : List Operation → List Operation
clean_up [] = []
clean_up (o ∷ ops) = let rest = clean_up ops in if all_true o.bitmap then rest else o ∷ rest

-- What the search for an operation that the rank has not finished comes to.
pub data Search : Type 0 where
  found : (idx : ℕ) → Search
  absent : Search
  out_of_range : Search

-- `not _bcast_bitmap[i][rank]`, where the list has the rank, and the rest of the loop.
abbrev pub look_at : Option Bool → (idx : ℕ) → Search → Search
look_at none idx rest = Search.out_of_range
look_at (some true) idx rest = rest
look_at (some false) idx rest = Search.found idx

abbrev pub find_from : (rank idx : ℕ) → List Operation → Search
find_from rank idx [] = Search.absent
find_from rank idx (o ∷ ops) =
    let rest = find_from rank (idx + 1) ops in look_at (get_elem? o.bitmap rank) idx rest

abbrev pub append_operation : (num_workers : ℕ) → Broadcasts → Broadcasts
append_operation n b = record {
  operations =
      b.operations
      ++ record { bitmap = replicate n false; value = none; event = b.next_event } ∷ [];
  next_event = b.next_event + 1;
  is_set = put b.is_set b.next_event false;
}

-- `_bcast_bitmap[idx][rank] = True` and the end of the locked section.
abbrev pub mark_at : (rank idx : ℕ) → Broadcasts → Option Operation → Stage × Broadcasts
mark_at rank idx b none = (Stage.index_error, b)
mark_at rank idx b (some o) =
    if ltb rank (length o.bitmap)
    then (
      Stage.reading idx,
      record b { operations = set b.operations idx (record o { bitmap = set o.bitmap rank true }) },
    )
    else (Stage.index_error, b)

abbrev pub mark : (rank idx : ℕ) → Broadcasts → Stage × Broadcasts
mark rank idx b = mark_at rank idx b (get_elem? b.operations idx)

-- `_bcast_values[idx] = value` and `_bcast_events[idx].set()`
abbrev pub give : (value idx : ℕ) → Operation → Broadcasts → Broadcasts
give value idx o b = record b {
  operations = set b.operations idx (record o { value = some value });
  is_set = put b.is_set o.event true;
}

-- A worker that is no root waits for the value.
abbrev pub await : (rank idx : ℕ) → Operation → Broadcasts → Option ℕ → Stage × Broadcasts
await rank idx o b none = (Stage.waiting o.event idx, b)
await rank idx o b (some value) = mark rank idx b

-- `_bcast_values[idx]`
abbrev pub read_value : Option Operation → Stage
read_value none = Stage.index_error
read_value (some o) = Stage.returned o.value

module _ {U : Type 0} where
  abbrev pub handle :
      BroadcastRequest U → (idx : ℕ) → Broadcasts → Option Operation → Stage × Broadcasts
  handle req idx b none = (Stage.index_error, b)
  handle req idx b (some o) =
      if req.rank == req.root
      then mark req.rank idx (give req.value idx o b)
      else await req.rank idx o b o.value

  abbrev pub enter : BroadcastRequest U → Broadcasts → Search → Stage × Broadcasts
  enter req b (Search.found idx) = handle req idx b (get_elem? b.operations idx)
  enter req b Search.absent =
      let idx = length b.operations in
      let b = append_operation req.num_workers b in handle req idx b (get_elem? b.operations idx)
  enter req b Search.out_of_range = (Stage.index_error, b)

  -- One step of a call: what it does while it has the lock, the wait, or the read behind the lock.
  unfoldable pub broadcast_turn : BroadcastRequest U → Broadcasts → Stage → Stage × Broadcasts
  broadcast_turn req b Stage.calling =
      let b = record b { operations = clean_up b.operations } in
      enter req b (find_from req.rank 0 b.operations)
  broadcast_turn req b (Stage.waiting event idx) =
      (if b.is_set event then Stage.marking idx else Stage.waiting event idx, b)
  broadcast_turn req b (Stage.marking idx) = mark req.rank idx b
  broadcast_turn req b (Stage.reading idx) = (read_value (get_elem? b.operations idx), b)
  broadcast_turn req b (Stage.returned value) = (Stage.returned value, b)
  broadcast_turn req b Stage.index_error = (Stage.index_error, b)

-- What `n` workers ask for in one broadcast: each under its own rank, with one root.
pub record IsRound {U : Type 0} (n root : ℕ) (reqs : ℕ → BroadcastRequest U) : Type 0 where
  pub root_in : root < n
  pub ranks : (r : ℕ) → r < n → (reqs r).rank ≡ r
  pub roots : (r : ℕ) → r < n → (reqs r).root ≡ root
  pub sizes : (r : ℕ) → r < n → (reqs r).num_workers ≡ n

-- A call that is back with a value.
abbrev pub IsBack : Stage → Type 0
IsBack Stage.calling = ⊥
IsBack (Stage.waiting event idx) = ⊥
IsBack (Stage.marking idx) = ⊥
IsBack (Stage.reading idx) = ⊥
IsBack (Stage.returned value) = Unit
IsBack Stage.index_error = ⊥

-- The states that broadcasts of `n` workers reach: in each the calls take their steps in any order,
-- and the next begins when all calls of the one before are back.
pub data BroadcastRun {U : Type 0} (n : ℕ)
    : (root : ℕ) → (ℕ → BroadcastRequest U) → Broadcasts → (ℕ → Stage) → Type 0 where
  begun :
      (root : ℕ) (reqs : ℕ → BroadcastRequest U)
      → IsRound n root reqs
      → BroadcastRun n root reqs new_broadcasts (λ r. Stage.calling)
  moved :
      (root : ℕ) (reqs : ℕ → BroadcastRequest U) (b : Broadcasts) (stages : ℕ → Stage) (r : ℕ)
      → r < n
      → BroadcastRun n root reqs b stages
      → BroadcastRun n root reqs
          (broadcast_turn (reqs r) b (stages r)).1
          (put stages r (broadcast_turn (reqs r) b (stages r)).0)
  begun_again :
      (root : ℕ) (reqs : ℕ → BroadcastRequest U) (b : Broadcasts) (stages : ℕ → Stage)
      (next_root : ℕ) (next_reqs : ℕ → BroadcastRequest U)
      → BroadcastRun n root reqs b stages
      → ((r : ℕ) → r < n → IsBack (stages r))
      → IsRound n next_root next_reqs
      → BroadcastRun n next_root next_reqs b (λ r. Stage.calling)
