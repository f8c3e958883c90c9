-- ===== src/Controller/Session.antt =====
-- `RdmaSession` of controller/controller.py: the table of sessions, and the calls on top of the
-- barrier.
use flash_reduce_dev.Common.{
  ℕ, ◌≡◌, Option, none, some, List, [], ◌∷◌, ◌++◌, ◌==◌, if◌then◌else◌, ℤ, All,
}
use flash_reduce_dev.Messages.SessionRequest.{RdmaSessionRequest}
use flash_reduce_dev.Controller.Barrier.{Barriers, Phase, new_barriers, put, turn, Mark, note}

-- `d[k] = v` on a dictionary in the order of insertion.
abbrev pub insert : {A : Type 0} → (k : ℕ) → A → List (ℕ × A) → List (ℕ × A)
insert k v [] = (k, v) ∷ []
insert k v (e ∷ d) = if e.0 == k then (k, v) ∷ d else e ∷ insert k v d

-- An entry of `_sessions`: its `"root"`, and its `"workers"` by their rank.
pub record Session (U : Type 0) : Type 0 where
  pub root : Option (RdmaSessionRequest U)
  pub workers : List (ℕ × RdmaSessionRequest U)

-- `_sessions`
abbrev pub Sessions : Type 0 → Type 0
Sessions U = ℕ → Option (Session U)

-- One worker's request, and where its call is.
pub record Caller (U : Type 0) : Type 0 where
  pub request : RdmaSessionRequest U
  pub phase : Phase

pub record Controller (U : Type 0) : Type 0 where
  pub barriers : Barriers
  pub sessions : Sessions U

module _ {U : Type 0} where
  abbrev pub or_new : Option (Session U) → Session U
  or_new none = record { root = none; workers = [] }
  or_new (some x) = x

  abbrev pub add_request : RdmaSessionRequest U → Session U → Session U
  add_request req x =
      if req.root == 1
      then record x { root = some req }
      else record x { workers = insert req.rank req x.workers }

  -- The request is entered into the table.
  abbrev pub enter_request : RdmaSessionRequest U → Sessions U → Sessions U
  enter_request req t = put t req.session_id (some (add_request req (or_new (t req.session_id))))

  -- Without a counter the first section ends in a `KeyError` before it enters the request.
  abbrev pub enter_counted : Option ℤ → RdmaSessionRequest U → Sessions U → Sessions U
  enter_counted none req t = t
  enter_counted (some c) req t = enter_request req t

  -- What a step does to the table: only the first section changes it.
  abbrev pub table_after : Barriers → Phase → RdmaSessionRequest U → Sessions U → Sessions U
  table_after b Phase.calling req t = enter_counted (b.ctrs b.op_id) req t
  table_after b (Phase.checking op) req t = t
  table_after b (Phase.waiting op) req t = t
  table_after b (Phase.leaving op) req t = t
  table_after b (Phase.returned op) req t = t
  table_after b Phase.key_error req t = t

  -- One step of a call of `RdmaSession`, the response aside.
  abbrev pub session_turn : Controller U → Caller U → Caller U × Controller U
  session_turn k c =
      let (phase, barriers) = turn c.request.num_workers k.barriers c.phase in
      (
        record c { phase = phase },
        record {
          barriers = barriers;
          sessions = table_after k.barriers c.phase c.request k.sessions;
        },
      )

  -- `reqs[list(reqs.keys())[0]]`
  abbrev pub first_request : List (ℕ × RdmaSessionRequest U) → Option (RdmaSessionRequest U)
  first_request [] = none
  first_request (e ∷ d) = some e.1

  -- The request whose data a call that is behind the barrier gives back, or `none` when it ends in
  -- an exception.
  abbrev pub answer_of : RdmaSessionRequest U → Option (Session U) → Option (RdmaSessionRequest U)
  answer_of req none = none
  answer_of req (some x) = if req.root == 1 then first_request x.workers else x.root

  unfoldable pub answer : Sessions U → RdmaSessionRequest U → Option (RdmaSessionRequest U)
  answer t req = answer_of req (t req.session_id)

  abbrev pub new_controller : Controller U
  new_controller = record { barriers = new_barriers; sessions = λ k. none }

  -- The states that calls of `RdmaSession` with these requests reach, by steps in any order; a
  -- worker that is back may call again with its request.
  pub data SessionRun : Controller U → List (Caller U) → List Mark → Type 0 where
    opened :
        (cs : List (Caller U))
        → All (λ c. c.phase ≡ Phase.calling) cs
        → SessionRun new_controller cs []
    moved :
        (k : Controller U) (front : List (Caller U)) (c : Caller U) (back : List (Caller U))
        (log : List Mark)
        → SessionRun k (front ++ c ∷ back) log
        → SessionRun
            (session_turn k c).1
            (front ++ (session_turn k c).0 ∷ back)
            (note (session_turn k c).0.phase log)
