-- ===== src/Controller/Examples.antt =====
-- Two workers meet at the barrier of controller/controller.py, and the theorems applied to them.
use flash_reduce_dev.Common.{◌≡◌, refl, List, [], ◌∷◌, arith}
use flash_reduce_dev.Controller.Barrier.{
  Barriers, Phase, new_barriers, complete, arrive_at, check_at, leave_at, turn, Mark, Run,
}
use flash_reduce_dev.Controller.Counting.{IsOrdered, is_error, sum}
use flash_reduce_dev.Controller.Order.{Closer, Run-IsOrdered, Run-is_error, turn-Closer}

-- The first worker arrives and waits, and the second one arrives.
abbrev one_in : Barriers
one_in = (turn 2 new_barriers Phase.calling).1

abbrev both_in : Barriers
both_in = (turn 2 one_in Phase.calling).1

abbrev arrived : List Mark
arrived = Mark.arrival 0 ∷ Mark.arrival 0 ∷ []

to_both_in : Run 2 both_in (Phase.waiting 0 ∷ Phase.checking 0 ∷ []) arrived
unfolding turn arrive_at check_at complete
to_both_in = Run.stepped one_in (Phase.waiting 0 ∷ []) Phase.calling [] (Mark.arrival 0 ∷ []) (
    Run.stepped one_in [] (Phase.checking 0) (Phase.calling ∷ []) (Mark.arrival 0 ∷ []) (
      Run.stepped new_barriers [] Phase.calling (Phase.calling ∷ []) []
        (Run.started (Phase.calling ∷ Phase.calling ∷ []) (refl, (refl, tt)))))

-- The first goes on and leaves.
abbrev one_out : Barriers
one_out = (turn 2 both_in (Phase.leaving 0)).1

to_one_out : Run 2 one_out (Phase.returned 0 ∷ Phase.checking 0 ∷ []) (Mark.return 0 ∷ arrived)
unfolding turn arrive_at check_at leave_at complete
to_one_out =
    Run.stepped both_in [] (Phase.leaving 0) (Phase.checking 0 ∷ []) arrived
      (Run.stepped both_in [] (Phase.waiting 0) (Phase.checking 0 ∷ []) arrived to_both_in)

Run-IsOrdered_example : IsOrdered 2 (Mark.return 0 ∷ arrived)
Run-IsOrdered_example =
    Run-IsOrdered 2 (omega arith) one_out (Phase.returned 0 ∷ Phase.checking 0 ∷ [])
      (Mark.return 0 ∷ arrived) to_one_out

Run-is_error_example : sum is_error (Phase.returned 0 ∷ Phase.checking 0 ∷ []) ≡ 0
Run-is_error_example =
    Run-is_error 2 (omega arith) one_out (Phase.returned 0 ∷ Phase.checking 0 ∷ [])
      (Mark.return 0 ∷ arrived) to_one_out

-- The second now finds one call missing in the counter and waits for an event that is set.
turn-Closer_example : Closer 0 (Phase.checking 0) (turn 2 one_out (Phase.checking 0)).0
turn-Closer_example =
    turn-Closer 2 (omega arith) one_out (Phase.returned 0 ∷ []) (Phase.checking 0) []
      (Mark.return 0 ∷ arrived) 0 to_one_out refl refl

second_waits : (turn 2 one_out (Phase.checking 0)).0 ≡ Phase.waiting 0
unfolding turn arrive_at check_at leave_at complete
second_waits = refl
