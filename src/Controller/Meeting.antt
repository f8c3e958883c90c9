-- ===== src/Controller/Meeting.antt =====
-- A step at the barrier of controller/controller.py.
use flash_reduce_dev.Common.{ℕ, ◌+◌, ◌≡◌, List, arith, refl}
use flash_reduce_dev.Controller.Barrier.{Barriers, Phase, turn, Mark}
use flash_reduce_dev.Controller.Counting.{Stepped, is_inside, is_leaving, is_error, IsBarrier}
use flash_reduce_dev.Controller.Arriving.{arrive-Stepped}
use flash_reduce_dev.Controller.Leaving.{check-Stepped, wait-Stepped, leave-Stepped}

module _ (n : ℕ) (b : Barriers) (log : List Mark) (m k : ℕ → ℕ) where
  -- A step of any worker that has not ended in an error keeps the barrier, and does not end in one.
  pub turn-Stepped :
      (w : Phase)
      → is_error w ≡ 0
      → IsBarrier n b log (λ op. m op + is_inside op w) (λ op. k op + is_leaving op w)
      → Stepped n log m k (turn n b w)
  unfolding turn
  turn-Stepped Phase.calling well v = arrive-Stepped n b log m k v
  turn-Stepped (Phase.checking o) well v = check-Stepped n b log m k o v
  turn-Stepped (Phase.waiting o) well v = wait-Stepped n b log m k o v
  turn-Stepped (Phase.leaving o) well v = leave-Stepped n b log m k o v
  turn-Stepped (Phase.returned o) well v = record { barrier = v; sound = refl }
  turn-Stepped Phase.key_error well v = absurd (omega (arith, well))
