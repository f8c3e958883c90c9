-- ===== src/Proxy/WorkExamples.antt =====
-- The theorems on the end of the work of csrc/proxy.cc, applied to two channels queued.
use flash_reduce_dev.Common.{refl, [], ◌∷◌, arith}
use flash_reduce_dev.Proxy.State.{Returns}
use flash_reduce_dev.Proxy.Thread.{initial}
use flash_reduce_dev.Proxy.Soundness.Finish.{example_task}
use flash_reduce_dev.Proxy.Soundness.Pace.{at_once}
use flash_reduce_dev.Proxy.Soundness.Drain.{Drained, rounds_of, rounds_of-Drained}
use flash_reduce_dev.Proxy.Examples.{busy, queued, busy-IsRing}

rounds_of-Drained_example :
    Returns
      (λ t' s'. Drained s' queued (300 ∷ []))
      (rounds_of (λ f. example_task) 10 (record initial { op = 100 }) busy)
rounds_of-Drained_example =
    rounds_of-Drained (λ f. example_task) (λ f n. (refl, refl, refl)) (at_once λ f n. refl) 10 busy
      (record initial { op = 100 }) queued (300 ∷ []) busy-IsRing refl (λ x h. refl) (omega arith)
