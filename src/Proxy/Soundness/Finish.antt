-- ===== src/Proxy/Soundness/Finish.antt =====
-- `exampleTask` of examples/proxy_test.cc, and the part of a round of the thread that runs behind
-- its poll.
use flash_reduce_dev.Common.{ℕ, false}
use flash_reduce_dev.Proxy.State.{op_none, ProxyArgs, Cmd, ◌>>=◌}
use flash_reduce_dev.Proxy.Thread.{Thread, work, advance}

-- `exampleTask`
abbrev pub example_task : ProxyArgs → ProxyArgs
example_task n = record n { state = op_none; idle = false }

-- The thread's part of a round, from the call of `progress` to the end of the locked section.
abbrev pub work_round : (progress : ℕ → ProxyArgs → ProxyArgs) → Thread → Cmd Thread
work_round progress t = do t' ← work progress t; advance t'
