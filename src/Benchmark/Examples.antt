-- ===== src/Benchmark/Examples.antt =====
-- The theorems of the two progress functions applied to a device that completes two requests at
-- each poll.
use flash_reduce_dev.Common.{ℕ, ◌+◌, ◌≤◌, ◌≡◌, refl, pos, true, List, [], ◌∷◌, length, arith}
use flash_reduce_dev.Proxy.State.{op_ready, op_progress, is_none, ProxyArgs, zeroed}
use flash_reduce_dev.Benchmark.Device.{Device, DeviceLaws}
use flash_reduce_dev.Benchmark.Progress.{send_benchmark, recv_benchmark, turns}
use flash_reduce_dev.Benchmark.Sending.{Ended, numbered, send_turns-Ended, send_turns-numbered}
use flash_reduce_dev.Rdma.QueuePair.{QpState}
use flash_reduce_dev.Rdma.Examples.{neighbor}
use flash_reduce_dev.Benchmark.Setup.{prepare, fill_sender, fill_receiver}
use flash_reduce_dev.Benchmark.Prepared.{prepared_sender-numbered, prepared_receiver-outstanding}
use flash_reduce_dev.Benchmark.Receiving.{Received, recv_benchmark-Received}

pub record Log : Type 0 where
  sent : List ℕ
  received : List ℕ
  completed : ℕ
  clock : ℕ

abbrev pub device : Device Log
device = record {
  poll_cq = λ d cq max. (record d { completed = d.completed + 2 }, pos 2, 7 ∷ 8 ∷ []);
  post_send = λ d qp w. record d { sent = w ∷ d.sent };
  post_recv = λ d qp w. record d { received = w ∷ d.received };
  get_cycles = λ d. (record d { clock = d.clock + 1 }, d.clock);
}

abbrev pub device_laws : DeviceLaws device
device_laws = record {
  sent = λ d. d.sent;
  received = λ d. d.received;
  completed = λ d. d.completed;
  post_send-sent = λ d qp w. refl;
  poll_cq-sent = λ d cq max. refl;
  post_recv-received = λ d qp w. refl;
  poll_cq-received = λ d cq max. refl;
  get_cycles-received = λ d. refl;
  post_recv-completed = λ d qp w. refl;
  get_cycles-completed = λ d. refl;
  poll_cq-completed = λ d cq max. refl;
  poll_cq-length = λ d cq max. refl;
}

abbrev pub quiet : Log
quiet = record { sent = []; received = []; completed = 0; clock = 5 }

-- Set up with no free work queue entry.
abbrev starved : ProxyArgs
starved = record zeroed { state = op_ready }

abbrev sender : ProxyArgs
sender = record zeroed {
  state = op_ready;
  endpoint = record zeroed.endpoint { available_wqes = pos 10 };
}

abbrev receiver : ProxyArgs
receiver = record zeroed { state = op_progress; iterations = 9; first_completion = true }

abbrev ten : List ℕ
ten = 10 ∷ 9 ∷ 8 ∷ 7 ∷ 6 ∷ 5 ∷ 4 ∷ 3 ∷ 2 ∷ 1 ∷ []

sender_test : (turns (send_benchmark device) 11 sender quiet).1.sent ≡ ten
unfolding turns send_benchmark
sender_test = refl

-- Every third round of a starved sender polls and posts nothing.
starved_test : (turns (send_benchmark device) 11 starved quiet).1.sent ≡ 9 ∷ 8 ∷ 6 ∷ 5 ∷ 3 ∷ 2 ∷ []
unfolding turns send_benchmark
starved_test = refl

send_turns-Ended_example :
    Ended device device_laws starved quiet (turns (send_benchmark device) 11 starved quiet)
send_turns-Ended_example =
    send_turns-Ended device device_laws 11 starved quiet refl (omega arith) (omega arith)

send_turns-numbered_example :
    (is_none (turns (send_benchmark device) 10 sender quiet).0.state ≡ true)
    × ((turns (send_benchmark device) 10 sender quiet).0.endpoint.available_wqes ≡ pos 0)
    × ((turns (send_benchmark device) 10 sender quiet).1.sent ≡ numbered 0 10 [])
send_turns-numbered_example = send_turns-numbered device device_laws 9 sender quiet 0 refl refl refl

recv_benchmark-Received_example :
    Received device device_laws receiver quiet
      (recv_benchmark device receiver quiet).0
      (recv_benchmark device receiver quiet).1
recv_benchmark-Received_example =
    recv_benchmark-Received device device_laws receiver quiet refl (omega arith)

-- The client's entry, with its queue pair at 6, and the server's.
abbrev pub client_entry : ProxyArgs
client_entry = fill_sender 71 4096 3 900 2 neighbor (prepare 8 5 6 zeroed)

prepared_sender-numbered_example :
    (is_none (turns (send_benchmark device) 10 client_entry quiet).0.state ≡ true)
    × ((turns (send_benchmark device) 10 client_entry quiet).0.endpoint.available_wqes ≡ pos 246)
    × ((turns (send_benchmark device) 10 client_entry quiet).1.sent ≡ numbered 0 10 [])
prepared_sender-numbered_example =
    prepared_sender-numbered device device_laws 71 4096 3 900 2 neighbor 8 5 6 zeroed quiet

prepared_receiver-outstanding_example :
    let r = fill_receiver device 72 (prepare 8 5 6 zeroed) quiet in
    let e = turns (recv_benchmark device) 3 r.0 r.1 in
    (length e.1.received + 0 ≡ 256 + e.1.completed) × (256 ≤ 512)
prepared_receiver-outstanding_example =
    prepared_receiver-outstanding device device_laws 72 8 5 6 zeroed quiet 3

-- The error number is that of an invalid argument.
abbrev refuses : QpState → ℕ
refuses QpState.qps_reset = 0
refuses QpState.qps_init = 0
refuses QpState.qps_rtr = 0
refuses QpState.qps_rts = 22
