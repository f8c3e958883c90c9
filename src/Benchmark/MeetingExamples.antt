-- ===== src/Benchmark/MeetingExamples.antt =====
-- The theorems on the example's parts together, applied to two ends and a proxy.
use flash_reduce_dev.Common.{ℕ, refl, ◌==◌, if◌then◌else◌, false, List, [], ◌∷◌}
use flash_reduce_dev.Benchmark.Meeting.{left_in}
use flash_reduce_dev.Sockets.Sync.{Memory, drop, sync_data}
use flash_reduce_dev.Sockets.Exchange.{server, client, run, has_steps}
use flash_reduce_dev.Sockets.Examples.{pipe, pipe_laws, at_server, at_client}
use flash_reduce_dev.Rdma.QueuePair.{QpInfo, qps_reset}
use flash_reduce_dev.Rdma.Examples.{no_peer, neighbor, accepting, accepting_laws}
use flash_reduce_dev.Benchmark.Setup.{local_info}
use flash_reduce_dev.Benchmark.Setup.{prepare}
use flash_reduce_dev.Proxy.State.{zeroed}
use flash_reduce_dev.Benchmark.Aimed.{Awaits, Aims, set_up_server, set_up_client, exchange-Aims}
use flash_reduce_dev.Benchmark.Examples.{device, device_laws, quiet}

-- The structure as the list of its fields.
abbrev fields : QpInfo → List ℕ
fields i =
    i.rkey ∷ i.raddr ∷ i.qp_num ∷ i.psn ∷ i.gid.subnet_prefix ∷ i.gid.interface_id ∷ i.lid ∷ []

abbrev head : List ℕ → ℕ
head [] = 0
head (x ∷ xs) = x

abbrev info_of : List ℕ → QpInfo
info_of xs = record {
  rkey = head xs;
  raddr = head (drop 1 xs);
  qp_num = head (drop 2 xs);
  psn = head (drop 3 xs);
  gid = record { subnet_prefix = head (drop 4 xs); interface_id = head (drop 5 xs) };
  lid = head (drop 6 xs);
}

abbrev client_info : QpInfo
client_info = local_info 5 8192 18 (record { subnet_prefix = 0; interface_id = 10 }) 0

-- The structures at 1, the neighbour's at 2.
abbrev structures : QpInfo → Memory
structures i a =
    if a == 1
    then fields i
    else fields (local_info 0 0 0 (record { subnet_prefix = 0; interface_id = 0 }) 0)

exchange-Aims_example :
    let p = run pipe (server ∷ server ∷ client ∷ server ∷ client ∷ server ∷ []) (record {
      server_call = sync_data at_server (structures neighbor) 7 1 2;
      client_call = sync_data at_client (structures client_info) 7 1 2;
      down = [];
      up = [];
    }) in
    Awaits accepting (accepting_laws false) device device_laws client_info quiet (
      set_up_server accepting device 72
        (qps_reset, no_peer)
        (info_of (left_in p.server_call 2))
        (prepare 8 5 6 zeroed)
        quiet)
    × Aims accepting (accepting_laws false) neighbor 4096 (
        set_up_client accepting 71 4096 3 900 2
          (qps_reset, no_peer)
          (info_of (left_in p.client_call 2))
          zeroed)
unfolding has_steps
exchange-Aims_example =
    exchange-Aims pipe pipe_laws accepting (accepting_laws false) device device_laws fields info_of
      6 at_server at_client (structures neighbor) (structures client_info) 1 2 1 2
      (server ∷ server ∷ client ∷ server ∷ client ∷ server ∷ []) [] [] neighbor client_info
      (qps_reset, no_peer) (qps_reset, no_peer) 72 8 5 6 zeroed quiet 71 4096 3 900 2 zeroed refl
      refl refl refl refl refl refl refl refl refl refl refl refl refl refl refl
