-- ===== src/Sockets/Examples.antt =====
-- The theorems of the socket endpoint applied to a machine that refuses some connections.
use flash_reduce_dev.Common.{
  ℕ, suc, ◌+◌, ◌-◌, ◌≡◌, refl, ap, ◌∙◌, ℤ, pos, negsuc, true, false, Option, none, some, List, [],
  ◌∷◌, ◌++◌, length, ◌==◌, if◌then◌else◌, arith,
}
use flash_reduce_dev.Proxy.State.{update}
use flash_reduce_dev.Sockets.Kernel.{AddrInfo, Kernel, KernelLaws, Ledger, without, closed}
use flash_reduce_dev.Sockets.Endpoint.{
  SocketEndpoint, couldnt_connect, returned, thrown, serve, connect_to, first_socket, connecting,
  try_connect,
}
use flash_reduce_dev.Sockets.Construction.{Serves, serve-Serves}
use flash_reduce_dev.Sockets.Connecting.{ConnectsTo, connect_to-ConnectsTo}
use flash_reduce_dev.Sockets.Sync.{take, drop, Memory, sync_data, sync_ready}
use flash_reduce_dev.Sockets.Exchange.{Stream, StreamLaws, server, client, run, has_steps, EndsWith}
use flash_reduce_dev.Sockets.RoundTrip.{take_all, drop_all, sync_data-EndsWith, sync_ready-EndsWith}

-- The next `refusals` connections are refused.
record Machine : Type 0 where
  ledger : Ledger
  refusals : ℕ

abbrev put : Machine → Ledger → Machine
put d w = record d { ledger = w }

abbrev addresses : List AddrInfo
addresses =
    record { ai_family = 10; ai_socktype = 1; ai_protocol = 6; ai_addr = 1 }
    ∷ record { ai_family = 2; ai_socktype = 1; ai_protocol = 6; ai_addr = 2 }
    ∷ []

abbrev machine : Kernel Machine
machine = record {
  asprintf = λ d port. (put d (record d.ledger { blocks = 100 ∷ d.ledger.blocks }), pos 5, 100);
  getaddrinfo = λ d node service passive.
      (put d (record d.ledger { blocks = 200 ∷ d.ledger.blocks }), pos 0, 200, addresses);
  freeaddrinfo = λ d r. put d (record d.ledger { blocks = without r d.ledger.blocks });
  free = λ d b. put d (record d.ledger { blocks = without b d.ledger.blocks });
  socket = λ d family socktype protocol. (
    put d (record d.ledger { fds = length d.ledger.fds ∷ d.ledger.fds }),
    pos (length d.ledger.fds),
  );
  setsockopt = λ d fd. d;
  bind = λ d fd a. (d, pos 0);
  connect = λ d fd a.
      (record d { refusals = d.refusals - 1 }, if d.refusals == 0 then pos 0 else negsuc 0);
  listen = λ d fd backlog. d;
  accept = λ d fd. (
    put d (record d.ledger { fds = length d.ledger.fds ∷ d.ledger.fds }),
    pos (length d.ledger.fds),
  );
  getpeername = λ d fd. d;
  close = λ d fd. put d (record d.ledger { fds = closed fd d.ledger.fds });
  sleep = λ d t. put d (record d.ledger { slept = d.ledger.slept + t });
}

abbrev machine_laws : KernelLaws machine
machine_laws = record {
  view = λ d. d.ledger;
  asprintf_lem = λ d port. refl;
  getaddrinfo_lem = λ d node service passive. refl;
  freeaddrinfo_lem = λ d r. refl;
  free_lem = λ d b. refl;
  socket_lem = λ d family socktype protocol. refl;
  setsockopt_lem = λ d fd. refl;
  bind_lem = λ d fd a. refl;
  connect_lem = λ d fd a. refl;
  listen_lem = λ d fd backlog. refl;
  accept_lem = λ d fd. refl;
  getpeername_lem = λ d fd. refl;
  close_lem = λ d fd. refl;
  sleep_lem = λ d t. refl;
}

abbrev three_open : Ledger
three_open = record { fds = 2 ∷ 1 ∷ 0 ∷ []; blocks = 7 ∷ []; slept = 0 }

abbrev refusing : ℕ → Machine
refusing n = record { ledger = three_open; refusals = n }

-- Three refusals take the two addresses of one pass and the first of the next.
retry_test : (connect_to machine (refusing 3) 1 (pos 80)).0.ledger.slept ≡ 1
unfolding connect_to connecting first_socket try_connect
retry_test = refl

give_up_test : (connect_to machine (refusing 12) 1 (pos 80)).1 ≡ thrown couldnt_connect
unfolding connect_to connecting first_socket try_connect
give_up_test = refl

last_chance_test :
    (connect_to machine (refusing 11) 1 (pos 80)).1
    ≡ returned (record { sockfd = pos 3; is_daemon = false })
unfolding connect_to connecting first_socket try_connect
last_chance_test = refl

serve-Serves_example :
    Serves machine machine_laws three_open (serve machine (refusing 0) (pos 12345))
serve-Serves_example = serve-Serves machine machine_laws (refusing 0) (pos 12345)

connect_to-ConnectsTo_example :
    ConnectsTo machine machine_laws three_open (connect_to machine (refusing 3) 1 (pos 12345))
connect_to-ConnectsTo_example =
    connect_to-ConnectsTo machine machine_laws (refusing 3) 1 (pos 12345)

abbrev take_from : List ℕ → ℕ → Option (List ℕ × ℤ × List ℕ)
take_from [] size = none
take_from (x ∷ xs) size =
    some (drop size (x ∷ xs), pos (length (take size (x ∷ xs))), take size (x ∷ xs))

abbrev pub pipe : Stream (List ℕ)
pipe = record { send = λ s bs. (s ++ bs, pos (length bs)); recv = take_from }

pub pipe_blocks : (s : List ℕ) (n : ℕ) → s ≡ [] → take_from s (suc n) ≡ none
pipe_blocks s n h = ap (λ (x : List ℕ). take_from x (suc n)) h

pub pipe_all :
    (s : List ℕ) (n : ℕ) → length s ≡ suc n → take_from s (suc n) ≡ some ([], pos (suc n), s)
pipe_all [] n h = absurd (omega arith)
pipe_all (x ∷ xs) n h =
    ap (λ (t : List ℕ). some (drop (suc n) (x ∷ xs), pos (length t), t))
      (take_all (suc n) (x ∷ xs) h)
    ∙ ap (λ (r : List ℕ). some (r, pos (length (x ∷ xs)), x ∷ xs)) (drop_all (suc n) (x ∷ xs) [] h)
    ∙ ap (λ k. some ([], pos k, x ∷ xs)) h

abbrev pub pipe_laws : StreamLaws pipe
pipe_laws = record {
  bytes = λ s. s;
  send_all = λ s bs. refl;
  send-bytes = λ s bs. refl;
  recv_blocks = pipe_blocks;
  after = λ s. [];
  after-bytes = λ s. refl;
  recv_all = pipe_all;
}

abbrev pub at_server : SocketEndpoint
at_server = record { sockfd = pos 3; is_daemon = true }

abbrev pub at_client : SocketEndpoint
at_client = record { sockfd = pos 3; is_daemon = false }

-- Two buffers, at 1 and 2.
abbrev buffers : List ℕ → Memory
buffers bs = update (update (λ p. []) 1 bs) 2 (0 ∷ 0 ∷ [])

sync_data-EndsWith_example :
    let p = run pipe (client ∷ server ∷ server ∷ client ∷ server ∷ client ∷ server ∷ []) (record {
      server_call = sync_data at_server (buffers (1 ∷ 2 ∷ [])) 2 1 2;
      client_call = sync_data at_client (buffers (3 ∷ 4 ∷ [])) 2 1 2;
      down = [];
      up = [];
    }) in
    EndsWith p.server_call 2 (3 ∷ 4 ∷ []) × EndsWith p.client_call 2 (1 ∷ 2 ∷ [])
unfolding has_steps
sync_data-EndsWith_example =
    sync_data-EndsWith pipe pipe_laws 1 at_server at_client (buffers (1 ∷ 2 ∷ []))
      (buffers (3 ∷ 4 ∷ [])) 1 2 1 2
      (client ∷ server ∷ server ∷ client ∷ server ∷ client ∷ server ∷ []) [] [] refl refl refl refl
      refl refl refl refl refl refl

sync_ready-EndsWith_example :
    let p = run pipe (server ∷ client ∷ client ∷ server ∷ []) (record {
      server_call = sync_ready at_server (buffers []) 9;
      client_call = sync_ready at_client (buffers []) 9;
      down = [];
      up = [];
    }) in
    EndsWith p.server_call 9 (97 ∷ []) × EndsWith p.client_call 9 (97 ∷ [])
unfolding has_steps
sync_ready-EndsWith_example =
    sync_ready-EndsWith pipe pipe_laws at_server at_client (buffers []) (buffers []) 9 9
      (server ∷ client ∷ client ∷ server ∷ []) [] [] refl refl refl refl refl
