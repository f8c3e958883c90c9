-- ===== src/Benchmark/Aimed.antt =====
-- From the exchange to the filled entry in `main` of examples/proxy_send_recv.cc, on both ends.
use flash_reduce_dev.Common.{
  ℕ, suc, ◌+◌, ◌≡◌, refl, true, false, List, [], length, ◌==◌, Outcome, done, check_failed,
  undefined, ◌>>=◌,
}
use flash_reduce_dev.Proxy.State.{Ptr, ProxyArgs}
use flash_reduce_dev.Rdma.QueuePair.{qps_reset, qps_rts, QpInfo, ModifyQp}
use flash_reduce_dev.Rdma.Connect.{VerbsLaws}
use flash_reduce_dev.Sockets.Endpoint.{SocketEndpoint}
use flash_reduce_dev.Sockets.Sync.{Memory, sync_data}
use flash_reduce_dev.Sockets.Exchange.{Stream, StreamLaws, Party, run, has_steps}
use flash_reduce_dev.Sockets.Handshake.{in_turn}
use flash_reduce_dev.Benchmark.Device.{Device, DeviceLaws}
use flash_reduce_dev.Benchmark.Progress.{turns}
use flash_reduce_dev.Benchmark.Setup.{connect_qp, fill_sender, fill_receiver, prepare}
use flash_reduce_dev.Benchmark.Prepared.{Joined, connect_qp-Joined, prepared_receiver-outstanding}
use flash_reduce_dev.Benchmark.Meeting.{left_in, exchange_told}

-- From the transitions of the queue pair on, with what the neighbour sent, up to the last
-- `syncReady`.
module _ {Qp : Type 0} (modify : ModifyQp Qp) where
  unfoldable pub set_up_server :
      {D : Type 0}
      → Device D
      → (progress : ℕ) → Qp
      → (neighbor : QpInfo) → ProxyArgs
      → D
      → Outcome (Qp × ProxyArgs × D)
  set_up_server v progress qp neighbor n d = do
    qp ← connect_qp modify qp neighbor
    let (n, d) = fill_receiver v progress n d
    done (qp, n, d)

  unfoldable pub set_up_client :
      (progress buffer lkey sge flags : ℕ)
      → Qp
      → (neighbor : QpInfo) → ProxyArgs
      → Outcome (Qp × ProxyArgs)
  set_up_client progress buffer lkey sge flags qp neighbor n = do
    qp ← connect_qp modify qp neighbor
    done (qp, fill_sender progress buffer lkey sge flags neighbor n)

module _ {Qp D : Type 0} (modify : ModifyQp Qp) (verbs : VerbsLaws modify false) (v : Device D)
    (l : DeviceLaws v) where
  -- The server's queue pair is ready, with the client's as its peer, and 256 receives more are posted
  -- than completions taken.
  abbrev pub Awaits : (info : QpInfo) → D → Outcome (Qp × ProxyArgs × D) → Type 0
  Awaits info d (done (qp, n, d')) =
      (verbs.state qp ≡ qps_rts)
      × (verbs.peer qp ≡ (info.qp_num, info.gid))
      × (length (l.received d') + l.completed d ≡ length (l.received d) + 256 + l.completed d')
  Awaits info d check_failed = ⊥
  Awaits info d undefined = ⊥

  set_up_server-Awaits :
      (progress : ℕ) (qp : Qp) (info : QpInfo) (channel cq at : Ptr) (n : ProxyArgs) (d : D)
      → verbs.state qp ≡ qps_reset
      → Awaits info d (set_up_server modify v progress qp info (prepare channel cq at n) d)
  unfolding set_up_server turns fill_receiver
  set_up_server-Awaits progress qp info channel cq at n d reset =
      go (connect_qp modify qp info) (connect_qp-Joined modify verbs qp info reset)
    where
      go :
          (r : Outcome Qp)
          → Joined verbs.state verbs.peer info r
          → Awaits info d (
              r >>= λ q.
              let (n', d') = fill_receiver v progress (prepare channel cq at n) d in
              done (q, n', d'))
      go (done q) h = (h.0, h.1, (prepared_receiver-outstanding v l progress channel cq at n d 0).0)
      go check_failed h = h
      go undefined h = h

module _ {Qp : Type 0} (modify : ModifyQp Qp) (verbs : VerbsLaws modify false) where
  -- The client's queue pair is ready, with the server's as its peer, and its request writes from the
  -- own buffer to the one that the server has told of, with its key.
  abbrev pub Aims : (info : QpInfo) → (buffer : ℕ) → Outcome (Qp × ProxyArgs) → Type 0
  Aims info buffer (done (qp, n)) =
      (verbs.state qp ≡ qps_rts)
      × (verbs.peer qp ≡ (info.qp_num, info.gid))
      × (n.endpoint.send_wr.remote_addr ≡ info.raddr)
      × (n.endpoint.send_wr.rkey ≡ info.rkey)
      × (n.endpoint.sge.addr ≡ buffer)
  Aims info buffer check_failed = ⊥
  Aims info buffer undefined = ⊥

  set_up_client-Aims :
      (progress buffer lkey sge flags : ℕ) (qp : Qp) (info : QpInfo) (n : ProxyArgs)
      → verbs.state qp ≡ qps_reset
      → Aims info buffer (set_up_client modify progress buffer lkey sge flags qp info n)
  unfolding set_up_client
  set_up_client-Aims progress buffer lkey sge flags qp info n reset =
      go (connect_qp modify qp info) (connect_qp-Joined modify verbs qp info reset)
    where
      go :
          (r : Outcome Qp)
          → Joined verbs.state verbs.peer info r
          → Aims info buffer
              (r >>= λ q. done (q, fill_sender progress buffer lkey sge flags info n))
      go (done q) h = (h.0, h.1, refl, refl, refl)
      go check_failed h = h
      go undefined h = h

module _ {S Qp D : Type 0} (sv : Stream S) (sl : StreamLaws sv) (modify : ModifyQp Qp)
    (verbs : VerbsLaws modify false) (v : Device D) (l : DeviceLaws v) (bytes_of : QpInfo → List ℕ)
    (info_of : List ℕ → QpInfo) where
  -- The two ends of the example exchange what they tell of their queue pairs, as the bytes of the
  -- structure, over an idle connection, in any order of the sends and receives that gives the
  -- server, the client twice and the server again their turns, and set up their queue pairs and
  -- entries with what they have received. No check fails; both queue pairs are ready, with each
  -- other as their peer; the client's request writes from its own buffer to the address and with
  -- the key that the server has told of; the server has posted 256 receives more than completions
  -- taken since.
  pub exchange-Aims :
      (n : ℕ) (es ec : SocketEndpoint) (ms mc : Memory) (so si co ci : Ptr) (ws : List Party)
      (d u : S) (told_s told_c : QpInfo) (qs qc : Qp) (progress : ℕ) (channel cq at : Ptr)
      (ns : ProxyArgs) (dev : D) (progress' buffer lkey sge flags : ℕ) (nc : ProxyArgs)
      → info_of (bytes_of told_s) ≡ told_s
      → info_of (bytes_of told_c) ≡ told_c
      → length (bytes_of told_s) ≡ suc n
      → length (bytes_of told_c) ≡ suc n
      → es.is_daemon ≡ true
      → ec.is_daemon ≡ false
      → ms so ≡ bytes_of told_s
      → length (ms si) ≡ suc n
      → mc co ≡ bytes_of told_c
      → length (mc ci) ≡ suc n
      → (co == ci) ≡ false
      → sl.bytes d ≡ []
      → sl.bytes u ≡ []
      → has_steps in_turn ws ≡ true
      → verbs.state qs ≡ qps_reset
      → verbs.state qc ≡ qps_reset
      → let p = run sv ws (record {
        server_call = sync_data es ms (suc n) so si;
        client_call = sync_data ec mc (suc n) co ci;
        down = d;
        up = u;
      }) in
        Awaits modify verbs v l told_c dev (
          set_up_server modify v progress qs
            (info_of (left_in p.server_call si))
            (prepare channel cq at ns)
            dev)
        × Aims modify verbs told_s buffer (
            set_up_client modify progress' buffer lkey sge flags qc
              (info_of (left_in p.client_call ci))
              nc)
  exchange-Aims n es ec ms mc so si co ci ws d u told_s told_c qs qc progress channel cq at ns dev
        progress' buffer lkey sge flags nc read_s read_c size_s size_c is_server is_client hso lsi
        hco lci apart hd hu fair reset_s reset_c =
      let (at_server, at_client) =
        exchange_told sv sl bytes_of info_of n es ec ms mc so si co ci ws d u told_s told_c read_s
          read_c size_s size_c is_server is_client hso lsi hco lci apart hd hu fair in
      (
        rw at_server
            (set_up_server-Awaits modify verbs v l progress qs told_c channel cq at ns dev reset_s),
        rw at_client
            (set_up_client-Aims modify verbs progress' buffer lkey sge flags qc told_s nc reset_c),
      )
