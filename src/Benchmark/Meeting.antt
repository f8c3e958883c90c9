-- ===== src/Benchmark/Meeting.antt =====
-- The exchange by which the two ends of examples/proxy_send_recv.cc learn of each other.
use flash_reduce_dev.Common.{ℕ, suc, ◌≡◌, ap, ◌∙◌, true, false, List, [], length, ◌==◌}
use flash_reduce_dev.Proxy.State.{Ptr}
use flash_reduce_dev.Rdma.QueuePair.{QpInfo}
use flash_reduce_dev.Sockets.Endpoint.{SocketEndpoint}
use flash_reduce_dev.Sockets.Sync.{Memory, Call, sending, receiving, ended, sync_data}
use flash_reduce_dev.Sockets.Exchange.{Stream, StreamLaws, Party, run, has_steps, EndsWith}
use flash_reduce_dev.Sockets.Handshake.{in_turn}
use flash_reduce_dev.Sockets.RoundTrip.{sync_data-EndsWith}

-- What a finished call has left in the buffer.
abbrev pub left_in : Call → (buf : Ptr) → List ℕ
left_in (sending bs rest) buf = []
left_in (receiving size rest) buf = []
left_in (ended rc mem) buf = mem buf

EndsWith-left_in : (c : Call) (buf : Ptr) (bs : List ℕ) → EndsWith c buf bs → left_in c buf ≡ bs
EndsWith-left_in (sending bs' rest) buf bs h = absurd h
EndsWith-left_in (receiving size rest) buf bs h = absurd h
EndsWith-left_in (ended rc mem) buf bs h = h.1

module _ {S : Type 0} (v : Stream S) (l : StreamLaws v) (bytes_of : QpInfo → List ℕ)
    (info_of : List ℕ → QpInfo) where
  -- Both ends have what the other has told.
  pub exchange_told :
      (n : ℕ) (es ec : SocketEndpoint) (ms mc : Memory) (so si co ci : Ptr) (ws : List Party)
      (d u : S) (told_s told_c : QpInfo)
      → info_of (bytes_of told_s) ≡ told_s
      → info_of (bytes_of told_c) ≡ told_c
      → length (bytes_of told_s) ≡ suc n
      → length (bytes_of told_c) ≡ suc n
      → es.is_daemon ≡ true
      → ec.is_daemon ≡ false
      → ms so ≡ bytes_of told_s
      → length (ms si) ≡ suc n
      → mc co ≡ bytes_of told_c
      → length (mc ci) ≡ suc n
      → (co == ci) ≡ false
      → l.bytes d ≡ []
      → l.bytes u ≡ []
      → has_steps in_turn ws ≡ true
      → let p = run v ws (record {
        server_call = sync_data es ms (suc n) so si;
        client_call = sync_data ec mc (suc n) co ci;
        down = d;
        up = u;
      }) in
        (info_of (left_in p.server_call si) ≡ told_c)
        × (info_of (left_in p.client_call ci) ≡ told_s)
  exchange_told n es ec ms mc so si co ci ws d u told_s told_c read_s read_c size_s size_c is_server
        is_client hso lsi hco lci apart hd hu fair =
      let (hs, hc) =
        sync_data-EndsWith v l n es ec ms mc so si co ci ws d u is_server is_client
          (ap (length {0}) hso ∙ size_s) lsi (ap (length {0}) hco ∙ size_c) lci apart hd hu fair in
      (
        ap info_of (EndsWith-left_in _ si _ hs ∙ hco) ∙ read_c,
        ap info_of (EndsWith-left_in _ ci _ hc ∙ hso) ∙ read_s,
      )
