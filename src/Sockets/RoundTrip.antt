-- ===== src/Sockets/RoundTrip.antt =====
-- What both ends of a connection of csrc/socket_endpoint.cc have in the end.
use flash_reduce_dev.Common.{
  ℕ, zero, suc, ◌≡◌, refl, sym, ap, subst, ◌∙◌, pos, true, false, List, [], ◌∷◌, ◌++◌, length, ◌==◌,
  eq→==, arith,
}
use flash_reduce_dev.Proxy.State.{Ptr, update}
use flash_reduce_dev.Sockets.Endpoint.{SocketEndpoint}
use flash_reduce_dev.Sockets.Sync.{take, drop, Memory, Call, ended, written, sync_data, sync_ready}
use flash_reduce_dev.Sockets.Exchange.{Stream, StreamLaws, Party, run, has_steps, EndsWith}
use flash_reduce_dev.Sockets.Handshake.{in_turn, run-Done}

pub take_all : (n : ℕ) (xs : List ℕ) → length xs ≡ n → take n xs ≡ xs
take_all zero [] h = refl
take_all zero (x ∷ xs) h = absurd (omega arith)
take_all (suc n) [] h = absurd (omega arith)
take_all (suc n) (x ∷ xs) h = ap (λ (ys : List ℕ). x ∷ ys) (take_all n xs (omega arith))

pub drop_all : (n : ℕ) (xs ys : List ℕ) → length xs ≡ n → ys ++ drop n xs ≡ ys
drop_all zero [] [] h = refl
drop_all zero (x ∷ xs) ys h = absurd (omega arith)
drop_all (suc n) [] ys h = absurd (omega arith)
drop_all (suc n) (x ∷ xs) [] h = drop_all n xs [] (omega arith)
drop_all zero [] (y ∷ ys) h = ap (λ (zs : List ℕ). y ∷ zs) (drop_all zero [] ys h)
drop_all (suc n) (x ∷ xs) (y ∷ ys) h = ap (λ (zs : List ℕ). y ∷ zs) (drop_all (suc n) (x ∷ xs) ys h)

written_whole :
    (mem : Memory) (buf : Ptr) (got : List ℕ)
    → length (mem buf) ≡ length got
    → written mem buf got buf ≡ got
written_whole mem buf got h = rw (eq→== buf buf refl) (drop_all (length got) (mem buf) got h)

ended-EndsWith :
    (c : Call) (mem : Memory) (buf : Ptr) (bs : List ℕ)
    → c ≡ ended (pos 0) mem
    → mem buf ≡ bs
    → EndsWith c buf bs
ended-EndsWith c mem buf bs h e = subst (λ (x : Call). EndsWith x buf bs) (sym h) (refl, e)

module _ {S : Type 0} (v : Stream S) (l : StreamLaws v) where
  -- A server and a client that call `syncData` with buffers of the same size on an idle connection,
  -- the client's two buffers being different, both return 0, and each then has the other's bytes in its
  -- receive buffer, in whichever order their sends and receives come, once the server, the client
  -- twice and the server again have had their turns, in this order.
  pub sync_data-EndsWith :
      (n : ℕ) (es ec : SocketEndpoint) (ms mc : Memory) (so si co ci : Ptr) (ws : List Party)
      (d u : S)
      → es.is_daemon ≡ true
      → ec.is_daemon ≡ false
      → length (ms so) ≡ suc n
      → length (ms si) ≡ suc n
      → length (mc co) ≡ suc n
      → length (mc ci) ≡ suc n
      → (co == ci) ≡ false
      → l.bytes d ≡ []
      → l.bytes u ≡ []
      → has_steps in_turn ws ≡ true
      → let p = run v ws (record {
        server_call = sync_data es ms (suc n) so si;
        client_call = sync_data ec mc (suc n) co ci;
        down = d;
        up = u;
      }) in
        EndsWith p.server_call si (mc co) × EndsWith p.client_call ci (ms so)
  sync_data-EndsWith n es ec ms mc so si co ci ws d u is_server is_client lso lsi lco lci apart hd
        hu fair =
      let (hs, hc) =
        run-Done v l n es ec ms mc so si co ci is_server is_client full full' ws d u hd hu fair in
      (
        ended-EndsWith _ _ si (mc co) hs (written_whole ms si _ (lsi ∙ sym full') ∙ back),
        ended-EndsWith _ _ ci (ms so) hc (written_whole mc ci _ (lci ∙ sym full) ∙ out),
      )
    where
      out : take (suc n) (ms so) ≡ ms so
      out = take_all (suc n) (ms so) lso

      full : length (take (suc n) (ms so)) ≡ suc n
      full = ap (length {0}) out ∙ lso

      back : take (suc n) (written mc ci (take (suc n) (ms so)) co) ≡ mc co
      back = rw apart (take_all (suc n) (mc co) lco)

      full' : length (take (suc n) (written mc ci (take (suc n) (ms so)) co)) ≡ suc n
      full' = ap (length {0}) back ∙ lco

  -- A server and a client that call `syncReady` on an idle connection both return 0 with the byte
  -- 'a', though each sends from and receives into one variable, in whichever order their sends and
  -- receives come, once the server, the client twice and the server again have had their turns, in
  -- this order.
  pub sync_ready-EndsWith :
      (es ec : SocketEndpoint) (ms mc : Memory) (bs bc : Ptr) (ws : List Party) (d u : S)
      → es.is_daemon ≡ true
      → ec.is_daemon ≡ false
      → l.bytes d ≡ []
      → l.bytes u ≡ []
      → has_steps in_turn ws ≡ true
      → let p = run v ws (record {
        server_call = sync_ready es ms bs;
        client_call = sync_ready ec mc bc;
        down = d;
        up = u;
      }) in
        EndsWith p.server_call bs (97 ∷ []) × EndsWith p.client_call bc (97 ∷ [])
  unfolding sync_ready
  sync_ready-EndsWith es ec ms mc bs bc ws d u is_server is_client hd hu fair =
      let (hs, hc) =
        run-Done v l 0 es ec (update ms bs (97 ∷ [])) (update mc bc (97 ∷ [])) bs bs bc bc is_server
          is_client (ap (length {0}) sent) (ap (length {0}) answered) ws d u hd hu fair in
      (
        ended-EndsWith _ _ bs (97 ∷ []) hs (rw (eq→== bs bs refl, eq→== bc bc refl) refl),
        ended-EndsWith _ _ bc (97 ∷ []) hc (rw (eq→== bs bs refl, eq→== bc bc refl) refl),
      )
    where
      sent : take 1 (update ms bs (97 ∷ []) bs) ≡ 97 ∷ []
      sent = rw (eq→== bs bs refl) refl

      answered :
          take 1 (written (update mc bc (97 ∷ [])) bc (take 1 (update ms bs (97 ∷ []) bs)) bc)
          ≡ 97 ∷ []
      answered = rw (eq→== bc bc refl, sent) refl
