-- ===== src/Sockets/Handshake.antt =====
-- Both ends of a connection of csrc/socket_endpoint.cc get each other's bytes.
use flash_reduce_dev.Common.{
  ℕ, suc, ◌≡◌, refl, sym, ap, subst, ◌∙◌, ℤ, pos, is_positive, true, false, Option, List, [], ◌∷◌,
  ◌++◌, length, if◌then◌else◌, arith,
}
use flash_reduce_dev.Proxy.State.{Ptr}
use flash_reduce_dev.Sockets.Endpoint.{SocketEndpoint}
use flash_reduce_dev.Sockets.Sync.{
  take, Memory, Call, sending, receiving, ended, written, sync_data,
}
use flash_reduce_dev.Sockets.Exchange.{
  Stream, StreamLaws, Party, server, client, Pair, resume, step, turn, run, has_steps,
}

-- The calls in the order in which they can be made: each end waits for the other's bytes.
abbrev pub in_turn : List Party
in_turn = server ∷ client ∷ client ∷ server ∷ []

module _ {S : Type 0} (v : Stream S) (l : StreamLaws v) (n : ℕ) where
  step_sends :
      (bs : List ℕ) (rest : ℤ → Call) (out inn : S)
      → length bs ≡ suc n
      → step v (sending bs rest) out inn ≡ (rest (pos (suc n)), (v.send out bs).0, inn)
  unfolding step
  step_sends bs rest out inn h =
      ap (λ (rc : ℤ). (rest rc, (v.send out bs).0, inn)) (l.send_all out bs ∙ ap pos h)

  step_hears :
      (bs : List ℕ) (rest : ℤ → List ℕ → Call) (out inn : S)
      → l.bytes inn ≡ bs
      → length bs ≡ suc n
      → step v (receiving (suc n) rest) out inn ≡ (rest (pos (suc n)) bs, out, l.after inn)
  unfolding step resume
  step_hears bs rest out inn h full =
      ap (λ (o : Option (S × ℤ × List ℕ)). resume v o (suc n) rest out inn)
        (l.recv_all inn n (ap (length {0}) h ∙ full))
      ∙ ap (λ (got : List ℕ). (rest (pos (suc n)) got, out, l.after inn)) h

  step_blocks :
      (rest : ℤ → List ℕ → Call) (out inn : S)
      → l.bytes inn ≡ []
      → step v (receiving (suc n) rest) out inn ≡ (receiving (suc n) rest, out, inn)
  unfolding step resume
  step_blocks rest out inn h =
      ap (λ (o : Option (S × ℤ × List ℕ)). resume v o (suc n) rest out inn) (l.recv_blocks inn n h)

module _ {S : Type 0} (v : Stream S) (l : StreamLaws v) (n : ℕ) (es ec : SocketEndpoint)
    (ms mc : Memory) (so si co ci : Ptr) (is_server : es.is_daemon ≡ true)
    (is_client : ec.is_daemon ≡ false) (full : length (take (suc n) (ms so)) ≡ suc n)
    (full' : length (take (suc n) (written mc ci (take (suc n) (ms so)) co)) ≡ suc n) where
  abbrev from_server : List ℕ
  from_server = take (suc n) (ms so)

  abbrev from_client : List ℕ
  from_client = take (suc n) (written mc ci from_server co)

  abbrev server_end : Call
  server_end = ended (pos 0) (written ms si from_client)

  abbrev client_end : Call
  client_end = ended (pos 0) (written mc ci from_server)

  abbrev server_waits : Call
  server_waits =
      receiving (suc n)
        λ rc got. if is_positive rc then ended (pos 0) (written ms si got) else ended rc ms

  abbrev client_answers : Call
  client_answers =
      sending from_client
        λ rc. if is_positive rc then client_end else ended rc (written mc ci from_server)

  abbrev Done : Pair S → Type 0
  Done p = (p.server_call ≡ server_end) × (p.client_call ≡ client_end)

  -- Two ends with the calls that they have come to.
  abbrev ends : Call → Call → (d u : S) → Pair S
  ends c c' d u = record { server_call = c; client_call = c'; down = d; up = u }

  run_after : (ws : List Party) (d u : S) → Done (run v ws (ends server_end client_end d u))
  unfolding run turn step
  run_after [] d u = (refl, refl)
  run_after (server ∷ ws) d u = run_after ws d u
  run_after (client ∷ ws) d u = run_after ws d u

  run_last :
      (ws : List Party) (d u : S)
      → l.bytes u ≡ from_client
      → has_steps (server ∷ []) ws ≡ true
      → Done (run v ws (ends server_waits client_end d u))
  unfolding run turn has_steps step
  run_last [] d u h steps = absurd (ground (arith, steps))
  run_last (server ∷ ws) d u h steps =
      subst (λ (r : Call × S × S). Done (run v ws (ends r.0 client_end r.1 r.2)))
        (sym (step_hears v l n from_client _ d u h full')) (run_after ws d (l.after u))
  run_last (client ∷ ws) d u h steps = run_last ws d u h steps

  run_answer :
      (ws : List Party) (d u : S)
      → l.bytes u ≡ []
      → has_steps (client ∷ server ∷ []) ws ≡ true
      → Done (run v ws (ends server_waits client_answers d u))
  unfolding run turn has_steps
  run_answer [] d u h steps = absurd (ground (arith, steps))
  run_answer (server ∷ ws) d u h steps =
      subst (λ (r : Call × S × S). Done (run v ws (ends r.0 client_answers r.1 r.2)))
        (sym (step_blocks v l n _ d u h)) (run_answer ws d u h steps)
  run_answer (client ∷ ws) d u h steps =
      subst (λ (r : Call × S × S). Done (run v ws (ends server_waits r.0 r.2 r.1)))
        (sym (step_sends v l n from_client _ u d full'))
        (run_last ws d (v.send u from_client).0
          (l.send-bytes u from_client ∙ ap (λ (bs : List ℕ). bs ++ from_client) h) steps)

  abbrev client_waits : Call
  client_waits = receiving (suc n) λ rc got.
      if is_positive rc
      then (sending (take (suc n) (written mc ci got co)) λ rc.
          if is_positive rc
          then ended (pos 0) (written mc ci got)
          else ended rc (written mc ci got))
      else ended rc mc

  run_heard :
      (ws : List Party) (d u : S)
      → l.bytes d ≡ from_server
      → l.bytes u ≡ []
      → has_steps (client ∷ client ∷ server ∷ []) ws ≡ true
      → Done (run v ws (ends server_waits client_waits d u))
  unfolding run turn has_steps
  run_heard [] d u h h' steps = absurd (ground (arith, steps))
  run_heard (server ∷ ws) d u h h' steps =
      subst (λ (r : Call × S × S). Done (run v ws (ends r.0 client_waits r.1 r.2)))
        (sym (step_blocks v l n _ d u h')) (run_heard ws d u h h' steps)
  run_heard (client ∷ ws) d u h h' steps =
      subst (λ (r : Call × S × S). Done (run v ws (ends server_waits r.0 r.2 r.1)))
        (sym (step_hears v l n from_server _ u d h full)) (run_answer ws (l.after d) u h' steps)

  run_first :
      (ws : List Party) (d u : S)
      → l.bytes d ≡ []
      → l.bytes u ≡ []
      → has_steps in_turn ws ≡ true
      → Done (
          run v ws (
            ends
              (sending from_server λ rc. if is_positive rc then server_waits else ended rc ms)
              client_waits
              d
              u))
  unfolding run turn has_steps
  run_first [] d u h h' steps = absurd (ground (arith, steps))
  run_first (client ∷ ws) d u h h' steps =
      subst
        (λ (r : Call × S × S). Done (
          run v ws (
            ends (sending from_server λ rc. if is_positive rc then server_waits else ended rc ms)
              r.0 r.2 r.1)))
        (sym (step_blocks v l n _ u d h)) (run_first ws d u h h' steps)
  run_first (server ∷ ws) d u h h' steps =
      subst (λ (r : Call × S × S). Done (run v ws (ends r.0 client_waits r.1 r.2)))
        (sym (step_sends v l n from_server _ d u full))
        (run_heard ws (v.send d from_server).0 u
          (l.send-bytes d from_server ∙ ap (λ (bs : List ℕ). bs ++ from_server) h) h' steps)

  pub run-Done :
      (ws : List Party) (d u : S)
      → l.bytes d ≡ []
      → l.bytes u ≡ []
      → has_steps in_turn ws ≡ true
      → Done (run v ws (ends (sync_data es ms (suc n) so si) (sync_data ec mc (suc n) co ci) d u))
  unfolding sync_data
  run-Done ws d u h h' steps = rw (is_server, is_client) (run_first ws d u h h' steps)
