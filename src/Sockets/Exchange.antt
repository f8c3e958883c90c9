-- ===== src/Sockets/Exchange.antt =====
-- Two ends of a connection that call `syncData` or `syncReady`, in any order of their steps.
use flash_reduce_dev.Common.{
  ℕ, suc, ◌≡◌, ℤ, pos, Bool, true, false, Option, none, some, List, [], ◌∷◌, ◌++◌, length,
  if◌then◌else◌,
}
use flash_reduce_dev.Proxy.State.{Ptr}
use flash_reduce_dev.Sockets.Sync.{Call, sending, receiving, ended}

-- One direction of the connection: `send`, and `recv`, which is `none` while it blocks.
pub record Stream (S : Type 0) : Type 0 where
  pub send : S → List ℕ → S × ℤ
  pub recv : S → (size : ℕ) → Option (S × ℤ × List ℕ)

-- What the manual says of a blocking stream between two live ends, when a message is sent and
-- arrives in one piece: `bytes` are those on the way.
pub record StreamLaws {S : Type 0} (v : Stream S) : Type 0 where
  pub bytes : S → List ℕ
  pub send_all : (s : S) (bs : List ℕ) → (v.send s bs).1 ≡ pos (length bs)
  pub send-bytes : (s : S) (bs : List ℕ) → bytes (v.send s bs).0 ≡ bytes s ++ bs
  pub recv_blocks : (s : S) (n : ℕ) → bytes s ≡ [] → v.recv s (suc n) ≡ none
  pub after : S → S
  pub after-bytes : (s : S) → bytes (after s) ≡ []
  pub recv_all :
      (s : S) (n : ℕ)
      → length (bytes s) ≡ suc n
      → v.recv s (suc n) ≡ some (after s, pos (suc n), bytes s)

pub data Party : Type 0 where
  server client : Party

pub record Pair (S : Type 0) : Type 0 where
  pub server_call : Call
  pub client_call : Call
  pub down : S
  pub up : S

module _ {S : Type 0} (v : Stream S) where
  -- What `recv` gave, if it did not block.
  unfoldable pub resume :
      Option (S × ℤ × List ℕ) → (size : ℕ) → (ℤ → List ℕ → Call) → (out inn : S) → Call × S × S
  resume none size rest out inn = (receiving size rest, out, inn)
  resume (some (inn', rc, got)) size rest out inn = (rest rc got, out, inn')

  -- The next call of one end, which sends on `out` and receives from `inn`.
  unfoldable pub step : Call → (out inn : S) → Call × S × S
  step (sending bs rest) out inn = let (out', rc) = v.send out bs in (rest rc, out', inn)
  step (receiving size rest) out inn = resume (v.recv inn size) size rest out inn
  step (ended rc mem) out inn = (ended rc mem, out, inn)

  unfoldable pub turn : Party → Pair S → Pair S
  turn server p =
      let (c, out, inn) = step p.server_call p.down p.up in
      record p { server_call = c; down = out; up = inn }
  turn client p =
      let (c, out, inn) = step p.client_call p.up p.down in
      record p { client_call = c; up = out; down = inn }

  unfoldable pub run : List Party → Pair S → Pair S
  run [] p = p
  run (w ∷ ws) p = run ws (turn w p)

-- The schedule has the steps among its own, in this order.
abbrev pub same_party : Party → Party → Bool
same_party server server = true
same_party server client = false
same_party client server = false
same_party client client = true

unfoldable pub has_steps : (steps schedule : List Party) → Bool
has_steps [] ws = true
has_steps (s ∷ ss) [] = false
has_steps (s ∷ ss) (w ∷ ws) = if same_party s w then has_steps ss ws else has_steps (s ∷ ss) ws

-- The call has returned 0, with these bytes in the buffer.
abbrev pub EndsWith : Call → (buf : Ptr) → List ℕ → Type 0
EndsWith (sending bs rest) buf got = ⊥
EndsWith (receiving size rest) buf got = ⊥
EndsWith (ended rc mem) buf got = (rc ≡ pos 0) × (mem buf ≡ got)
