-- ===== src/Sockets/Sync.antt =====
-- `syncData` and `syncReady` of csrc/socket_endpoint.cc, as programs that call `send` and `recv`.
use flash_reduce_dev.Common.{
  ℕ, zero, suc, ℤ, pos, is_positive, List, [], ◌∷◌, ◌++◌, length, if◌then◌else◌,
}
use flash_reduce_dev.Proxy.State.{Ptr, update}
use flash_reduce_dev.Sockets.Endpoint.{SocketEndpoint}

abbrev pub take : ℕ → List ℕ → List ℕ
take zero xs = []
take (suc n) [] = []
take (suc n) (x ∷ xs) = x ∷ take n xs

abbrev pub drop : ℕ → List ℕ → List ℕ
drop zero xs = xs
drop (suc n) [] = []
drop (suc n) (x ∷ xs) = drop n xs

-- The bytes of each buffer of the process.
abbrev pub Memory : Type 0
Memory = Ptr → List ℕ

-- A call of `syncData` that has yet to send bytes, to receive up to `size` bytes, or that has
-- returned `rc`. What follows depends on the result of `send`, or on that of `recv` and the bytes
-- that it wrote.
pub data Call : Type 0 where
  sending : (bytes : List ℕ) → (rest : ℤ → Call) → Call
  receiving : (size : ℕ) → (rest : ℤ → List ℕ → Call) → Call
  ended : (rc : ℤ) → (mem : Memory) → Call

-- The memory after `recv` has written the bytes to the buffer.
abbrev pub written : Memory → (buf : Ptr) → (got : List ℕ) → Memory
written mem buf got = update mem buf (got ++ drop (length got) (mem buf))

unfoldable pub sync_data : SocketEndpoint → Memory → (size : ℕ) → (out_buf in_buf : Ptr) → Call
sync_data e mem size out_buf in_buf =
    if e.is_daemon
    then (sending (take size (mem out_buf)) λ rc.
        if is_positive rc
        then (receiving size λ rc got.
            if is_positive rc then ended (pos 0) (written mem in_buf got) else ended rc mem)
        else ended rc mem)
    else (receiving size λ rc got.
        if is_positive rc
        then (sending (take size (written mem in_buf got out_buf)) λ rc.
            if is_positive rc
            then ended (pos 0) (written mem in_buf got)
            else ended rc (written mem in_buf got))
        else ended rc mem)

-- `cm_buf` is the address of the local variable, which holds 'a'.
unfoldable pub sync_ready : SocketEndpoint → Memory → (cm_buf : Ptr) → Call
unfolding sync_data
sync_ready e mem cm_buf = sync_data e (update mem cm_buf (97 ∷ [])) 1 cm_buf cm_buf
