-- ===== src/Grpc/Client.antt =====
-- The constructor of `gRPCClient`, csrc/grpc_client.h and csrc/grpc_client.cc.
use flash_reduce_dev.Common.{List, ◌∷◌, ◌++◌, ℕ}

-- `stub_` and `session_stub_`.
pub record GrpcClient (Sync Session : Type 0) : Type 0 where
  pub stub : Sync
  pub session_stub : Session

-- The code of `:`.
abbrev colon : ℕ
colon = 58

-- Texts are lists of character codes. Each stub gets a channel of its own to the same address;
-- `create_channel` is `grpc::CreateChannel` with insecure credentials.
unfoldable pub new_client :
    {Channel Sync Session : Type 0} (create_channel : List ℕ → Channel) (sync_stub : Channel → Sync)
    (session_stub : Channel → Session) (ip port : List ℕ)
    → GrpcClient Sync Session
new_client create_channel sync_stub session_stub ip port =
    let controller_socket = ip ++ colon ∷ port in
    record {
      stub = sync_stub (create_channel controller_socket);
      session_stub = session_stub (create_channel controller_socket);
    }
