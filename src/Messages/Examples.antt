-- ===== src/Messages/Examples.antt =====
-- A runtime for the messages, and the theorems of csrc/flashreduce.pb.cc applied with it.
use flash_reduce_dev.Common.{
  ℕ, zero, suc, ◌+◌, ◌*◌, ◌/◌, ◌%◌, ◌≡◌, refl, ap, not, List, [], ◌∷◌, ◌++◌, ◌==◌, if◌then◌else◌,
  ltb, length, arith,
}
use flash_reduce_dev.Messages.Wire.{Wire, WireLaws}
use flash_reduce_dev.Messages.SessionRequest.{
  RdmaSessionRequest, serialize_session_request, byte_size_session_request,
  length-serialize_session_request,
}
use flash_reduce_dev.Messages.SessionResponse.{
  RdmaSessionResponse, serialize_session_response, byte_size_session_response,
  length-serialize_session_response,
}
use flash_reduce_dev.Messages.BroadcastCall.{
  BroadcastRequest, serialize_broadcast_request, byte_size_broadcast_request,
  length-serialize_broadcast_request,
}

-- Base 128, lowest digit first; ten bytes are enough for 64 bits.
pub varint : (fuel v : ℕ) → List ℕ
varint zero v = []
varint (suc k) v =
    let rest = varint k (v / 128) in if ltb v 128 then v ∷ [] else (v % 128 + 128) ∷ rest

-- Unknown fields are kept as bytes.
abbrev pub raw : Wire (List ℕ)
raw = record {
  write_u32 = λ f v. (f * 8) ∷ varint 10 v;
  write_u64 = λ f v. (f * 8) ∷ varint 10 v;
  size_u32 = λ v. length (varint 10 v) + 1;
  size_u64 = λ v. length (varint 10 v) + 1;
  no_unknown = [];
  have_unknown = λ u. not (length u == 0);
  write_unknown = λ u. u;
  size_unknown = length;
  merge_unknown = λ a b. a ++ b;
}

append_assoc : (a b c : List ℕ) → (a ++ b) ++ c ≡ a ++ (b ++ c)
append_assoc [] b c = refl
append_assoc (x ∷ a) b c = ap (λ (l : List ℕ). x ∷ l) (append_assoc a b c)

raw-laws : WireLaws raw
raw-laws = record {
  length-write_u32 = λ f v h. omega arith;
  length-write_u64 = λ f v h. omega arith;
  length-write_unknown = λ u. refl;
  merge_no_unknown = λ u. refl;
  merge_unknown_assoc = append_assoc;
}

abbrev request : RdmaSessionRequest (List ℕ)
request = record {
  session_id = 7;
  rank = 0;
  num_workers = 2;
  root = 1;
  mac = 187723572702975;
  ipv4 = 3232235777;
  rkey = 300;
  raddr = 140737488355328;
  qpn = 17;
  psn = 9;
  gid_subnet = 0;
  gid_iface = 5;
  lid = 65535;
  cached_size = 0;
  unknown_fields = [];
}

abbrev response : RdmaSessionResponse (List ℕ)
response = record {
  raddr = 140737488355328;
  rkey = 300;
  qpn = 17;
  psn = 0;
  lid = 65535;
  gid_subnet = 0;
  gid_iface = 5;
  cached_size = 3;
  unknown_fields = 8 ∷ 1 ∷ [];
}

abbrev broadcast_message : BroadcastRequest (List ℕ)
broadcast_message = record {
  value = 1000;
  rank = 0;
  num_workers = 4;
  root = 3;
  cached_size = 0;
  unknown_fields = [];
}

length-serialize_session_request_example :
    (length (serialize_session_request raw request []) ≡ (byte_size_session_request raw request).0)
    × ((byte_size_session_request raw request).1.cached_size
        ≡ (byte_size_session_request raw request).0)
length-serialize_session_request_example = length-serialize_session_request raw raw-laws request

length-serialize_session_response_example :
    (length (serialize_session_response raw response [])
      ≡ (byte_size_session_response raw response).0)
    × ((byte_size_session_response raw response).1.cached_size
        ≡ (byte_size_session_response raw response).0)
length-serialize_session_response_example = length-serialize_session_response raw raw-laws response

length-serialize_broadcast_request_example :
    (length (serialize_broadcast_request raw broadcast_message [])
      ≡ (byte_size_broadcast_request raw broadcast_message).0)
    × ((byte_size_broadcast_request raw broadcast_message).1.cached_size
        ≡ (byte_size_broadcast_request raw broadcast_message).0)
length-serialize_broadcast_request_example =
    length-serialize_broadcast_request raw raw-laws broadcast_message
