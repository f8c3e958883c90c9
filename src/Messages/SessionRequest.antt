-- ===== src/Messages/SessionRequest.antt =====
-- `RdmaSessionRequest` of csrc/flashreduce.pb.h and csrc/flashreduce.pb.cc.
pub mod Fields
use flash_reduce_dev.Common.{ℕ, ◌≡◌, refl, Bool, false, List, [], if◌then◌else◌, length, arith}
use flash_reduce_dev.Messages.Wire.{
  Wire, WireLaws, pick, pick-zero, pick-pick, put_u32, put_u64, put_unknown, add_u32, add_u64,
  add_unknown, length-put_u32, length-put_u64, length-put_unknown,
}

pub record RdmaSessionRequest (U : Type 0) : Type 0 where
  pub session_id : ℕ
  pub rank : ℕ
  pub num_workers : ℕ
  pub root : ℕ
  pub mac : ℕ
  pub ipv4 : ℕ
  pub rkey : ℕ
  pub raddr : ℕ
  pub qpn : ℕ
  pub psn : ℕ
  pub gid_subnet : ℕ
  pub gid_iface : ℕ
  pub lid : ℕ
  pub cached_size : ℕ
  pub unknown_fields : U

module _ {U : Type 0} (w : Wire U) where
  -- `SharedCtor`
  abbrev pub new_session_request : RdmaSessionRequest U
  new_session_request = record {
    session_id = 0;
    rank = 0;
    num_workers = 0;
    root = 0;
    mac = 0;
    ipv4 = 0;
    rkey = 0;
    raddr = 0;
    qpn = 0;
    psn = 0;
    gid_subnet = 0;
    gid_iface = 0;
    lid = 0;
    cached_size = 0;
    unknown_fields = w.no_unknown;
  }

  -- `Clear`
  unfoldable pub clear_session_request : RdmaSessionRequest U → RdmaSessionRequest U
  clear_session_request m = record m {
    session_id = 0;
    rank = 0;
    num_workers = 0;
    root = 0;
    mac = 0;
    ipv4 = 0;
    rkey = 0;
    raddr = 0;
    qpn = 0;
    psn = 0;
    gid_subnet = 0;
    gid_iface = 0;
    lid = 0;
    unknown_fields = w.no_unknown;
  }

  -- `_InternalSerialize`, with the bytes written so far for `target`.
  unfoldable pub serialize_session_request : RdmaSessionRequest U → List ℕ → List ℕ
  serialize_session_request m target =
      let target = put_u32 w 1 m.session_id target in
      let target = put_u32 w 2 m.rank target in
      let target = put_u32 w 3 m.num_workers target in
      let target = put_u32 w 4 m.root target in
      let target = put_u64 w 5 m.mac target in
      let target = put_u32 w 6 m.ipv4 target in
      let target = put_u32 w 7 m.rkey target in
      let target = put_u64 w 8 m.raddr target in
      let target = put_u32 w 9 m.qpn target in
      let target = put_u32 w 10 m.psn target in
      let target = put_u64 w 11 m.gid_subnet target in
      let target = put_u64 w 12 m.gid_iface target in
      let target = put_u32 w 13 m.lid target in put_unknown w m.unknown_fields target

  -- `ByteSizeLong`, which also stores the size.
  unfoldable pub byte_size_session_request : RdmaSessionRequest U → ℕ × RdmaSessionRequest U
  byte_size_session_request m =
      let total = add_u32 w m.session_id 0 in
      let total = add_u32 w m.rank total in
      let total = add_u32 w m.num_workers total in
      let total = add_u32 w m.root total in
      let total = add_u64 w m.mac total in
      let total = add_u32 w m.ipv4 total in
      let total = add_u32 w m.rkey total in
      let total = add_u64 w m.raddr total in
      let total = add_u32 w m.qpn total in
      let total = add_u32 w m.psn total in
      let total = add_u64 w m.gid_subnet total in
      let total = add_u64 w m.gid_iface total in
      let total = add_u32 w m.lid total in
      let total = add_unknown w m.unknown_fields total in (total, record m { cached_size = total })

  -- `MergeImpl`
  unfoldable pub merge_session_request : (to from : RdmaSessionRequest U) → RdmaSessionRequest U
  merge_session_request to from = record to {
    session_id = pick from.session_id to.session_id;
    rank = pick from.rank to.rank;
    num_workers = pick from.num_workers to.num_workers;
    root = pick from.root to.root;
    mac = pick from.mac to.mac;
    ipv4 = pick from.ipv4 to.ipv4;
    rkey = pick from.rkey to.rkey;
    raddr = pick from.raddr to.raddr;
    qpn = pick from.qpn to.qpn;
    psn = pick from.psn to.psn;
    gid_subnet = pick from.gid_subnet to.gid_subnet;
    gid_iface = pick from.gid_iface to.gid_iface;
    lid = pick from.lid to.lid;
    unknown_fields = w.merge_unknown to.unknown_fields from.unknown_fields;
  }

  -- `CopyFrom`; `same` says whether `from` is the object itself.
  unfoldable pub copy_session_request :
      (same : Bool) (to from : RdmaSessionRequest U) → RdmaSessionRequest U
  copy_session_request same to from =
      if same then to else merge_session_request (clear_session_request to) from

unfoldable pub swap_session_request :
    {U : Type 0} → (a b : RdmaSessionRequest U) → RdmaSessionRequest U × RdmaSessionRequest U
swap_session_request a b =
    (record b { cached_size = a.cached_size }, record a { cached_size = b.cached_size })

module _ {U : Type 0} (w : Wire U) (l : WireLaws w) where
  -- The size that `ByteSizeLong` computes and stores is the number of bytes that are written.
  pub length-serialize_session_request :
      (m : RdmaSessionRequest U)
      → (length (serialize_session_request w m []) ≡ (byte_size_session_request w m).0)
        × ((byte_size_session_request w m).1.cached_size ≡ (byte_size_session_request w m).0)
  unfolding serialize_session_request byte_size_session_request
  length-serialize_session_request m = (
    length-put_unknown l _ _ m.unknown_fields (
        length-put_u32 l _ _ 13 m.lid (omega arith) (
          length-put_u64 l _ _ 12 m.gid_iface (omega arith) (
            length-put_u64 l _ _ 11 m.gid_subnet (omega arith) (
              length-put_u32 l _ _ 10 m.psn (omega arith) (
                length-put_u32 l _ _ 9 m.qpn (omega arith) (
                  length-put_u64 l _ _ 8 m.raddr (omega arith) (
                    length-put_u32 l _ _ 7 m.rkey (omega arith) (
                      length-put_u32 l _ _ 6 m.ipv4 (omega arith) (
                        length-put_u64 l _ _ 5 m.mac (omega arith) (
                          length-put_u32 l _ _ 4 m.root (omega arith) (
                            length-put_u32 l _ _ 3 m.num_workers (omega arith) (
                              length-put_u32 l _ _ 2 m.rank (omega arith) (
                                length-put_u32 l _ _ 1 m.session_id (omega arith) refl))))))))))))),
    refl,
  )

  -- A copy has the fields of its source, known and unknown, whatever it held before, and keeps its
  -- own cached size.
  pub copy_session_request_lem :
      (to from : RdmaSessionRequest U)
      → copy_session_request w false to from ≡ record from { cached_size = to.cached_size }
  unfolding copy_session_request merge_session_request clear_session_request
  copy_session_request_lem to from = simp (pick-zero, l.merge_no_unknown) refl

  -- Two merges in a row are one merge of the merged sources.
  pub merge_session_request_assoc :
      (a b c : RdmaSessionRequest U)
      → merge_session_request w (merge_session_request w a b) c
        ≡ merge_session_request w a (merge_session_request w b c)
  unfolding merge_session_request
  merge_session_request_assoc a b c = simp (pick-pick, l.merge_unknown_assoc) refl
