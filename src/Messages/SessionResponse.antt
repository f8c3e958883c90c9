-- ===== src/Messages/SessionResponse.antt =====
-- `RdmaSessionResponse` of csrc/flashreduce.pb.h and csrc/flashreduce.pb.cc.
pub mod Fields
use flash_reduce_dev.Common.{
  ℕ, ◌≡◌, ◌∙◌, refl, ap, Bool, false, List, [], if◌then◌else◌, length, arith,
}
use flash_reduce_dev.Messages.Wire.{
  Wire, WireLaws, pick, pick-zero, pick-pick, put_u32, put_u64, put_unknown, add_u32, add_u64,
  add_unknown, add_u32-sum, add_u64-sum, length-put_u32, length-put_u64, length-put_unknown,
}

pub record RdmaSessionResponse (U : Type 0) : Type 0 where
  pub raddr : ℕ
  pub rkey : ℕ
  pub qpn : ℕ
  pub psn : ℕ
  pub lid : ℕ
  pub gid_subnet : ℕ
  pub gid_iface : ℕ
  pub cached_size : ℕ
  pub unknown_fields : U

module _ {U : Type 0} (w : Wire U) where
  -- `SharedCtor`
  abbrev pub new_session_response : RdmaSessionResponse U
  new_session_response = record {
    raddr = 0;
    rkey = 0;
    qpn = 0;
    psn = 0;
    lid = 0;
    gid_subnet = 0;
    gid_iface = 0;
    cached_size = 0;
    unknown_fields = w.no_unknown;
  }

  -- `Clear`
  unfoldable pub clear_session_response : RdmaSessionResponse U → RdmaSessionResponse U
  clear_session_response m = record m {
    raddr = 0;
    rkey = 0;
    qpn = 0;
    psn = 0;
    lid = 0;
    gid_subnet = 0;
    gid_iface = 0;
    unknown_fields = w.no_unknown;
  }

  -- `_InternalSerialize`, with the bytes written so far for `target`.
  unfoldable pub serialize_session_response : RdmaSessionResponse U → List ℕ → List ℕ
  serialize_session_response m target =
      let target = put_u32 w 2 m.rkey target in
      let target = put_u64 w 3 m.raddr target in
      let target = put_u32 w 4 m.qpn target in
      let target = put_u32 w 5 m.psn target in
      let target = put_u64 w 13 m.gid_subnet target in
      let target = put_u64 w 14 m.gid_iface target in
      let target = put_u32 w 15 m.lid target in put_unknown w m.unknown_fields target

  -- `ByteSizeLong`, which also stores the size.
  unfoldable pub byte_size_session_response : RdmaSessionResponse U → ℕ × RdmaSessionResponse U
  byte_size_session_response m =
      let total = add_u64 w m.raddr 0 in
      let total = add_u32 w m.rkey total in
      let total = add_u32 w m.qpn total in
      let total = add_u32 w m.psn total in
      let total = add_u32 w m.lid total in
      let total = add_u64 w m.gid_subnet total in
      let total = add_u64 w m.gid_iface total in
      let total = add_unknown w m.unknown_fields total in (total, record m { cached_size = total })

  -- `MergeImpl`
  unfoldable pub merge_session_response : (to from : RdmaSessionResponse U) → RdmaSessionResponse U
  merge_session_response to from = record to {
    raddr = pick from.raddr to.raddr;
    rkey = pick from.rkey to.rkey;
    qpn = pick from.qpn to.qpn;
    psn = pick from.psn to.psn;
    lid = pick from.lid to.lid;
    gid_subnet = pick from.gid_subnet to.gid_subnet;
    gid_iface = pick from.gid_iface to.gid_iface;
    unknown_fields = w.merge_unknown to.unknown_fields from.unknown_fields;
  }

  -- `CopyFrom`; `same` says whether `from` is the object itself.
  unfoldable pub copy_session_response :
      (same : Bool) (to from : RdmaSessionResponse U) → RdmaSessionResponse U
  copy_session_response same to from =
      if same then to else merge_session_response (clear_session_response to) from

unfoldable pub swap_session_response :
    {U : Type 0} → (a b : RdmaSessionResponse U) → RdmaSessionResponse U × RdmaSessionResponse U
swap_session_response a b =
    (record b { cached_size = a.cached_size }, record a { cached_size = b.cached_size })

module _ {U : Type 0} (w : Wire U) (l : WireLaws w) where
  -- The size that `ByteSizeLong` computes and stores is the number of bytes that are written.
  pub length-serialize_session_response :
      (m : RdmaSessionResponse U)
      → (length (serialize_session_response w m []) ≡ (byte_size_session_response w m).0)
        × ((byte_size_session_response w m).1.cached_size ≡ (byte_size_session_response w m).0)
  unfolding serialize_session_response byte_size_session_response
  length-serialize_session_response m = (
    length-put_unknown l _ _ m.unknown_fields (
          length-put_u32 l _ _ 15 m.lid (omega arith) (
            length-put_u64 l _ _ 14 m.gid_iface (omega arith) (
              length-put_u64 l _ _ 13 m.gid_subnet (omega arith) (
                length-put_u32 l _ _ 5 m.psn (omega arith) (
                  length-put_u32 l _ _ 4 m.qpn (omega arith) (
                    length-put_u64 l _ _ 3 m.raddr (omega arith)
                      (length-put_u32 l _ _ 2 m.rkey (omega arith) refl)))))))
        ∙ ap (add_unknown w m.unknown_fields) same_sum,
    refl,
  )
    where
      same_sum :
          add_u32 w m.lid (
            add_u64 w m.gid_iface (
              add_u64 w m.gid_subnet
                (add_u32 w m.psn (add_u32 w m.qpn (add_u64 w m.raddr (add_u32 w m.rkey 0))))))
          ≡ add_u64 w m.gid_iface (
              add_u64 w m.gid_subnet (
                add_u32 w m.lid
                  (add_u32 w m.psn (add_u32 w m.qpn (add_u32 w m.rkey (add_u64 w m.raddr 0))))))
      same_sum = omega (
        arith,
        add_u64-sum w m.raddr (add_u32 w m.rkey 0),
        add_u32-sum w m.qpn (add_u64 w m.raddr (add_u32 w m.rkey 0)),
        add_u32-sum w m.psn (add_u32 w m.qpn (add_u64 w m.raddr (add_u32 w m.rkey 0))),
        add_u64-sum w m.gid_subnet
            (add_u32 w m.psn (add_u32 w m.qpn (add_u64 w m.raddr (add_u32 w m.rkey 0)))),
        add_u64-sum w m.gid_iface (
            add_u64 w m.gid_subnet
              (add_u32 w m.psn (add_u32 w m.qpn (add_u64 w m.raddr (add_u32 w m.rkey 0))))),
        add_u32-sum w m.lid (
            add_u64 w m.gid_iface (
              add_u64 w m.gid_subnet
                (add_u32 w m.psn (add_u32 w m.qpn (add_u64 w m.raddr (add_u32 w m.rkey 0)))))),
        add_u32-sum w m.rkey (add_u64 w m.raddr 0),
        add_u32-sum w m.qpn (add_u32 w m.rkey (add_u64 w m.raddr 0)),
        add_u32-sum w m.psn (add_u32 w m.qpn (add_u32 w m.rkey (add_u64 w m.raddr 0))),
        add_u32-sum w m.lid
            (add_u32 w m.psn (add_u32 w m.qpn (add_u32 w m.rkey (add_u64 w m.raddr 0)))),
        add_u64-sum w m.gid_subnet (
            add_u32 w m.lid
              (add_u32 w m.psn (add_u32 w m.qpn (add_u32 w m.rkey (add_u64 w m.raddr 0))))),
        add_u64-sum w m.gid_iface (
            add_u64 w m.gid_subnet (
              add_u32 w m.lid
                (add_u32 w m.psn (add_u32 w m.qpn (add_u32 w m.rkey (add_u64 w m.raddr 0)))))),
      )

  -- A copy has the fields of its source, known and unknown, whatever it held before, and keeps its
  -- own cached size.
  pub copy_session_response_lem :
      (to from : RdmaSessionResponse U)
      → copy_session_response w false to from ≡ record from { cached_size = to.cached_size }
  unfolding copy_session_response merge_session_response clear_session_response
  copy_session_response_lem to from = simp (pick-zero, l.merge_no_unknown) refl

  -- Two merges in a row are one merge of the merged sources.
  pub merge_session_response_assoc :
      (a b c : RdmaSessionResponse U)
      → merge_session_response w (merge_session_response w a b) c
        ≡ merge_session_response w a (merge_session_response w b c)
  unfolding merge_session_response
  merge_session_response_assoc a b c = simp (pick-pick, l.merge_unknown_assoc) refl
