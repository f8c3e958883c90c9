-- ===== src/Messages/BroadcastCall.antt =====
-- `BroadcastRequest` of csrc/flashreduce.pb.h and csrc/flashreduce.pb.cc.
pub mod Fields
use flash_reduce_dev.Common.{ℕ, ◌≡◌, refl, Bool, false, List, [], if◌then◌else◌, length, arith}
use flash_reduce_dev.Messages.Wire.{
  Wire, WireLaws, pick, pick-zero, pick-pick, put_u32, put_u64, put_unknown, add_u32, add_u64,
  add_unknown, length-put_u32, length-put_u64, length-put_unknown,
}

pub record BroadcastRequest (U : Type 0) : Type 0 where
  pub value : ℕ
  pub rank : ℕ
  pub num_workers : ℕ
  pub root : ℕ
  pub cached_size : ℕ
  pub unknown_fields : U

module _ {U : Type 0} (w : Wire U) where
  -- `SharedCtor`
  abbrev pub new_broadcast_request : BroadcastRequest U
  new_broadcast_request = record {
    value = 0;
    rank = 0;
    num_workers = 0;
    root = 0;
    cached_size = 0;
    unknown_fields = w.no_unknown;
  }

  -- `Clear`
  unfoldable pub clear_broadcast_request : BroadcastRequest U → BroadcastRequest U
  clear_broadcast_request m = record m {
    value = 0;
    rank = 0;
    num_workers = 0;
    root = 0;
    unknown_fields = w.no_unknown;
  }

  -- `_InternalSerialize`, with the bytes written so far for `target`.
  unfoldable pub serialize_broadcast_request : BroadcastRequest U → List ℕ → List ℕ
  serialize_broadcast_request m target =
      let target = put_u64 w 1 m.value target in
      let target = put_u32 w 2 m.rank target in
      let target = put_u32 w 3 m.num_workers target in
      let target = put_u32 w 4 m.root target in put_unknown w m.unknown_fields target

  -- `ByteSizeLong`, which also stores the size.
  unfoldable pub byte_size_broadcast_request : BroadcastRequest U → ℕ × BroadcastRequest U
  byte_size_broadcast_request m =
      let total = add_u64 w m.value 0 in
      let total = add_u32 w m.rank total in
      let total = add_u32 w m.num_workers total in
      let total = add_u32 w m.root total in
      let total = add_unknown w m.unknown_fields total in (total, record m { cached_size = total })

  -- `MergeImpl`
  unfoldable pub merge_broadcast_request : (to from : BroadcastRequest U) → BroadcastRequest U
  merge_broadcast_request to from = record to {
    value = pick from.value to.value;
    rank = pick from.rank to.rank;
    num_workers = pick from.num_workers to.num_workers;
    root = pick from.root to.root;
    unknown_fields = w.merge_unknown to.unknown_fields from.unknown_fields;
  }

  -- `CopyFrom`; `same` says whether `from` is the object itself.
  unfoldable pub copy_broadcast_request :
      (same : Bool) (to from : BroadcastRequest U) → BroadcastRequest U
  copy_broadcast_request same to from =
      if same then to else merge_broadcast_request (clear_broadcast_request to) from

unfoldable pub swap_broadcast_request :
    {U : Type 0} → (a b : BroadcastRequest U) → BroadcastRequest U × BroadcastRequest U
swap_broadcast_request a b =
    (record b { cached_size = a.cached_size }, record a { cached_size = b.cached_size })

module _ {U : Type 0} (w : Wire U) (l : WireLaws w) where
  -- The size that `ByteSizeLong` computes and stores is the number of bytes that are written.
  pub length-serialize_broadcast_request :
      (m : BroadcastRequest U)
      → (length (serialize_broadcast_request w m []) ≡ (byte_size_broadcast_request w m).0)
        × ((byte_size_broadcast_request w m).1.cached_size ≡ (byte_size_broadcast_request w m).0)
  unfolding serialize_broadcast_request byte_size_broadcast_request
  length-serialize_broadcast_request m = (
    length-put_unknown l _ _ m.unknown_fields (
        length-put_u32 l _ _ 4 m.root (omega arith) (
          length-put_u32 l _ _ 3 m.num_workers (omega arith) (
            length-put_u32 l _ _ 2 m.rank (omega arith)
              (length-put_u64 l _ _ 1 m.value (omega arith) refl)))),
    refl,
  )

  -- A copy has the fields of its source, known and unknown, whatever it held before, and keeps its
  -- own cached size.
  pub copy_broadcast_request_lem :
      (to from : BroadcastRequest U)
      → copy_broadcast_request w false to from ≡ record from { cached_size = to.cached_size }
  unfolding copy_broadcast_request merge_broadcast_request clear_broadcast_request
  copy_broadcast_request_lem to from = simp (pick-zero, l.merge_no_unknown) refl

  -- Two merges in a row are one merge of the merged sources.
  pub merge_broadcast_request_assoc :
      (a b c : BroadcastRequest U)
      → merge_broadcast_request w (merge_broadcast_request w a b) c
        ≡ merge_broadcast_request w a (merge_broadcast_request w b c)
  unfolding merge_broadcast_request
  merge_broadcast_request_assoc a b c = simp (pick-pick, l.merge_unknown_assoc) refl
