-- ===== src/Messages/BroadcastReply.antt =====
-- `BroadcastResponse` of csrc/flashreduce.pb.h and csrc/flashreduce.pb.cc.
pub mod Fields
use flash_reduce_dev.Common.{ℕ, ◌≡◌, refl, Bool, false, List, [], if◌then◌else◌, length, arith}
use flash_reduce_dev.Messages.Wire.{
  Wire, WireLaws, pick, pick-zero, pick-pick, put_u64, put_unknown, add_u64, add_unknown,
  length-put_u64, length-put_unknown,
}

pub record BroadcastResponse (U : Type 0) : Type 0 where
  pub value : ℕ
  pub cached_size : ℕ
  pub unknown_fields : U

module _ {U : Type 0} (w : Wire U) where
  -- `SharedCtor`
  abbrev pub new_broadcast_response : BroadcastResponse U
  new_broadcast_response = record { value = 0; cached_size = 0; unknown_fields = w.no_unknown }

  -- `Clear`
  unfoldable pub clear_broadcast_response : BroadcastResponse U → BroadcastResponse U
  clear_broadcast_response m = record m { value = 0; unknown_fields = w.no_unknown }

  -- `_InternalSerialize`, with the bytes written so far for `target`.
  unfoldable pub serialize_broadcast_response : BroadcastResponse U → List ℕ → List ℕ
  serialize_broadcast_response m target =
      let target = put_u64 w 1 m.value target in put_unknown w m.unknown_fields target

  -- `ByteSizeLong`, which also stores the size.
  unfoldable pub byte_size_broadcast_response : BroadcastResponse U → ℕ × BroadcastResponse U
  byte_size_broadcast_response m =
      let total = add_u64 w m.value 0 in
      let total = add_unknown w m.unknown_fields total in (total, record m { cached_size = total })

  -- `MergeImpl`
  unfoldable pub merge_broadcast_response : (to from : BroadcastResponse U) → BroadcastResponse U
  merge_broadcast_response to from = record to {
    value = pick from.value to.value;
    unknown_fields = w.merge_unknown to.unknown_fields from.unknown_fields;
  }

  -- `CopyFrom`; `same` says whether `from` is the object itself.
  unfoldable pub copy_broadcast_response :
      (same : Bool) (to from : BroadcastResponse U) → BroadcastResponse U
  copy_broadcast_response same to from =
      if same then to else merge_broadcast_response (clear_broadcast_response to) from

unfoldable pub swap_broadcast_response :
    {U : Type 0} → (a b : BroadcastResponse U) → BroadcastResponse U × BroadcastResponse U
swap_broadcast_response a b =
    (record b { cached_size = a.cached_size }, record a { cached_size = b.cached_size })

module _ {U : Type 0} (w : Wire U) (l : WireLaws w) where
  -- The size that `ByteSizeLong` computes and stores is the number of bytes that are written.
  pub length-serialize_broadcast_response :
      (m : BroadcastResponse U)
      → (length (serialize_broadcast_response w m []) ≡ (byte_size_broadcast_response w m).0)
        × ((byte_size_broadcast_response w m).1.cached_size ≡ (byte_size_broadcast_response w m).0)
  unfolding serialize_broadcast_response byte_size_broadcast_response
  length-serialize_broadcast_response m = (
    length-put_unknown l _ _ m.unknown_fields (length-put_u64 l _ _ 1 m.value (omega arith) refl),
    refl,
  )

  -- A copy has the fields of its source, known and unknown, whatever it held before, and keeps its
  -- own cached size.
  pub copy_broadcast_response_lem :
      (to from : BroadcastResponse U)
      → copy_broadcast_response w false to from ≡ record from { cached_size = to.cached_size }
  unfolding copy_broadcast_response merge_broadcast_response clear_broadcast_response
  copy_broadcast_response_lem to from = simp (pick-zero, l.merge_no_unknown) refl

  -- Two merges in a row are one merge of the merged sources.
  pub merge_broadcast_response_assoc :
      (a b c : BroadcastResponse U)
      → merge_broadcast_response w (merge_broadcast_response w a b) c
        ≡ merge_broadcast_response w a (merge_broadcast_response w b c)
  unfolding merge_broadcast_response
  merge_broadcast_response_assoc a b c = simp (pick-pick, l.merge_unknown_assoc) refl
