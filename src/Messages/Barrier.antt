-- ===== src/Messages/Barrier.antt =====
-- `BarrierRequest` of csrc/flashreduce.pb.h and csrc/flashreduce.pb.cc.
pub mod Fields
use flash_reduce_dev.Common.{ℕ, ◌≡◌, refl, Bool, false, List, [], if◌then◌else◌, length, arith}
use flash_reduce_dev.Messages.Wire.{
  Wire, WireLaws, pick, pick-zero, pick-pick, put_u32, put_unknown, add_u32, add_unknown,
  length-put_u32, length-put_unknown,
}

pub record BarrierRequest (U : Type 0) : Type 0 where
  pub num_workers : ℕ
  pub cached_size : ℕ
  pub unknown_fields : U

module _ {U : Type 0} (w : Wire U) where
  -- `SharedCtor`
  abbrev pub new_barrier_request : BarrierRequest U
  new_barrier_request = record { num_workers = 0; cached_size = 0; unknown_fields = w.no_unknown }

  -- `Clear`
  unfoldable pub clear_barrier_request : BarrierRequest U → BarrierRequest U
  clear_barrier_request m = record m { num_workers = 0; unknown_fields = w.no_unknown }

  -- `_InternalSerialize`, with the bytes written so far for `target`.
  unfoldable pub serialize_barrier_request : BarrierRequest U → List ℕ → List ℕ
  serialize_barrier_request m target =
      let target = put_u32 w 1 m.num_workers target in put_unknown w m.unknown_fields target

  -- `ByteSizeLong`, which also stores the size.
  unfoldable pub byte_size_barrier_request : BarrierRequest U → ℕ × BarrierRequest U
  byte_size_barrier_request m =
      let total = add_u32 w m.num_workers 0 in
      let total = add_unknown w m.unknown_fields total in (total, record m { cached_size = total })

  -- `MergeImpl`
  unfoldable pub merge_barrier_request : (to from : BarrierRequest U) → BarrierRequest U
  merge_barrier_request to from = record to {
    num_workers = pick from.num_workers to.num_workers;
    unknown_fields = w.merge_unknown to.unknown_fields from.unknown_fields;
  }

  -- `CopyFrom`; `same` says whether `from` is the object itself.
  unfoldable pub copy_barrier_request :
      (same : Bool) (to from : BarrierRequest U) → BarrierRequest U
  copy_barrier_request same to from =
      if same then to else merge_barrier_request (clear_barrier_request to) from

unfoldable pub swap_barrier_request :
    {U : Type 0} → (a b : BarrierRequest U) → BarrierRequest U × BarrierRequest U
swap_barrier_request a b =
    (record b { cached_size = a.cached_size }, record a { cached_size = b.cached_size })

module _ {U : Type 0} (w : Wire U) (l : WireLaws w) where
  -- The size that `ByteSizeLong` computes and stores is the number of bytes that are written.
  pub length-serialize_barrier_request :
      (m : BarrierRequest U)
      → (length (serialize_barrier_request w m []) ≡ (byte_size_barrier_request w m).0)
        × ((byte_size_barrier_request w m).1.cached_size ≡ (byte_size_barrier_request w m).0)
  unfolding serialize_barrier_request byte_size_barrier_request
  length-serialize_barrier_request m = (
    length-put_unknown l _ _ m.unknown_fields
        (length-put_u32 l _ _ 1 m.num_workers (omega arith) refl),
    refl,
  )

  -- A copy has the fields of its source, known and unknown, whatever it held before, and keeps its
  -- own cached size.
  pub copy_barrier_request_lem :
      (to from : BarrierRequest U)
      → copy_barrier_request w false to from ≡ record from { cached_size = to.cached_size }
  unfolding copy_barrier_request merge_barrier_request clear_barrier_request
  copy_barrier_request_lem to from = simp (pick-zero, l.merge_no_unknown) refl

  -- Two merges in a row are one merge of the merged sources.
  pub merge_barrier_request_assoc :
      (a b c : BarrierRequest U)
      → merge_barrier_request w (merge_barrier_request w a b) c
        ≡ merge_barrier_request w a (merge_barrier_request w b c)
  unfolding merge_barrier_request
  merge_barrier_request_assoc a b c = simp (pick-pick, l.merge_unknown_assoc) refl
