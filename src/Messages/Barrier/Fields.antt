-- ===== src/Messages/Barrier/Fields.antt =====
-- The field accessors of `BarrierRequest` in csrc/flashreduce.pb.h. Reading a field is the projection.
use flash_reduce_dev.Common.{ℕ, ◌≡◌, refl}
use flash_reduce_dev.Messages.Wire.{Wire}
use flash_reduce_dev.Messages.Barrier.{BarrierRequest, clear_barrier_request}

module _ {U : Type 0} where
  abbrev pub clear_num_workers : BarrierRequest U → BarrierRequest U
  clear_num_workers m = record m { num_workers = 0 }

  abbrev pub set_num_workers : (value : ℕ) → BarrierRequest U → BarrierRequest U
  set_num_workers value m = record m { num_workers = value }

  -- `Clear`, which fills a range of memory with zeros, clears every field, and drops the unknown
  -- ones.
  pub clear_barrier_request_lem :
      (w : Wire U) (m : BarrierRequest U)
      → clear_barrier_request w m ≡ record (clear_num_workers m) { unknown_fields = w.no_unknown }
  unfolding clear_barrier_request
  clear_barrier_request_lem w m = refl
