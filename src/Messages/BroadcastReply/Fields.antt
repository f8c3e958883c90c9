-- ===== src/Messages/BroadcastReply/Fields.antt =====
-- The field accessors of `BroadcastResponse` in csrc/flashreduce.pb.h. Reading a field is the projection.
use flash_reduce_dev.Common.{ℕ, ◌≡◌, refl}
use flash_reduce_dev.Messages.Wire.{Wire}
use flash_reduce_dev.Messages.BroadcastReply.{BroadcastResponse, clear_broadcast_response}

module _ {U : Type 0} where
  abbrev pub clear_value : BroadcastResponse U → BroadcastResponse U
  clear_value m = record m { value = 0 }

  abbrev pub set_value : (value : ℕ) → BroadcastResponse U → BroadcastResponse U
  set_value value m = record m { value = value }

  -- `Clear`, which fills a range of memory with zeros, clears every field, and drops the unknown
  -- ones.
  pub clear_broadcast_response_lem :
      (w : Wire U) (m : BroadcastResponse U)
      → clear_broadcast_response w m ≡ record (clear_value m) { unknown_fields = w.no_unknown }
  unfolding clear_broadcast_response
  clear_broadcast_response_lem w m = refl
