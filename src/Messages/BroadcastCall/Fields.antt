-- ===== src/Messages/BroadcastCall/Fields.antt =====
-- The field accessors of `BroadcastRequest` in csrc/flashreduce.pb.h. Reading a field is the projection.
use flash_reduce_dev.Common.{ℕ, ◌≡◌, refl}
use flash_reduce_dev.Messages.Wire.{Wire}
use flash_reduce_dev.Messages.BroadcastCall.{BroadcastRequest, clear_broadcast_request}

module _ {U : Type 0} where
  abbrev pub clear_value : BroadcastRequest U → BroadcastRequest U
  clear_value m = record m { value = 0 }

  abbrev pub set_value : (value : ℕ) → BroadcastRequest U → BroadcastRequest U
  set_value value m = record m { value = value }

  abbrev pub clear_rank : BroadcastRequest U → BroadcastRequest U
  clear_rank m = record m { rank = 0 }

  abbrev pub set_rank : (value : ℕ) → BroadcastRequest U → BroadcastRequest U
  set_rank value m = record m { rank = value }

  abbrev pub clear_num_workers : BroadcastRequest U → BroadcastRequest U
  clear_num_workers m = record m { num_workers = 0 }

  abbrev pub set_num_workers : (value : ℕ) → BroadcastRequest U → BroadcastRequest U
  set_num_workers value m = record m { num_workers = value }

  abbrev pub clear_root : BroadcastRequest U → BroadcastRequest U
  clear_root m = record m { root = 0 }

  abbrev pub set_root : (value : ℕ) → BroadcastRequest U → BroadcastRequest U
  set_root value m = record m { root = value }

  -- `Clear`, which fills a range of memory with zeros, clears every field, and drops the unknown
  -- ones.
  pub clear_broadcast_request_lem :
      (w : Wire U) (m : BroadcastRequest U)
      → clear_broadcast_request w m
        ≡ record (clear_root (clear_num_workers (clear_rank (clear_value m)))) {
          unknown_fields = w.no_unknown;
        }
  unfolding clear_broadcast_request
  clear_broadcast_request_lem w m = refl
