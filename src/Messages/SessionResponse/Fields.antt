-- ===== src/Messages/SessionResponse/Fields.antt =====
-- The field accessors of `RdmaSessionResponse` in csrc/flashreduce.pb.h. Reading a field is the projection.
use flash_reduce_dev.Common.{ℕ, ◌≡◌, refl}
use flash_reduce_dev.Messages.Wire.{Wire}
use flash_reduce_dev.Messages.SessionResponse.{RdmaSessionResponse, clear_session_response}

module _ {U : Type 0} where
  abbrev pub clear_rkey : RdmaSessionResponse U → RdmaSessionResponse U
  clear_rkey m = record m { rkey = 0 }

  abbrev pub set_rkey : (value : ℕ) → RdmaSessionResponse U → RdmaSessionResponse U
  set_rkey value m = record m { rkey = value }

  abbrev pub clear_raddr : RdmaSessionResponse U → RdmaSessionResponse U
  clear_raddr m = record m { raddr = 0 }

  abbrev pub set_raddr : (value : ℕ) → RdmaSessionResponse U → RdmaSessionResponse U
  set_raddr value m = record m { raddr = value }

  abbrev pub clear_qpn : RdmaSessionResponse U → RdmaSessionResponse U
  clear_qpn m = record m { qpn = 0 }

  abbrev pub set_qpn : (value : ℕ) → RdmaSessionResponse U → RdmaSessionResponse U
  set_qpn value m = record m { qpn = value }

  abbrev pub clear_psn : RdmaSessionResponse U → RdmaSessionResponse U
  clear_psn m = record m { psn = 0 }

  abbrev pub set_psn : (value : ℕ) → RdmaSessionResponse U → RdmaSessionResponse U
  set_psn value m = record m { psn = value }

  abbrev pub clear_gid_subnet : RdmaSessionResponse U → RdmaSessionResponse U
  clear_gid_subnet m = record m { gid_subnet = 0 }

  abbrev pub set_gid_subnet : (value : ℕ) → RdmaSessionResponse U → RdmaSessionResponse U
  set_gid_subnet value m = record m { gid_subnet = value }

  abbrev pub clear_gid_iface : RdmaSessionResponse U → RdmaSessionResponse U
  clear_gid_iface m = record m { gid_iface = 0 }

  abbrev pub set_gid_iface : (value : ℕ) → RdmaSessionResponse U → RdmaSessionResponse U
  set_gid_iface value m = record m { gid_iface = value }

  abbrev pub clear_lid : RdmaSessionResponse U → RdmaSessionResponse U
  clear_lid m = record m { lid = 0 }

  abbrev pub set_lid : (value : ℕ) → RdmaSessionResponse U → RdmaSessionResponse U
  set_lid value m = record m { lid = value }

  -- `Clear`, which fills a range of memory with zeros, clears every field, and drops the unknown
  -- ones.
  pub clear_session_response_lem :
      (w : Wire U) (m : RdmaSessionResponse U)
      → clear_session_response w m
        ≡ record (clear_lid (
            clear_gid_iface
              (clear_gid_subnet (clear_psn (clear_qpn (clear_raddr (clear_rkey m))))))) {
                unknown_fields = w.no_unknown;
              }
  unfolding clear_session_response
  clear_session_response_lem w m = refl
