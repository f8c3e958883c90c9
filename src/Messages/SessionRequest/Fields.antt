-- ===== src/Messages/SessionRequest/Fields.antt =====
-- The field accessors of `RdmaSessionRequest` in csrc/flashreduce.pb.h. Reading a field is the projection.
use flash_reduce_dev.Common.{ℕ, ◌≡◌, refl}
use flash_reduce_dev.Messages.Wire.{Wire}
use flash_reduce_dev.Messages.SessionRequest.{RdmaSessionRequest, clear_session_request}

module _ {U : Type 0} where
  abbrev pub clear_session_id : RdmaSessionRequest U → RdmaSessionRequest U
  clear_session_id m = record m { session_id = 0 }

  abbrev pub set_session_id : (value : ℕ) → RdmaSessionRequest U → RdmaSessionRequest U
  set_session_id value m = record m { session_id = value }

  abbrev pub clear_rank : RdmaSessionRequest U → RdmaSessionRequest U
  clear_rank m = record m { rank = 0 }

  abbrev pub set_rank : (value : ℕ) → RdmaSessionRequest U → RdmaSessionRequest U
  set_rank value m = record m { rank = value }

  abbrev pub clear_num_workers : RdmaSessionRequest U → RdmaSessionRequest U
  clear_num_workers m = record m { num_workers = 0 }

  abbrev pub set_num_workers : (value : ℕ) → RdmaSessionRequest U → RdmaSessionRequest U
  set_num_workers value m = record m { num_workers = value }

  abbrev pub clear_root : RdmaSessionRequest U → RdmaSessionRequest U
  clear_root m = record m { root = 0 }

  abbrev pub set_root : (value : ℕ) → RdmaSessionRequest U → RdmaSessionRequest U
  set_root value m = record m { root = value }

  abbrev pub clear_mac : RdmaSessionRequest U → RdmaSessionRequest U
  clear_mac m = record m { mac = 0 }

  abbrev pub set_mac : (value : ℕ) → RdmaSessionRequest U → RdmaSessionRequest U
  set_mac value m = record m { mac = value }

  abbrev pub clear_ipv4 : RdmaSessionRequest U → RdmaSessionRequest U
  clear_ipv4 m = record m { ipv4 = 0 }

  abbrev pub set_ipv4 : (value : ℕ) → RdmaSessionRequest U → RdmaSessionRequest U
  set_ipv4 value m = record m { ipv4 = value }

  abbrev pub clear_rkey : RdmaSessionRequest U → RdmaSessionRequest U
  clear_rkey m = record m { rkey = 0 }

  abbrev pub set_rkey : (value : ℕ) → RdmaSessionRequest U → RdmaSessionRequest U
  set_rkey value m = record m { rkey = value }

  abbrev pub clear_raddr : RdmaSessionRequest U → RdmaSessionRequest U
  clear_raddr m = record m { raddr = 0 }

  abbrev pub set_raddr : (value : ℕ) → RdmaSessionRequest U → RdmaSessionRequest U
  set_raddr value m = record m { raddr = value }

  abbrev pub clear_qpn : RdmaSessionRequest U → RdmaSessionRequest U
  clear_qpn m = record m { qpn = 0 }

  abbrev pub set_qpn : (value : ℕ) → RdmaSessionRequest U → RdmaSessionRequest U
  set_qpn value m = record m { qpn = value }

  abbrev pub clear_psn : RdmaSessionRequest U → RdmaSessionRequest U
  clear_psn m = record m { psn = 0 }

  abbrev pub set_psn : (value : ℕ) → RdmaSessionRequest U → RdmaSessionRequest U
  set_psn value m = record m { psn = value }

  abbrev pub clear_gid_subnet : RdmaSessionRequest U → RdmaSessionRequest U
  clear_gid_subnet m = record m { gid_subnet = 0 }

  abbrev pub set_gid_subnet : (value : ℕ) → RdmaSessionRequest U → RdmaSessionRequest U
  set_gid_subnet value m = record m { gid_subnet = value }

  abbrev pub clear_gid_iface : RdmaSessionRequest U → RdmaSessionRequest U
  clear_gid_iface m = record m { gid_iface = 0 }

  abbrev pub set_gid_iface : (value : ℕ) → RdmaSessionRequest U → RdmaSessionRequest U
  set_gid_iface value m = record m { gid_iface = value }

  abbrev pub clear_lid : RdmaSessionRequest U → RdmaSessionRequest U
  clear_lid m = record m { lid = 0 }

  abbrev pub set_lid : (value : ℕ) → RdmaSessionRequest U → RdmaSessionRequest U
  set_lid value m = record m { lid = value }

  -- `Clear`, which fills a range of memory with zeros, clears every field, and drops the unknown
  -- ones.
  pub clear_session_request_lem :
      (w : Wire U) (m : RdmaSessionRequest U)
      → clear_session_request w m
        ≡ record (clear_lid (
            clear_gid_iface (
              clear_gid_subnet (
                clear_psn (
                  clear_qpn (
                    clear_raddr (
                      clear_rkey (
                        clear_ipv4 (
                          clear_mac (
                            clear_root
                              (clear_num_workers (clear_rank (clear_session_id m))))))))))))) {
                                unknown_fields = w.no_unknown;
                              }
  unfolding clear_session_request
  clear_session_request_lem w m = refl
