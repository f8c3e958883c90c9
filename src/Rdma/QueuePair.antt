-- ===== src/Rdma/QueuePair.antt =====
-- `modify_qp_to_init` and `modify_qp_to_rts` of csrc/rdma_utils.cc, over `ibv_modify_qp`.
use flash_reduce_dev.Common.{
  ℕ, ℤ, pos, is_zero, Bool, List, [], ◌∷◌, if◌then◌else◌, Outcome, done, check_failed,
}

pub data QpState : Type 0 where
  qps_reset qps_init qps_rtr qps_rts : QpState

-- The bits of an attribute mask.
pub data QpAttrMask : Type 0 where
  qp_state_bit qp_port qp_pkey_index qp_access_flags_bit qp_path_mtu qp_dest_qpn qp_rq_psn qp_av :
      QpAttrMask
  qp_max_dest_rd_atomic qp_min_rnr_timer qp_timeout qp_retry_cnt qp_rnr_retry qp_sq_psn : QpAttrMask
  qp_max_qp_rd_atomic : QpAttrMask

-- The bits of `qp_access_flags`.
pub data AccessFlag : Type 0 where
  access_local_write access_remote_write : AccessFlag

pub record Gid : Type 0 where
  pub subnet_prefix : ℕ
  pub interface_id : ℕ

abbrev zero_gid : Gid
zero_gid = record { subnet_prefix = 0; interface_id = 0 }

pub record QpInfo : Type 0 where
  pub rkey : ℕ
  pub raddr : ℕ
  pub qp_num : ℕ
  pub psn : ℕ
  pub gid : Gid
  pub lid : ℕ

pub record GlobalRoute : Type 0 where
  pub dgid : Gid
  pub sgid_index : ℕ
  pub flow_label : ℕ
  pub hop_limit : ℕ
  pub traffic_class : ℕ

pub record AhAttr : Type 0 where
  pub is_global : ℕ
  pub dlid : ℕ
  pub sl : ℕ
  pub src_path_bits : ℕ
  pub ah_port_num : ℕ
  pub grh : GlobalRoute

pub record QpAttr : Type 0 where
  pub qp_state : QpState
  pub port_num : ℕ
  pub pkey_index : ℕ
  pub qp_access_flags : List AccessFlag
  pub path_mtu : ℕ
  pub dest_qp_num : ℕ
  pub rq_psn : ℕ
  pub sq_psn : ℕ
  pub max_dest_rd_atomic : ℕ
  pub min_rnr_timer : ℕ
  pub ah_attr : AhAttr
  pub timeout : ℕ
  pub retry_cnt : ℕ
  pub rnr_retry : ℕ
  pub max_rd_atomic : ℕ

-- `memset` of the structure to 0, the state of which is then `IBV_QPS_RESET`.
abbrev zero_attr : QpAttr
zero_attr = record {
  qp_state = qps_reset;
  port_num = 0;
  pkey_index = 0;
  qp_access_flags = [];
  path_mtu = 0;
  dest_qp_num = 0;
  rq_psn = 0;
  sq_psn = 0;
  max_dest_rd_atomic = 0;
  min_rnr_timer = 0;
  ah_attr = record {
    is_global = 0;
    dlid = 0;
    sl = 0;
    src_path_bits = 0;
    ah_port_num = 0;
    grh = record {
      dgid = zero_gid;
      sgid_index = 0;
      flow_label = 0;
      hop_limit = 0;
      traffic_class = 0;
    };
  };
  timeout = 0;
  retry_cnt = 0;
  rnr_retry = 0;
  max_rd_atomic = 0;
}

abbrev ib_port : ℕ
ib_port = 1

abbrev gid_index : ℕ
gid_index = 3

-- The address of the neighbour, as both transports set it.
abbrev neighbor_ah : QpInfo → AhAttr
neighbor_ah info = record {
  is_global = 1;
  dlid = info.lid;
  sl = 0;
  src_path_bits = 0;
  ah_port_num = ib_port;
  grh = record {
    dgid = info.gid;
    sgid_index = gid_index;
    flow_label = 0;
    hop_limit = 255;
    traffic_class = 0;
  };
}

-- `ibv_modify_qp`: its result, 0 or an error number, and the queue pair after the call.
abbrev pub ModifyQp : Type 0 → Type 0
ModifyQp Qp = Qp → QpAttr → List QpAttrMask → ℤ × Qp

module _ {Qp : Type 0} (modify : ModifyQp Qp) where
  unfoldable pub modify_qp_to_init : Qp → ℤ × Qp
  modify_qp_to_init qp =
      modify qp
        (record zero_attr {
          qp_state = qps_init;
          port_num = ib_port;
          pkey_index = 0;
          qp_access_flags = access_local_write ∷ access_remote_write ∷ [];
        })
        (qp_state_bit ∷ qp_port ∷ qp_pkey_index ∷ qp_access_flags_bit ∷ [])

  unfoldable pub modify_qp_to_rtr_uc : Qp → QpInfo → (mtu : ℕ) → ℤ × Qp
  modify_qp_to_rtr_uc qp info mtu =
      modify qp
        (record zero_attr {
          qp_state = qps_rtr;
          dest_qp_num = info.qp_num;
          rq_psn = info.psn;
          max_dest_rd_atomic = 0;
          min_rnr_timer = 18;
          path_mtu = mtu;
          ah_attr = neighbor_ah info;
        })
        (qp_state_bit ∷ qp_path_mtu ∷ qp_dest_qpn ∷ qp_rq_psn ∷ qp_av ∷ [])

  unfoldable pub modify_qp_to_rts_uc : Qp → ℤ × Qp
  modify_qp_to_rts_uc qp =
      modify qp
        (record zero_attr {
          qp_state = qps_rts;
          sq_psn = 0;
          timeout = 14;
          retry_cnt = 7;
          rnr_retry = 7;
          max_rd_atomic = 1;
        })
        (qp_state_bit ∷ qp_sq_psn ∷ [])

  -- The two calls of `modify_qp_to_rts_rc`.
  unfoldable pub rc_to_rtr : Qp → QpInfo → (mtu : ℕ) → ℤ × Qp
  rc_to_rtr qp info mtu =
      modify qp
        (record zero_attr {
          qp_state = qps_rtr;
          path_mtu = mtu;
          rq_psn = 0;
          dest_qp_num = info.qp_num;
          ah_attr = neighbor_ah info;
          max_dest_rd_atomic = 1;
          min_rnr_timer = 18;
        })
        (qp_state_bit ∷ qp_av ∷ qp_path_mtu ∷ qp_dest_qpn ∷ qp_rq_psn ∷ qp_max_dest_rd_atomic
          ∷ qp_min_rnr_timer ∷ [])

  unfoldable pub rc_to_rts : Qp → ℤ × Qp
  rc_to_rts qp =
      modify qp
        (record zero_attr {
          qp_state = qps_rts;
          sq_psn = 0;
          max_rd_atomic = 1;
          timeout = 14;
          retry_cnt = 7;
          rnr_retry = 7;
        })
        (qp_state_bit ∷ qp_timeout ∷ qp_retry_cnt ∷ qp_rnr_retry ∷ qp_sq_psn ∷ qp_max_qp_rd_atomic
          ∷ [])

  unfoldable pub modify_qp_to_rts_rc : Qp → QpInfo → (mtu : ℕ) → Outcome (ℤ × Qp)
  modify_qp_to_rts_rc qp info mtu =
      let (ret, qp) = rc_to_rtr qp info mtu in
      if is_zero ret
      then (let (ret, qp) = rc_to_rts qp in if is_zero ret then done (pos 0, qp) else check_failed)
      else check_failed

  unfoldable pub modify_qp_to_rts : Qp → QpInfo → (mtu : ℕ) → (reliable : Bool) → Outcome (ℤ × Qp)
  modify_qp_to_rts qp info mtu reliable =
      if reliable
      then modify_qp_to_rts_rc qp info mtu
      else (let (ret, qp) = modify_qp_to_rtr_uc qp info mtu in
          if is_zero ret then done (modify_qp_to_rts_uc qp) else check_failed)
