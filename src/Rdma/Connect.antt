-- ===== src/Rdma/Connect.antt =====
-- The way of a queue pair of csrc/rdma_utils.cc from the reset state to ready-to-send.
use flash_reduce_dev.Common.{
  ℕ, ℤ, pos, is_zero, ap, ◌≡◌, ◌∙◌, refl, Bool, true, false, List, [], ◌∷◌, ◌==◌, Outcome, done,
  check_failed, undefined, ◌||◌, ◌&&◌,
}
use flash_reduce_dev.Rdma.QueuePair.{
  QpState, qps_reset, qps_init, qps_rtr, qps_rts, QpAttrMask, QpAttr, QpInfo, Gid, ModifyQp,
  modify_qp_to_init, modify_qp_to_rtr_uc, modify_qp_to_rts_uc, rc_to_rtr, rc_to_rts,
  modify_qp_to_rts_rc, modify_qp_to_rts, qp_state_bit, qp_port, qp_pkey_index, qp_access_flags_bit,
  qp_path_mtu, qp_dest_qpn, qp_rq_psn, qp_av, qp_max_dest_rd_atomic, qp_min_rnr_timer, qp_timeout,
  qp_retry_cnt, qp_rnr_retry, qp_sq_psn, qp_max_qp_rd_atomic,
}

-- The position of a bit.
position : QpAttrMask → ℕ
position qp_state_bit = 0
position qp_access_flags_bit = 3
position qp_pkey_index = 4
position qp_port = 5
position qp_av = 7
position qp_path_mtu = 8
position qp_timeout = 9
position qp_retry_cnt = 10
position qp_rnr_retry = 11
position qp_rq_psn = 12
position qp_max_qp_rd_atomic = 13
position qp_min_rnr_timer = 15
position qp_sq_psn = 16
position qp_max_dest_rd_atomic = 17
position qp_dest_qpn = 20

abbrev has : QpAttrMask → List QpAttrMask → Bool
has b [] = false
has b (m ∷ ms) = (position b == position m) || has b ms

abbrev all_in : (xs ms : List QpAttrMask) → Bool
all_in [] ms = true
all_in (x ∷ xs) ms = has x ms && all_in xs ms

-- The two masks set the same bits.
unfoldable pub same_bits : (xs ms : List QpAttrMask) → Bool
unfolding position
same_bits xs ms = all_in xs ms && all_in ms xs

-- The attributes that the manual of `ibv_modify_qp` asks for, by service type.
abbrev pub init_mask : List QpAttrMask
init_mask = qp_state_bit ∷ qp_pkey_index ∷ qp_port ∷ qp_access_flags_bit ∷ []

abbrev pub rtr_mask : (reliable : Bool) → List QpAttrMask
rtr_mask true =
    qp_state_bit ∷ qp_av ∷ qp_path_mtu ∷ qp_dest_qpn ∷ qp_rq_psn ∷ qp_max_dest_rd_atomic
    ∷ qp_min_rnr_timer ∷ []
rtr_mask false = qp_state_bit ∷ qp_av ∷ qp_path_mtu ∷ qp_dest_qpn ∷ qp_rq_psn ∷ []

abbrev pub rts_mask : (reliable : Bool) → List QpAttrMask
rts_mask true =
    qp_state_bit ∷ qp_sq_psn ∷ qp_max_qp_rd_atomic ∷ qp_retry_cnt ∷ qp_rnr_retry ∷ qp_timeout ∷ []
rts_mask false = qp_state_bit ∷ qp_sq_psn ∷ []

-- What the manual says of `ibv_modify_qp` on a queue pair of the service type: a transition with
-- the attributes that it asks for succeeds, and ready-to-receive fixes the peer.
pub record VerbsLaws {Qp : Type 0} (modify : ModifyQp Qp) (reliable : Bool) : Type 0 where
  pub state : Qp → QpState
  pub peer : Qp → ℕ × Gid
  pub to_init :
      (qp : Qp) (a : QpAttr) (m : List QpAttrMask)
      → state qp ≡ qps_reset
      → a.qp_state ≡ qps_init
      → same_bits init_mask m ≡ true
      → ((modify qp a m).0 ≡ pos 0) × (state (modify qp a m).1 ≡ qps_init)
  pub to_rtr :
      (qp : Qp) (a : QpAttr) (m : List QpAttrMask)
      → state qp ≡ qps_init
      → a.qp_state ≡ qps_rtr
      → same_bits (rtr_mask reliable) m ≡ true
      → ((modify qp a m).0 ≡ pos 0)
        × (state (modify qp a m).1 ≡ qps_rtr)
        × (peer (modify qp a m).1 ≡ (a.dest_qp_num, a.ah_attr.grh.dgid))
  pub to_rts :
      (qp : Qp) (a : QpAttr) (m : List QpAttrMask)
      → state qp ≡ qps_rtr
      → a.qp_state ≡ qps_rts
      → same_bits (rts_mask reliable) m ≡ true
      → ((modify qp a m).0 ≡ pos 0)
        × (state (modify qp a m).1 ≡ qps_rts)
        × (peer (modify qp a m).1 ≡ peer qp)

-- `modify_qp_to_rts` returned 0, and the queue pair is ready to send to `info`.
abbrev pub Connected :
    {Qp : Type 0} (state : Qp → QpState) (peer : Qp → ℕ × Gid) → QpInfo → Outcome (ℤ × Qp) → Type 0
Connected state peer info (done r) =
    (r.0 ≡ pos 0) × (state r.1 ≡ qps_rts) × (peer r.1 ≡ (info.qp_num, info.gid))
Connected state peer info check_failed = ⊥
Connected state peer info undefined = ⊥

module _ {Qp : Type 0} (modify : ModifyQp Qp) where
  -- A reset queue pair of either service type goes to ready-to-send in three transitions, each with
  -- the attributes that the manual asks for: initialisation returns 0, no check fails, the result is 0,
  -- and the peer is the one that `info` names.
  pub modify_qp_to_rts-Connected :
      (reliable : Bool) (l : VerbsLaws modify reliable) (qp : Qp) (info : QpInfo) (mtu : ℕ)
      → l.state qp ≡ qps_reset
      → ((modify_qp_to_init modify qp).0 ≡ pos 0)
        × Connected l.state l.peer info
            (modify_qp_to_rts modify (modify_qp_to_init modify qp).1 info mtu reliable)
  unfolding modify_qp_to_init modify_qp_to_rtr_uc modify_qp_to_rts_uc rc_to_rtr rc_to_rts
      modify_qp_to_rts_rc modify_qp_to_rts same_bits
  modify_qp_to_rts-Connected false l qp info mtu reset = (
    ok_init,
    rw (ap is_zero rtr.0)
        (let (ret, at_rts, same) = rts in let (_, _, peer) = rtr in (ret, at_rts, same ∙ peer)),
  )
    where
      ok_init : (modify_qp_to_init modify qp).0 ≡ pos 0
      ok_init = (l.to_init qp _ _ reset refl refl).0

      q : Qp
      q = (modify_qp_to_init modify qp).1

      rtr :
          ((modify_qp_to_rtr_uc modify q info mtu).0 ≡ pos 0)
          × (l.state (modify_qp_to_rtr_uc modify q info mtu).1 ≡ qps_rtr)
          × (l.peer (modify_qp_to_rtr_uc modify q info mtu).1 ≡ (info.qp_num, info.gid))
      rtr = l.to_rtr q _ _ (l.to_init qp _ _ reset refl refl).1 refl refl

      q' : Qp
      q' = (modify_qp_to_rtr_uc modify q info mtu).1

      rts :
          ((modify_qp_to_rts_uc modify q').0 ≡ pos 0)
          × (l.state (modify_qp_to_rts_uc modify q').1 ≡ qps_rts)
          × (l.peer (modify_qp_to_rts_uc modify q').1 ≡ l.peer q')
      rts = l.to_rts q' _ _ (let (_, at, _) = rtr in at) refl refl
  modify_qp_to_rts-Connected true l qp info mtu reset = (
    ok_init,
    rw (ap is_zero rtr.0, ap is_zero rts.0)
        (let (_, at_rts, same) = rts in let (_, _, peer) = rtr in (refl, at_rts, same ∙ peer)),
  )
    where
      ok_init : (modify_qp_to_init modify qp).0 ≡ pos 0
      ok_init = (l.to_init qp _ _ reset refl refl).0

      q : Qp
      q = (modify_qp_to_init modify qp).1

      rtr :
          ((rc_to_rtr modify q info mtu).0 ≡ pos 0)
          × (l.state (rc_to_rtr modify q info mtu).1 ≡ qps_rtr)
          × (l.peer (rc_to_rtr modify q info mtu).1 ≡ (info.qp_num, info.gid))
      rtr = l.to_rtr q _ _ (l.to_init qp _ _ reset refl refl).1 refl refl

      q' : Qp
      q' = (rc_to_rtr modify q info mtu).1

      rts :
          ((rc_to_rts modify q').0 ≡ pos 0)
          × (l.state (rc_to_rts modify q').1 ≡ qps_rts)
          × (l.peer (rc_to_rts modify q').1 ≡ l.peer q')
      rts = l.to_rts q' _ _ (let (_, at, _) = rtr in at) refl refl
