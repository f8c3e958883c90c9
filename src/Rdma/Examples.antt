-- ===== src/Rdma/Examples.antt =====
-- A device that follows the manual, and the theorems of csrc/rdma_utils.cc applied to it.
use flash_reduce_dev.Common.{
  ℕ, ◌+◌, ◌≡◌, refl, ap, pos, Bool, true, [], ◌∷◌, ◌==◌, if◌then◌else◌, arith, undefined,
}
use flash_reduce_dev.Rdma.QueuePair.{
  QpState, qps_reset, QpInfo, QpAttr, Gid, ModifyQp, modify_qp_to_init, modify_qp_to_rts,
}
use flash_reduce_dev.Rdma.Device.{Verbs, init_ibv_device, init_ibv_device-missing}
use flash_reduce_dev.Rdma.Connect.{VerbsLaws, Connected, modify_qp_to_rts-Connected}

-- The state and the peer of a queue pair.
abbrev pub Qp : Type 0
Qp = QpState × (ℕ × Gid)

abbrev pub no_peer : ℕ × Gid
no_peer = (0, record { subnet_prefix = 0; interface_id = 0 })

-- The peer is kept but on the way to ready-to-receive.
abbrev pub peer_after : QpState → QpAttr → ℕ × Gid → ℕ × Gid
peer_after QpState.qps_reset a p = p
peer_after QpState.qps_init a p = p
peer_after QpState.qps_rtr a p = (a.dest_qp_num, a.ah_attr.grh.dgid)
peer_after QpState.qps_rts a p = p

abbrev pub accepting : ModifyQp Qp
accepting qp a m = (pos 0, (a.qp_state, peer_after a.qp_state a qp.1))

abbrev pub accepting_laws : (reliable : Bool) → VerbsLaws accepting reliable
accepting_laws reliable = record {
  state = λ qp. qp.0;
  peer = λ qp. qp.1;
  to_init = λ qp a m from to bits. (refl, to);
  to_rtr = λ qp a m from to bits. (refl, to, ap (λ (st : QpState). peer_after st a qp.1) to);
  to_rts = λ qp a m from to bits. (refl, to, ap (λ (st : QpState). peer_after st a qp.1) to);
}

abbrev pub neighbor : QpInfo
neighbor = record {
  rkey = 1;
  raddr = 4096;
  qp_num = 17;
  psn = 5;
  gid = record { subnet_prefix = 0; interface_id = 9 };
  lid = 0;
}

modify_qp_to_rts-Connected_example :
    ((modify_qp_to_init accepting (qps_reset, no_peer)).0 ≡ pos 0)
    × Connected
        (λ qp. qp.0)
        (λ qp. qp.1)
        neighbor
        (modify_qp_to_rts accepting
          (modify_qp_to_init accepting (qps_reset, no_peer)).1
          neighbor
          3
          true)
modify_qp_to_rts-Connected_example =
    modify_qp_to_rts-Connected accepting true (accepting_laws true) (qps_reset, no_peer) neighbor 3
      refl

-- Two devices, at 11 and 12, which are their own names.
abbrev two_devices : Verbs (Unit {0})
two_devices = record {
  get_device_list = λ k. (k, 500, 11 ∷ 12 ∷ []);
  get_device_name = λ device. device;
  strcmp = λ left right. if left == right then pos 0 else pos 1;
  open_device = λ k device. (k, device + 100);
  free_device_list = λ k list. k;
}

init_ibv_device-missing_example : init_ibv_device two_devices tt 0 13 ≡ undefined
init_ibv_device-missing_example =
    init_ibv_device-missing two_devices tt 13 (λ e. absurd (omega (arith, e))) (refl, (refl, tt))
