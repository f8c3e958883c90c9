-- ===== src/Rdma/WorkRequest.antt =====
-- The work requests of the verbs library, with the fields that the program writes.
use flash_reduce_dev.Common.{ℕ}

pub record Sge : Type 0 where
  pub addr : ℕ
  pub length : ℕ
  pub lkey : ℕ

pub record RecvWr : Type 0 where
  pub wr_id : ℕ
  pub next : ℕ
  pub sg_list : ℕ
  pub num_sge : ℕ

-- `rdma_write` is 0.
pub data WrOpcode : Type 0 where
  rdma_write rdma_write_with_imm : WrOpcode

pub record SendWr : Type 0 where
  pub wr_id : ℕ
  pub next : ℕ
  pub sg_list : ℕ
  pub num_sge : ℕ
  pub opcode : WrOpcode
  pub send_flags : ℕ
  pub imm_data : ℕ
  pub remote_addr : ℕ
  pub rkey : ℕ

-- Filled with zeros by `memset` or `calloc`.
abbrev pub zero_sge : Sge
zero_sge = record { addr = 0; length = 0; lkey = 0 }

abbrev pub zero_recv_wr : RecvWr
zero_recv_wr = record { wr_id = 0; next = 0; sg_list = 0; num_sge = 0 }

abbrev pub zero_send_wr : SendWr
zero_send_wr = record {
  wr_id = 0;
  next = 0;
  sg_list = 0;
  num_sge = 0;
  opcode = rdma_write;
  send_flags = 0;
  imm_data = 0;
  remote_addr = 0;
  rkey = 0;
}
