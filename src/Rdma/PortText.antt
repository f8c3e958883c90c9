-- ===== src/Rdma/PortText.antt =====
-- `print_port_attributes` of csrc/rdma_utils.cc.
use Prim.Native.String.{String}
use flash_reduce_dev.Common.{ℕ, Option, none, some, List, [], ◌∷◌}
use flash_reduce_dev.Rdma.Device.{PortState, port_state_to_string, Mtu, mtu_to_string}

-- What the function reads of `ibv_port_attr`.
pub record PortAttr : Type 0 where
  pub state : PortState
  pub max_mtu : Mtu
  pub active_mtu : Mtu
  pub gid_tbl_len : ℕ
  pub port_cap_flags : ℕ
  pub max_msg_sz : ℕ
  pub bad_pkey_cntr : ℕ
  pub qkey_viol_cntr : ℕ
  pub pkey_tbl_len : ℕ
  pub lid : ℕ
  pub sm_lid : ℕ
  pub lmc : ℕ
  pub max_vl_num : ℕ
  pub sm_sl : ℕ
  pub subnet_timeout : ℕ
  pub init_type_reply : ℕ
  pub active_width : ℕ
  pub active_speed : ℕ
  pub phys_state : ℕ
  pub link_layer : ℕ
  pub flags : ℕ
  pub port_cap_flags2 : ℕ

-- A line of the log, by its severity.
pub data LogLine : Type 0 where
  info : List String → LogLine
  error : List String → LogLine

-- What the function logs. `dec` and `hex` are the stream's two ways to print a number; the text is
-- the list of what goes into the stream.
unfoldable pub print_port_attributes : (dec hex : ℕ → String) → Option PortAttr → LogLine
print_port_attributes dec hex none = LogLine.error ("Null ibv_port_attr pointer" ∷ [])
print_port_attributes dec hex (some attr) = LogLine.info (
    "===== IBV Port Attributes =====\n"
    ∷ "State: "
    ∷ port_state_to_string attr.state
    ∷ "\n"
    ∷ "Max MTU: "
    ∷ mtu_to_string attr.max_mtu
    ∷ "\n"
    ∷ "Active MTU: "
    ∷ mtu_to_string attr.active_mtu
    ∷ "\n"
    ∷ "GID Table Length: "
    ∷ dec attr.gid_tbl_len
    ∷ "\n"
    ∷ "Port Capability Flags: 0x"
    ∷ hex attr.port_cap_flags
    ∷ "\n"
    ∷ "Max Message Size: "
    ∷ dec attr.max_msg_sz
    ∷ "\n"
    ∷ "Bad PKey Counter: "
    ∷ dec attr.bad_pkey_cntr
    ∷ "\n"
    ∷ "QKey Violation Counter: "
    ∷ dec attr.qkey_viol_cntr
    ∷ "\n"
    ∷ "PKey Table Length: "
    ∷ dec attr.pkey_tbl_len
    ∷ "\n"
    ∷ "LID: 0x"
    ∷ hex attr.lid
    ∷ "\n"
    ∷ "SM LID: 0x"
    ∷ hex attr.sm_lid
    ∷ "\n"
    ∷ "LMC: 0x"
    ∷ hex attr.lmc
    ∷ "\n"
    ∷ "Max VL Number: "
    ∷ dec attr.max_vl_num
    ∷ "\n"
    ∷ "SM SL: "
    ∷ dec attr.sm_sl
    ∷ "\n"
    ∷ "Subnet Timeout: "
    ∷ dec attr.subnet_timeout
    ∷ "\n"
    ∷ "Init Type Reply: 0x"
    ∷ hex attr.init_type_reply
    ∷ "\n"
    ∷ "Active Width: "
    ∷ dec attr.active_width
    ∷ "\n"
    ∷ "Active Speed: "
    ∷ dec attr.active_speed
    ∷ "\n"
    ∷ "Physical State: "
    ∷ dec attr.phys_state
    ∷ "\n"
    ∷ "Link Layer: "
    ∷ dec attr.link_layer
    ∷ "\n"
    ∷ "Flags: 0x"
    ∷ hex attr.flags
    ∷ "\n"
    ∷ "Port Capability Flags 2: 0x"
    ∷ hex attr.port_cap_flags2
    ∷ "\n"
    ∷ "==============================="
    ∷ [])
