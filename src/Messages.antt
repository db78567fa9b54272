-- ===== src/Messages.antt =====
-- The messages and codes of src/format.hpp. A 16-byte GID is the list of its bytes.
use pingweave.Base.{ℕ, ◌*◌, List}
use pingweave.Base.Int.{ℤ, pos, negsuc}

pub record RdmaPingMsg : Type 0 where
  pub pingid : ℕ
  pub qpn : ℕ
  pub gid : List ℕ
  pub lid : ℕ
  pub time : ℕ

pub record RdmaPongMsg : Type 0 where
  pub opcode : ℕ
  pub pingid : ℕ
  pub server_delay : ℕ

pub record RdmaAddr : Type 0 where
  pub qpn : ℕ
  pub gid : List ℕ
  pub lid : ℕ

pub record RdmaResultMsg : Type 0 where
  pub pingid : ℕ
  pub dstip : ℕ
  pub time_ping_send : ℕ
  pub client_delay : ℕ
  pub network_delay : ℕ
  pub server_delay : ℕ
  pub result : ℤ

pub record TcpUdpResultMsg : Type 0 where
  pub pingid : ℕ
  pub dstip : ℕ
  pub time_ping_send : ℕ
  pub network_delay : ℕ
  pub result : ℤ

-- The enumeration of results, opcodes and the reserved work request.
abbrev pub result_weird : ℤ
result_weird = negsuc 1

abbrev pub result_failure : ℤ
result_failure = negsuc 0

abbrev pub result_success : ℤ
result_success = pos 0

abbrev pub opcode_pong : ℕ
opcode_pong = 1

abbrev pub opcode_ack : ℕ
opcode_ack = 2

abbrev pub num_buffer : ℕ
num_buffer = 256

abbrev pub wrid_pong_ack : ℕ
wrid_pong_ack = num_buffer * 4
