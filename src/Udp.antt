-- ===== src/Udp.antt =====
-- The UDP messages of src/tcpudp_common.cpp, the echo loop of src/udp_server.cpp and the receiving
-- round of src/udp_client.cpp. What the socket and the address functions of the C library answer
-- is an input.
pub mod Echo
pub mod Sockets
pub mod Client
mod Tests
use pingweave.Base.{
  ℕ, zero, suc, ◌+◌, ◌-◌, ◌*◌, ◌/◌, ◌%◌, ◌^◌, ◌≤◌, ◌<◌, bit_or, bit_and, ◌≡◌, refl, sym, ap, ap₂,
  subst, ◌∙◌, ◌≢◌, ◌↔◌, ◌⊎◌, inl, inr, ite, if_pos, if_neg, Bool, true, false, not, ◌&&◌, ◌||◌,
  Option, none, some, List, [], ◌∷◌, ◌++◌, map, foldl, filter, Mem, Nodup, Perm, arith, dec_lt,
  dec_le, ℕ_discrete, u64, u32, success, failure, ltb, leb, ◌==◌, if◌then◌else◌, ltb→lt, lt→ltb,
  leb→le, ==_iff, ==_self, Bool-cases, Option-cases, length, get_elem?, get_or, set, All,
  length-append, length-set, get_or-set_self, get_or-set_ne,
}
use Prim.Native.String.{String}
use pingweave.Common.{Net}
use pingweave.Messages.{TcpUdpResultMsg}
use pingweave.Table.{Store}
use pingweave.TcpUdpPinginfoMap.{TcpUdpPinginfo, update_pong_info}

pub record TcpUdpPingMsg : Type 0 where
  pub prefix : ℕ
  pub pingid : ℕ
  pub pad : ℕ

-- `sizeof(tcpudp_pingmsg_t)`: the members are aligned, and `raw` is the smaller one.
abbrev pub msg_size : ℕ
msg_size = 24

-- `PINGWEAVE_UDP_PORT_CLIENT` and `PINGWEAVE_UDP_PORT_SERVER` of src/macro.hpp.
abbrev pub udp_port_client : ℕ
udp_port_client = 33335

abbrev pub udp_port_server : ℕ
udp_port_server = 33336

-- What `recvfrom` meets: no message yet, another error, or a datagram of so many bytes, what its
-- first `msg_size` bytes say as a message, and the sender's address as text, which may fail.
pub data Recv : Type 0 where
  again : Recv
  failed : Recv
  got : ℕ → TcpUdpPingMsg → Option String → Recv

-- The answer of `receive_udp_message`: a failure, or the identity and the sender; or it waits on.
pub data Answer : Type 0 where
  waiting : Answer
  refused : Answer
  received : ℕ → String → Answer

-- What follows the reception. The buffer has `msg_size` bytes, so `recvfrom` cuts a longer datagram
-- and returns that size.
unfoldable pub check_message : ℕ → TcpUdpPingMsg → Option String → Answer
check_message len m sender =
    if not ((if ltb msg_size len then msg_size else len) == msg_size)
    then refused
    else (if not (m.prefix == 0) || not (m.pad == 0)
        then refused
        else (if m.pingid == 0
            then refused
            else elim sender [ none ↦ refused | some from ↦ received m.pingid from ]))

-- With a polling interval: `EAGAIN` is tried again.
unfoldable pub poll_message : List Recv → Answer
poll_message [] = waiting
poll_message (again ∷ rs) = poll_message rs
poll_message (failed ∷ rs) = refused
poll_message (got len m sender ∷ rs) = check_message len m sender

unfoldable pub block_message : List Recv → Answer
block_message [] = waiting
block_message (again ∷ rs) = refused
block_message (failed ∷ rs) = refused
block_message (got len m sender ∷ rs) = check_message len m sender

unfoldable pub receive_udp_message : ℕ → List Recv → Answer
receive_udp_message poll_interval_us rs =
    if ltb 0 poll_interval_us then poll_message rs else block_message rs

abbrev pub ping_message : ℕ → TcpUdpPingMsg
ping_message id = record { prefix = 0; pingid = id; pad = 0 }

-- The address, the port and the message that go to the socket (none where the host's text is no
-- address), and whether the call succeeds: `sent` is what `sendto` returns, `none` a negative number.
unfoldable pub send_udp_message :
    (String → Option ℕ) → String → ℕ → ℕ → Option ℕ → Option (ℕ × ℕ × TcpUdpPingMsg) × Bool
send_udp_message inet_pton dst_ip dst_port pingid sent = elim (inet_pton dst_ip) [
  | none ↦ (none, failure)
  | some addr ↦ (
    some (addr, dst_port, ping_message pingid),
    elim sent [ none ↦ failure | some n ↦ n == msg_size ],
  )
]

-- One round of the server's loop: what it sends.
unfoldable pub server_round :
    (String → Option ℕ) → ℕ → List Recv → Option ℕ → Option (ℕ × ℕ × TcpUdpPingMsg)
server_round inet_pton poll_interval_us rs sent = elim (receive_udp_message poll_interval_us rs) [
  | received id from ↦ (send_udp_message inet_pton from udp_port_client id sent).0
  | _ ↦ none
]

-- One round of the client's receiving thread, at the time of the reception.
unfoldable pub client_round :
    {Q : Type 0}
    → (Q → TcpUdpResultMsg → Q × Bool)
    → Net
    → ℕ
    → List Recv
    → ℕ
    → Store TcpUdpPinginfo Q
    → Store TcpUdpPinginfo Q
client_round try_enqueue net poll_interval_us rs recv_time s =
    elim (receive_udp_message poll_interval_us rs) [
      | received id from ↦ (update_pong_info try_enqueue net id recv_time s).0
      | _ ↦ s
    ]
