-- ===== src/Tcp.antt =====
-- TCP sockets, client and server: `make_ctx`, `send_tcp_message` and `receive_tcp_message` of
-- src/tcpudp_common.cpp for TCP, a round of `tcp_client_tx_thread` of src/tcp_client.cpp. What the
-- system calls answer is an input. Each message is sent by a thread of its own, whose calls of the
-- table are locked: threads interleave between them.
pub mod Sockets
pub mod Sending
pub mod Threads
pub mod Identities
mod Tests
use pingweave.Base.{
  ℕ, zero, suc, ◌+◌, ◌-◌, ◌*◌, ◌/◌, ◌%◌, ◌^◌, ◌≤◌, ◌<◌, bit_or, bit_and, ◌≡◌, refl, sym, ap, ap₂,
  subst, ◌∙◌, ◌≢◌, ◌↔◌, ◌⊎◌, inl, inr, ite, if_pos, if_neg, Bool, true, false, not, ◌&&◌, ◌||◌,
  Option, none, some, List, [], ◌∷◌, ◌++◌, map, foldl, filter, Mem, Nodup, Perm, arith, dec_lt,
  dec_le, ℕ_discrete, u64, u32, success, failure, ltb, leb, ◌==◌, if◌then◌else◌, ltb→lt, lt→ltb,
  leb→le, ==_iff, ==_self, Bool-cases, Option-cases, length, get_elem?, get_or, set, All,
  length-append, length-set, get_or-set_self, get_or-set_ne,
}
use Prim.Native.String.{String}
use pingweave.Common.{Net}
use pingweave.Messages.{TcpUdpResultMsg}
use pingweave.Table.{Store}
use pingweave.TcpUdpPinginfoMap.{TcpUdpPinginfo, insert, update_pong_info}

-- The numbers of the socket options, of <asm-generic/socket.h>.
abbrev pub so_reuseaddr : ℕ
so_reuseaddr = 2

abbrev pub so_linger : ℕ
so_linger = 13

abbrev pub so_reuseport : ℕ
so_reuseport = 15

abbrev pub so_rcvtimeo : ℕ
so_rcvtimeo = 20

abbrev pub so_sndtimeo : ℕ
so_sndtimeo = 21

-- `bound` is the address and port that `bind` was given; for port 0 the system chooses one.
pub record TcpContext : Type 0 where
  pub is_server : Bool
  pub sock : Bool
  pub options : List ℕ
  pub bound : Option (ℕ × ℕ)
  pub listening : Bool

-- The outcomes of the system calls on a new socket.
pub record SocketCalls : Type 0 where
  pub socket_ok : Bool
  pub setsockopt_ok : ℕ → Bool
  pub bind_ok : Bool
  pub getsockname_ok : Bool
  pub listen_ok : Bool

abbrev pub and_then : TcpContext × Bool → (TcpContext → TcpContext × Bool) → TcpContext × Bool
and_then (ctx, done) next = if done then next ctx else (ctx, failure)

abbrev pub set_option : SocketCalls → ℕ → TcpContext → TcpContext × Bool
set_option calls name ctx =
    if calls.setsockopt_ok name
    then (record ctx { options = ctx.options ++ (name ∷ []) }, success)
    else (ctx, failure)

abbrev pub set_options : SocketCalls → TcpContext → TcpContext × Bool
set_options calls ctx =
    if ctx.is_server
    then set_option calls (bit_or so_reuseaddr so_reuseport) ctx
    else and_then (set_option calls (bit_or so_rcvtimeo so_sndtimeo) ctx)
        (set_option calls so_linger)

abbrev pub bind_to : SocketCalls → Option ℕ → ℕ → TcpContext → TcpContext × Bool
bind_to calls none port ctx = (ctx, failure)
bind_to calls (some address) port ctx =
    if calls.bind_ok then (record ctx { bound = some (address, port) }, success) else (ctx, failure)

abbrev pub listen_if_server : SocketCalls → TcpContext → TcpContext × Bool
listen_if_server calls ctx =
    if not ctx.is_server
    then (ctx, success)
    else (if calls.getsockname_ok && calls.listen_ok
        then (record ctx { listening = true }, success)
        else (ctx, failure))

pub make_ctx : Net → SocketCalls → String → ℕ → TcpContext → TcpContext × Bool
make_ctx net calls ipv4 port ctx =
    if calls.socket_ok
    then and_then (set_options calls (record ctx { sock = true }))
        (λ c. and_then (bind_to calls (net.inet_pton ipv4) port c) (listen_if_server calls))
    else (ctx, failure)

-- What a message's thread meets: its socket, `connect` and the final `getsockname`, and the clocks
-- that the table and the thread read.
pub record Attempt : Type 0 where
  pub calls : SocketCalls
  pub connect_ok : Bool
  pub local_ok : Bool
  pub now : ℕ
  pub steady_now : ℕ
  pub system_ns : ℕ
  pub recv_time : ℕ

abbrev pub fresh_client : TcpContext
fresh_client = record {
  is_server = false;
  sock = false;
  options = [];
  bound = none;
  listening = false;
}

module _ {Q : Type 0} (try_enqueue : Q → TcpUdpResultMsg → Q × Bool) (net : Net) where
  -- From `insert` on, with the address of the destination. The result has the address and port that
  -- `connect` is called with. A failure of `insert` or of `update_pong_info` is only logged.
  abbrev pub send_to :
      Attempt
      → Option ℕ
      → String
      → ℕ
      → ℕ
      → Store TcpUdpPinginfo Q
      → Store TcpUdpPinginfo Q × Option (ℕ × ℕ) × Bool
  send_to a none dst_ip dst_port pingid s = (s, none, failure)
  send_to a (some address) dst_ip dst_port pingid s =
      let to = some (address, dst_port) in
      let s1 = (insert try_enqueue net pingid pingid dst_ip a.now a.steady_now a.system_ns s).0 in
      if not a.connect_ok
      then (s1, to, failure)
      else (let s2 = (update_pong_info try_enqueue net pingid a.recv_time s1).0 in
          if not a.local_ok then (s2, to, failure) else (s2, to, success))

  pub send_tcp_message :
      Attempt
      → String
      → String
      → ℕ
      → ℕ
      → Store TcpUdpPinginfo Q
      → Store TcpUdpPinginfo Q × Option (ℕ × ℕ) × Bool
  send_tcp_message a src_ip dst_ip dst_port pingid s =
      if not (make_ctx net a.calls src_ip 0 fresh_client).1
      then (s, none, failure)
      else send_to a (net.inet_pton dst_ip) dst_ip dst_port pingid s

-- The server accepts a connection, which a thread closes; `none` is a failure of `accept`. The result
-- says whether a socket was closed.
pub receive_tcp_message : Option ℕ → Bool
receive_tcp_message none = failure
receive_tcp_message (some sockfd) = success
