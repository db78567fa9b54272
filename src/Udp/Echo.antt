-- ===== src/Udp/Echo.antt =====
-- What is accepted, and a PING on its way to the server and back.
use pingweave.Base.{
  ℕ, zero, suc, ◌<◌, ◌≡◌, refl, ◌≢◌, Bool, false, not, ◌&&◌, Option, some, List, [], ◌∷◌, arith,
  ◌==◌, leb, none, if◌then◌else◌, lt→ltb,
}
use Prim.Native.String.{String}
use pingweave.Common.{Net}
use pingweave.Messages.{TcpUdpResultMsg}
use pingweave.Table.{Store}
use pingweave.TcpUdpPinginfoMap.{TcpUdpPinginfo, update_pong_info}
use pingweave.Udp.{
  udp_port_client, udp_port_server, Answer, TcpUdpPingMsg, msg_size, Recv, again, got, refused,
  received, check_message, poll_message, receive_udp_message, ping_message, send_udp_message,
  server_round, client_round,
}

-- So many answers without a message.
abbrev pub agains : ℕ → List Recv → List Recv
agains zero rs = rs
agains (suc n) rs = again ∷ agains n rs

poll_again : (n : ℕ) (rs : List Recv) → poll_message (agains n rs) ≡ poll_message rs
unfolding poll_message
poll_again zero rs = refl
poll_again (suc n) rs = poll_again n rs

abbrev pub accepted : ℕ → Option String → Answer
accepted id none = refused
accepted id (some from) = received id from

-- After any number of empty polls, a datagram is accepted exactly if it has at least the 24 bytes of
-- a message (what follows them is cut off), a zero prefix and pad, an identity other than zero, and a
-- sender whose address could be written as text; the answer is then its identity and that text, and a
-- refusal otherwise.
pub receive_lem :
    (poll_interval_us n len : ℕ) (m : TcpUdpPingMsg) (sender : Option String) (rs : List Recv)
    → 0 < poll_interval_us
    → receive_udp_message poll_interval_us (agains n (got len m sender ∷ rs)) ≡ (
        if leb 24 len && (m.prefix == 0) && (m.pad == 0) && not (m.pingid == 0)
        then accepted m.pingid sender
        else refused)
unfolding receive_udp_message check_message poll_message
receive_lem poll_interval_us n len m none rs h =
    rw (lt→ltb 0 poll_interval_us h, poll_again n (got len m none ∷ rs)) (ground arith)
receive_lem poll_interval_us n len m (some from) rs h =
    rw (lt→ltb 0 poll_interval_us h, poll_again n (got len m (some from) ∷ rs)) (ground arith)

-- The message that a client sends for a ping, once it reaches the server whole, is sent back
-- as it is to the address that it came from; and once that reaches the client whole, the
-- client closes the ping with this identity at the time of the reception, however often either
-- had to poll.
pub echo :
    {Q : Type 0} (try_enqueue : Q → TcpUdpResultMsg → Q × Bool) (net : Net)
    (inet_pton : String → Option ℕ) (server client : String) (server_addr client_addr : ℕ)
    (id poll i j recv_time : ℕ) (sent sent' : Option ℕ) (s : Store TcpUdpPinginfo Q)
    → 0 < poll
    → id ≢ 0
    → inet_pton server ≡ some server_addr
    → inet_pton client ≡ some client_addr
    → let ping = ping_message id in
      ((send_udp_message inet_pton server udp_port_server id sent).0
        ≡ some (server_addr, udp_port_server, ping))
      × (server_round inet_pton poll (agains i (got msg_size ping (some client) ∷ [])) sent'
          ≡ some (client_addr, udp_port_client, ping))
      × (client_round try_enqueue net poll
            (agains j (got msg_size ping (some server) ∷ []))
            recv_time
            s
          ≡ (update_pong_info try_enqueue net id recv_time s).0)
unfolding send_udp_message server_round client_round
echo try_enqueue net inet_pton server client server_addr client_addr id poll i j recv_time sent
      sent' s h nz a b =
    let ping = ping_message id in
    let fine : (id == 0) ≡ false = ground arith in
    let at_server = receive_lem poll i msg_size ping (some client) [] h in
    let at_client = receive_lem poll j msg_size ping (some server) [] h in
    (
      rw (send_udp_message, a) refl,
      rw (server_round, at_server, fine, send_udp_message, b) refl,
      rw (client_round, at_client, fine) refl,
    )
