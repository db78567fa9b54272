-- ===== src/Udp/Client.antt =====
-- The sending and the receiving thread of src/udp_client.cpp, `udp_client_tx_thread` and
-- `udp_client_rx_thread`, on one table: a round of either is a step, and the steps come in any order.
pub mod Threads
pub mod Bodies
use pingweave.Base.{
  ℕ, zero, suc, ◌+◌, ◌-◌, ◌*◌, ◌/◌, ◌%◌, ◌^◌, ◌≤◌, ◌<◌, bit_or, bit_and, ◌≡◌, refl, sym, ap, ap₂,
  subst, ◌∙◌, ◌≢◌, ◌↔◌, ◌⊎◌, inl, inr, ite, if_pos, if_neg, Bool, true, false, not, ◌&&◌, ◌||◌,
  Option, none, some, List, [], ◌∷◌, ◌++◌, map, foldl, filter, Mem, Nodup, Perm, arith, dec_lt,
  dec_le, ℕ_discrete, u64, u32, success, failure, ltb, leb, ◌==◌, if◌then◌else◌, ltb→lt, lt→ltb,
  leb→le, ==_iff, ==_self, Bool-cases, Option-cases, length, get_elem?, get_or, set, All,
  length-append, length-set, get_or-set_self, get_or-set_ne,
}
use Prim.Native.String.{String}
use pingweave.Common.{Net, ip2uint, make_pingid}
use pingweave.Messages.{TcpUdpResultMsg}
use pingweave.Table.{Store}
use pingweave.TcpUdpPinginfoMap.{TcpUdpPinginfo, insert}
use pingweave.Scheduler.{Scheduler, next}
use pingweave.Udp.{TcpUdpPingMsg, Recv, udp_port_server, send_udp_message, client_round}

-- `wire` is what was given to the socket.
pub record UdpClient (Q : Type 0) : Type 0 where
  pub scheduler : Scheduler String
  pub ping_uid : ℕ
  pub store : Store TcpUdpPinginfo Q
  pub wire : List (ℕ × ℕ × TcpUdpPingMsg)

-- The clocks that a round reads, and what `sendto` returns.
pub record Round : Type 0 where
  pub load_now : ℕ
  pub ping_now : ℕ
  pub now : ℕ
  pub steady_now : ℕ
  pub system_ns : ℕ
  pub sent : Option ℕ

abbrev pub append_sent :
    List (ℕ × ℕ × TcpUdpPingMsg) → Option (ℕ × ℕ × TcpUdpPingMsg) → List (ℕ × ℕ × TcpUdpPingMsg)
append_sent wire none = wire
append_sent wire (some m) = wire ++ (m ∷ [])

module _ {Q : Type 0} (try_enqueue : Q → TcpUdpResultMsg → Q × Bool) (net : Net)
    (ipv4 : String) where
  -- A ping to the address that the scheduler named. Failures of `insert` and of the send are only
  -- logged.
  abbrev pub send_one : Round → String → UdpClient Q → UdpClient Q
  send_one r dst_addr c =
      let pingid = make_pingid (ip2uint net ipv4) c.ping_uid in
      record c {
        ping_uid = u32 (c.ping_uid + 1);
        store =
            (insert try_enqueue net pingid pingid dst_addr r.now r.steady_now r.system_ns
              c.store).0;
        wire =
            append_sent c.wire
              (send_udp_message net.inet_pton dst_addr udp_port_server pingid r.sent).0;
      }

  abbrev pub after_next : Round → UdpClient Q → Scheduler String × Option String × ℕ → UdpClient Q
  after_next r c (scheduler, none, time_sleep_us) = record c { scheduler = scheduler }
  after_next r c (scheduler, some dst_addr, time_sleep_us) =
      send_one r dst_addr (record c { scheduler = scheduler })

  unfoldable pub tx_round :
      (Scheduler String → Scheduler String) → ℕ → Round → UdpClient Q → UdpClient Q
  tx_round load idle_us r c = after_next r c (next load idle_us r.load_now r.ping_now c.scheduler)

  unfoldable pub rx_round : ℕ → List Recv → ℕ → UdpClient Q → UdpClient Q
  rx_round poll_interval_us rs recv_time c = record c {
    store = client_round try_enqueue net poll_interval_us rs recv_time c.store;
  }
