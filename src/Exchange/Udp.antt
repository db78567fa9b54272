-- ===== src/Exchange/Udp.antt =====
-- A UDP client and its server together with the result thread: one ping, from its sending to the line
-- of a report (src/udp_client.cpp and src/udp_server.cpp).
use pingweave.Base.{
  ℕ, ◌-◌, inl, inr, arith, ◌++◌, ◌/◌, ◌^◌, ◌<◌, ◌≤◌, ◌≡◌, refl, ap, subst, ◌∙◌, ◌≢◌, Bool, true,
  map, none, some, Option, [], ◌∷◌, success, ==_self, length, u64,
}
use Prim.Native.String.{String}
use pingweave.Base.Text.{Text}
use pingweave.Common.{Net, ip2uint, make_pingid, calc_time_delta_with_bitwrap, uint64_max}
use pingweave.Ini.{get_controller_info_from_ini}
use pingweave.Ipc.{ipc_buffer_size}
use pingweave.Ipc.Ring.{contents}
use pingweave.Common.Delta.{delta_bitwrap}
use pingweave.Messages.{TcpUdpResultMsg, result_success}
use pingweave.ReportText.{aggregate}
use pingweave.Results.{TcpUdpResultInfo, tcpudp_account, lookup, store, Collector}
use pingweave.Results.Tally.{rounds, quiet_round}
use pingweave.Results.Threads.{
  Start, report_interval_ms, producer_made, tcpudp_client_result_thread, tcpudp_report_line,
}
use pingweave.Results.Written.{written, report_written}
use pingweave.Table.{Store, Entry, find, remove}
use pingweave.Table
use pingweave.Table.Linked.{IsValid}
use pingweave.Table.Expire.{find-insert, live, Inserted}
use pingweave.TcpUdpPinginfoMap.{TcpUdpPinginfo, answered, evict, insert, update_pong_info}
use pingweave.Udp.{msg_size, got, ping_message, server_round}
use pingweave.Udp.Client.{UdpClient, Round, append_sent, send_one, rx_round}
use pingweave.Udp.Echo.{agains, echo}

module _ {Q : Type 0} (try_enqueue : Q → TcpUdpResultMsg → Q × Bool) (net : Net) where
  -- The entry of a ping whose identity is free.
  insert-registers :
      (id : ℕ) (dstip : String) (now steady system : ℕ) {last : ℕ} (s : Store TcpUdpPinginfo Q)
      → IsValid last s.table
      → find id (live s.table.threshold_ms now s.table.map) ≡ none
      → find id (insert try_enqueue net id id dstip now steady system s).0.table.map
        ≡ some (record {
          value = record {
            pingid = id;
            dstip = dstip;
            time_ping_send = system;
            network_delay = u64 steady;
          };
          timestamp = steady;
          list_iter = s.table.next_iter;
        })
  unfolding insert
  insert-registers id dstip now steady system s v h =
      let v0 : TcpUdpPinginfo = record {
        pingid = id;
        dstip = dstip;
        time_ping_send = system;
        network_delay = u64 steady;
      } in
      let (_q, r) = find-insert (evict try_enqueue net) id id v0 now steady s v in
      let m = live s.table.threshold_ms now s.table.map in
      let e : Entry TcpUdpPinginfo = record {
        value = v0;
        timestamp = steady;
        list_iter = s.table.next_iter;
      } in
      let ins = Table.insert (evict try_enqueue net) id v0 now steady s in
      let new = subst (λ o. Inserted o m id id e ins.1 ins.0.table.map) h r in
      new.1 ∙ rw (==_self id) refl

-- What one answered ping, sent at that system time, leaves of a destination.
abbrev pub one_success : ℕ → ℕ → TcpUdpResultInfo
one_success sent_ns delay = record {
  n_success = 1;
  n_failure = 0;
  n_weird = 0;
  ts_start = sent_ns;
  ts_end = sent_ns;
  network_delays = delay ∷ [];
}

rounds_one :
    (pingid dst sent_ns delay t last interval : ℕ)
    → (t - last) / 10 ^ 6 < interval
    → (rounds
        ((
          record {
            pingid = pingid;
            dstip = dst;
            time_ping_send = sent_ns;
            network_delay = delay;
            result = result_success;
          },
          t,
        )
          ∷ [])
        (record {
          dstip2result = [];
          last_report_time = last;
          report_interval_ms = interval;
        })).dstip2result
      ≡ (dst, one_success sent_ns delay) ∷ []
unfolding rounds tcpudp_account lookup store
rounds_one pingid dst sent_ns delay t last interval h =
    let c : Collector TcpUdpResultInfo = record {
      dstip2result = [];
      last_report_time = last;
      report_interval_ms = interval;
    } in
    let m : TcpUdpResultMsg = record {
      pingid = pingid;
      dstip = dst;
      time_ping_send = sent_ns;
      network_delay = delay;
      result = result_success;
    } in
    ap (λ c. c.dstip2result) (quiet_round m t c h)

-- The times of a ping that is answered within the range of the clock.
delay_between :
    (t1 t2 : ℕ)
    → t1 ≤ t2
    → t2 < 2 ^ 64
    → calc_time_delta_with_bitwrap (u64 t1) t2 uint64_max ≡ t2 - t1
delay_between t1 t2 h k =
    let (small, reached) =
      delta_bitwrap (u64 t1) t2 uint64_max (omega arith) (omega arith) (omega arith) in
    elim reached [ inl e ↦ omega arith | inr e ↦ omega arith ]

module _ {Q : Type 0} (try_enqueue : Q → TcpUdpResultMsg → Q × Bool) (net : Net)
    (local_time : ℕ → Text) (uint2ip : ℕ → Text) (ipv4 client server : String) (ipv4_text : Text)
    (server_addr client_addr poll i j recv_time : ℕ) (sent' : Option ℕ) (r : Round)
    (c : UdpClient Q) (b : Start) (t late : ℕ) where
  abbrev pub id : ℕ
  id = make_pingid (ip2uint net ipv4) c.ping_uid

  abbrev pub pinged : UdpClient Q
  pinged = send_one try_enqueue net ipv4 r server c

  abbrev pub answered_client : UdpClient Q
  answered_client =
      rx_round try_enqueue net ipv4 poll
        (agains j (got msg_size (ping_message id) (some server) ∷ [])) recv_time pinged

  abbrev pub result : TcpUdpResultMsg
  result = record {
    pingid = id;
    dstip = ip2uint net server;
    time_ping_send = r.system_ns;
    network_delay = recv_time - r.steady_now;
    result = result_success;
  }

  abbrev pub line : Text
  line =
      tcpudp_report_line local_time uint2ip ipv4_text
        (ip2uint net server, one_success r.system_ns (recv_time - r.steady_now))

  -- A UDP ping whose identity is free and not zero, if it is echoed and received, at a time not before
  -- its sending on the steady clock and below 2^64: the client gives its message to the socket for the
  -- server's address and port 33336, the server sends it back to the address that it came from and port
  -- 33335, and the client takes the ping off its table and offers one result, a success with its
  -- identity, the server's address, its system time, and the time from the sending to the reception. A
  -- result thread that starts, and until its first report is due takes this result and no other, leaves
  -- exactly one line in the ring, cut as `strncpy` cuts it: that of the destination with one success,
  -- and that time as its only delay.
  pub udp_ping_reported :
      {last : ℕ}
      → IsValid last c.store.table
      → find id (live c.store.table.threshold_ms r.now c.store.table.map) ≡ none
      → id ≢ 0
      → 0 < poll
      → r.steady_now ≤ recv_time
      → recv_time < 2 ^ 64
      → net.inet_pton server ≡ some server_addr
      → net.inet_pton client ≡ some client_addr
      → (get_controller_info_from_ini b.controller_file b.controller_before).1 ≡ success
      → producer_made b ≡ true
      → length b.memory.messages ≡ ipc_buffer_size
      → (t - b.now) / 10 ^ 6 < report_interval_ms b.interval_file
      → report_interval_ms b.interval_file ≤ (late - b.now) / 10 ^ 6
      → let o =
          tcpudp_client_result_thread local_time uint2ip ipv4_text b
            ((some result, t) ∷ (none, late) ∷ []) in
        (pinged.wire ≡ c.wire ++ ((server_addr, 33336, ping_message id) ∷ []))
        × (server_round net.inet_pton poll
              (agains i (got msg_size (ping_message id) (some client) ∷ []))
              sent'
            ≡ some (client_addr, 33335, ping_message id))
        × (answered_client.store ≡ record {
          table = (remove id pinged.store.table).0;
          queue = (try_enqueue pinged.store.queue result).0;
        })
        × (contents o.state.producer.shared ≡ written (aggregate (line ∷ [])))
  unfolding update_pong_info rx_round answered
  udp_ping_reported v free nonzero polls after range to_server to_client host made slots quiet due =
      let (wire, back, closed) =
        echo try_enqueue net net.inet_pton server client server_addr client_addr id poll i j
          recv_time r.sent sent' pinged.store polls nonzero to_server to_client in
      let there =
        insert-registers try_enqueue net id server r.now r.steady_now r.system_ns c.store v free in
      let (_running, ring, _cleared, _one, _held) =
        report_written local_time uint2ip ipv4_text b ((result, t) ∷ []) late host made slots
          (quiet, tt) due in
      (
        ap (append_sent c.wire) wire,
        back,
        closed
            ∙ rw (update_pong_info, there) refl
            ∙ ap
                (λ d. (record {
                  table = (remove id pinged.store.table).0;
                  queue = (try_enqueue pinged.store.queue (record result { network_delay = d })).0;
                }))
                (delay_between r.steady_now recv_time after range),
        ring
            ∙ ap
                (λ l. written (aggregate (map (tcpudp_report_line local_time uint2ip ipv4_text) l)))
                (rounds_one id (ip2uint net server) r.system_ns (recv_time - r.steady_now) t b.now
                  (report_interval_ms b.interval_file) quiet),
      )
