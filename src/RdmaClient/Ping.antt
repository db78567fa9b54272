-- ===== src/RdmaClient/Ping.antt =====
-- A ping of the RDMA client from its sending to its report.
use pingweave.Base.{
  ℕ, ◌%◌, ◌≡◌, refl, ap, subst, ◌∙◌, ◌≢◌, Bool, true, false, not, ◌&&◌, none, some, [], ◌∷◌, arith,
  ==_self, length,
}
use Prim.Native.String.{String}
use pingweave.Common.{Net, ip2uint, make_pingid}
use pingweave.Messages.{RdmaPingMsg, RdmaPongMsg, RdmaAddr, RdmaResultMsg, opcode_pong, opcode_ack}
use pingweave.Table.{Store, Entry, find, insert}
use pingweave.Table.Linked.{IsValid}
use pingweave.Table.Expire.{find-insert, live, Inserted}
use pingweave.RdmaContext.Handles.{post_send-keeps}
use pingweave.RdmaContext.{Verbs, post_send}
use pingweave.RdmaPinginfoMap
use pingweave.RdmaPinginfoMap.{
  RdmaPinginfo, initial, completed, update_ping_cqe_time, update_pong_info, update_ack_info,
}
use pingweave.RdmaPinginfoMap.Updates.{without}
use pingweave.RdmaPinginfoMap.Report.{IsReport}
use pingweave.RdmaPinginfoMap.Events.{
  complete_with, complete_with-IsReport, in_order_completed, cpa,
}
use pingweave.RdmaServer.{Completion, send}
use pingweave.RdmaClient.{
  Client, Clocks, handle_received_message, client_process_tx_cqe, send_ping, tx_loop, tx_send,
}

module _ {Nic Q : Type 0} (verbs : Verbs Nic RdmaPingMsg)
    (try_enqueue : Q → RdmaResultMsg → Q × Bool) (net : Net) where
  -- The message of the next ping.
  abbrev pub next_msg : String → RdmaAddr → Client Nic Q → RdmaPingMsg
  next_msg ipv4 rx_addr s = record {
    pingid = make_pingid (ip2uint net ipv4) s.ping_uid;
    qpn = rx_addr.qpn;
    gid = rx_addr.gid;
    lid = rx_addr.lid;
    time = 0;
  }

  insert-registers :
      (key : ℕ) (msg : RdmaPingMsg) (dstip : String) (now steady system : ℕ) {last : ℕ}
      (s : Store RdmaPinginfo Q)
      → IsValid last s.table
      → find key (live s.table.threshold_ms now s.table.map) ≡ none
      → find key
          (RdmaPinginfoMap.insert try_enqueue net key msg dstip now steady system s).0.table.map
        ≡ some (record {
          value = initial msg dstip system steady;
          timestamp = steady;
          list_iter = s.table.next_iter;
        })
  unfolding RdmaPinginfoMap.insert
  insert-registers key msg dstip now steady system s v h =
      let v0 = initial msg dstip system steady in
      let (_q, r) = find-insert (RdmaPinginfoMap.evict try_enqueue net) key key v0 now steady s v in
      let m = live s.table.threshold_ms now s.table.map in
      let e : Entry RdmaPinginfo = record {
        value = v0;
        timestamp = steady;
        list_iter = s.table.next_iter;
      } in
      let ins = insert (RdmaPinginfoMap.evict try_enqueue net) key v0 now steady s in
      let new = subst (λ o. Inserted o m key key e ins.1 ins.0.table.map) h r in
      new.1 ∙ rw (==_self key) refl

  send_ping-registers :
      (ipv4 : String) (rx_addr : RdmaAddr) (dst_ip : String) (dst : RdmaAddr) (clocks : Clocks)
      {last : ℕ} (s : Client Nic Q)
      → let key = make_pingid (ip2uint net ipv4) s.ping_uid in
        IsValid last s.store.table
        → find key (live s.store.table.threshold_ms clocks.expiry s.store.table.map) ≡ none
        → s.tx.rnic_hw_ts ≡ true
        → find key
            (send_ping verbs try_enqueue net ipv4 rx_addr dst_ip dst clocks s).0.store.table.map
          ≡ some (record {
            value = initial (next_msg ipv4 rx_addr s) dst_ip clocks.system clocks.steady;
            timestamp = clocks.steady;
            list_iter = s.store.table.next_iter;
          })
  unfolding send_ping
  send_ping-registers ipv4 rx_addr dst_ip dst clocks s v h t =
      let key = make_pingid (ip2uint net ipv4) s.ping_uid in
      let sent =
        (post_send verbs s.tx dst (next_msg ipv4 rx_addr s) (key % length s.tx.buf) key).1 in
      let waits : (sent && not s.tx.rnic_hw_ts) ≡ false = ground (arith, t) in
      rw waits (
        insert-registers key (next_msg ipv4 rx_addr s) dst_ip clocks.expiry clocks.steady
          clocks.system s.store v h)

  tx_send_hw :
      (c : Completion) (s : Client Nic Q)
      → s.tx.rnic_hw_ts ≡ true
      → (tx_send verbs try_enqueue net c s).store
        ≡ (update_ping_cqe_time try_enqueue net c.wr_id c.time s.store).0
  unfolding tx_send
  tx_send_hw c s t = rw (tx_send, t) refl

  -- With hardware timestamps: a ping whose identity is free is sent; then its send completes, and then
  -- come the PONG and the ACK for it. The entry made by the sending is gone, and what it held at the end
  -- is reported.
  pub ping_completed :
      (ipv4 : String) (rx_addr : RdmaAddr) (dst_ip : String) (dst : RdmaAddr) (clocks : Clocks)
      (x recv_time cqe_time d : ℕ) (notified : Bool) {last : ℕ} (s : Client Nic Q)
      → IsValid last s.store.table
      → let msg = next_msg ipv4 rx_addr s in
        find msg.pingid (live s.store.table.threshold_ms clocks.expiry s.store.table.map) ≡ none
        → s.tx.rnic_hw_ts ≡ true
        → x ≢ 0
        → cqe_time ≢ 0
        → let s1 = (send_ping verbs try_enqueue net ipv4 rx_addr dst_ip dst clocks s).0 in
          let sent : Completion = record {
            status_ok = true;
            opcode = send;
            wr_id = msg.pingid;
            time = x;
          } in
          let s2 = (client_process_tx_cqe verbs try_enqueue net (some (sent ∷ [])) notified s1).0 in
          let pong : RdmaPongMsg = record {
            opcode = opcode_pong;
            pingid = msg.pingid;
            server_delay = 0;
          } in
          let ack : RdmaPongMsg = record {
            opcode = opcode_ack;
            pingid = msg.pingid;
            server_delay = d;
          } in
          handle_received_message try_enqueue net ack 0 0
            (handle_received_message try_enqueue net pong recv_time cqe_time s2.store)
          ≡ without msg.pingid s.store.table.next_iter (record (s1.store) {
            queue =
                (try_enqueue s1.store.queue (
                  completed net (
                    complete_with try_enqueue net x recv_time cqe_time d
                      (initial msg dst_ip clocks.system clocks.steady)))).0;
          })
  unfolding send_ping client_process_tx_cqe tx_loop tx_send handle_received_message
  ping_completed ipv4 rx_addr dst_ip dst clocks x recv_time cqe_time d notified s v h t nx nc =
      let msg = next_msg ipv4 rx_addr s in
      let s1 = (send_ping verbs try_enqueue net ipv4 rx_addr dst_ip dst clocks s).0 in
      let there = send_ping-registers ipv4 rx_addr dst_ip dst clocks s v h t in
      let all =
        in_order_completed try_enqueue net cpa msg.pingid x recv_time cqe_time d s1.store msg dst_ip
          clocks.system clocks.steady clocks.steady s.store.table.next_iter there refl nx nc in
      let hw : s1.tx.rnic_hw_ts ≡ true =
        post_send-keeps verbs s.tx dst msg (msg.pingid % length s.tx.buf) msg.pingid ∙ t in
      let sent : Completion = record {
        status_ok = true;
        opcode = send;
        wr_id = msg.pingid;
        time = x;
      } in
      ap
        (λ q.
          (update_ack_info try_enqueue net msg.pingid d
            (update_pong_info try_enqueue net msg.pingid recv_time cqe_time q).0).0)
        (tx_send_hw sent s1 hw)
      ∙ ap (λ r. r.0) all

  -- With hardware timestamps: a ping whose identity is free is sent; then its send completes, and
  -- then come the PONG and the ACK for it. The entry made by the sending is gone, and the queue was
  -- offered one report. It has the ping's identity, destination and time of sending, and the server's
  -- time of the ACK; as network delay, where the server's time is below the time from the completion
  -- of the send to that of the PONG, the difference of the two, as a success, and otherwise the latter
  -- time, marked as weird; and as client's time what is left of the time from the sending to the
  -- handling of the PONG. Times are differences modulo 2^32, and neither of the two completions' times
  -- reads zero.
  pub ping_reported :
      (ipv4 : String) (rx_addr : RdmaAddr) (dst_ip : String) (dst : RdmaAddr) (clocks : Clocks)
      (x recv_time cqe_time d : ℕ) (notified : Bool) {last : ℕ} (s : Client Nic Q)
      → IsValid last s.store.table
      → find
          (next_msg ipv4 rx_addr s).pingid
          (live s.store.table.threshold_ms clocks.expiry s.store.table.map)
        ≡ none
      → s.tx.rnic_hw_ts ≡ true
      → x ≢ 0
      → cqe_time ≢ 0
      → let msg = next_msg ipv4 rx_addr s in
        let s1 = (send_ping verbs try_enqueue net ipv4 rx_addr dst_ip dst clocks s).0 in
        let sent : Completion = record {
          status_ok = true;
          opcode = send;
          wr_id = msg.pingid;
          time = x;
        } in
        let s2 = (client_process_tx_cqe verbs try_enqueue net (some (sent ∷ [])) notified s1).0 in
        let pong : RdmaPongMsg = record {
          opcode = opcode_pong;
          pingid = msg.pingid;
          server_delay = 0;
        } in
        let ack : RdmaPongMsg = record {
          opcode = opcode_ack;
          pingid = msg.pingid;
          server_delay = d;
        } in
        (r : RdmaResultMsg) × IsReport net msg dst_ip clocks.system clocks.steady x recv_time
          cqe_time d r
        × (handle_received_message try_enqueue net ack 0 0
              (handle_received_message try_enqueue net pong recv_time cqe_time s2.store)
            ≡ without msg.pingid s.store.table.next_iter
                (record (s1.store) { queue = (try_enqueue s1.store.queue r).0 }))
  ping_reported ipv4 rx_addr dst_ip dst clocks x recv_time cqe_time d notified s v h t nx nc = (
    _,
    complete_with-IsReport try_enqueue net x recv_time cqe_time d (next_msg ipv4 rx_addr s) dst_ip
        clocks.system clocks.steady,
    ping_completed ipv4 rx_addr dst_ip dst clocks x recv_time cqe_time d notified s v h t nx nc,
  )
