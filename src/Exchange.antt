-- ===== src/Exchange.antt =====
-- An RDMA client (src/rdma_client.cpp) and an RDMA server (src/rdma_server.cpp) together: one ping,
-- from the client's post to its report. The network brings what stands in the buffer that a message is
-- posted from to a buffer at the other end; each thread makes its round when its event comes.
pub mod Udp
mod Tests
use Prim.Native.String.{String}
use pingweave.Base.{
  ℕ, ◌+◌, ◌%◌, ◌^◌, ◌<◌, ◌≤◌, ◌≡◌, ◌≢◌, refl, sym, ◌∙◌, ap, subst, Bool, true, false, Option, none,
  some, List, [], ◌∷◌, inl, inr, Bool-cases, arith, length, get_or, success,
}
use pingweave.Common.{Net, ip2uint, make_pingid, calc_time_delta_with_modulo, time_calc_modulo}
use pingweave.Common.PingId.{wrid_pong_ack-lt-make_pingid}
use pingweave.Messages.{
  RdmaPingMsg, RdmaPongMsg, RdmaAddr, RdmaResultMsg, opcode_pong, opcode_ack, wrid_pong_ack,
}
use pingweave.PingMsgMap
use pingweave.PingMsgMap.Lookup.{get_young}
use pingweave.RdmaContext.{Verbs, Context, post_send, post_recv}
use pingweave.RdmaContext.Handles.{post_send-keeps}
use pingweave.RdmaContext.Posted.{post_send-written}
use pingweave.RdmaClient.{
  Client, Clocks, handle_received_message, rx_recv, rx_loop, client_process_rx_cqe,
  client_process_tx_cqe, tx_loop, tx_send, send_ping,
}
use pingweave.RdmaClient.Batch.{post_recv-keeps, client_rx_batch}
use pingweave.RdmaClient.Ping.{next_msg, ping_completed}
use pingweave.RdmaPinginfoMap.{initial, completed}
use pingweave.Common.Delta.{IsElapsed, modulo-IsElapsed}
use pingweave.RdmaPinginfoMap.Report.{IsReport}
use pingweave.RdmaPinginfoMap.Events.{complete_with-IsReport, complete_with}
use pingweave.RdmaPinginfoMap.Updates.{without}
use pingweave.RdmaServer.{Server, Exit, done, ack_of}
use pingweave.RdmaServer.Answer.{
  received_at, sent_at, pong_of, buffer_of, mod_below, after_rx, after_tx, after_cqe, ping_answered,
}
use pingweave.RdmaServer.Threads.{TxClocks}
use pingweave.Table.{find}
use pingweave.Table.Expire.{live}
use pingweave.Table.Linked.{IsValid}

-- The times of an exchange, and the buffers that the messages arrive in: the completion of the
-- PING's send, its arrival, the completion of the PONG's send, and for PONG and ACK their arrival and
-- the time at which the client handles it.
pub record Course : Type 0 where
  pub ping_left : ℕ
  pub ping_buffer : ℕ
  pub ping_arrived : ℕ
  pub server_clocks : TxClocks
  pub pong_left : ℕ
  pub pong_buffer : ℕ
  pub pong_arrived : ℕ
  pub pong_handled : ℕ
  pub ack_buffer : ℕ
  pub ack_arrived : ℕ
  pub ack_handled : ℕ

module _ {Nic Q : Type 0} (verbs : Verbs Nic RdmaPingMsg)
    (try_enqueue : Q → RdmaResultMsg → Q × Bool) (net : Net) where
  abbrev pub client_receives : RdmaPongMsg → ℕ → ℕ → ℕ → Client Nic Q → Client Nic Q
  client_receives m w arrived handled c =
      (client_process_rx_cqe verbs try_enqueue net (λ _. m)
        (some ((received_at w arrived, handled) ∷ [])) true c).0

  client_receives_lem :
      (m : RdmaPongMsg) (w arrived handled : ℕ) (c : Client Nic Q)
      → c.rx.rnic_hw_ts ≡ true
      → let c' = client_receives m w arrived handled c in
        (c'.store ≡ handle_received_message try_enqueue net m handled arrived c.store)
        × (c'.rx.rnic_hw_ts ≡ true)
  unfolding client_process_rx_cqe rx_loop rx_recv
  client_receives_lem m w arrived handled c h = (rw h refl, post_recv-keeps verbs c.rx w 1 ∙ h)

  abbrev pub client_completes : ℕ → ℕ → Client Nic Q → Client Nic Q
  client_completes pingid left c =
      (client_process_tx_cqe verbs try_enqueue net (some (sent_at pingid left ∷ [])) true c).0

  client_completes-rx :
      (pingid left : ℕ) (c : Client Nic Q) → (client_completes pingid left c).rx ≡ c.rx
  unfolding client_process_tx_cqe tx_loop tx_send
  client_completes-rx pingid left c = ground arith

  -- A PING that could be posted is in its buffer.
  send_ping-written :
      (ipv4 : String) (rx_addr : RdmaAddr) (dst_ip : String) (dst : RdmaAddr) (clocks : Clocks)
      (before : RdmaPingMsg) (c : Client Nic Q)
      → 0 < length c.tx.buf
      → let (c', sent) = send_ping verbs try_enqueue net ipv4 rx_addr dst_ip dst clocks c in
        sent ≡ success
        → buffer_of before (next_msg verbs try_enqueue net ipv4 rx_addr c).pingid c'.tx
          ≡ next_msg verbs try_enqueue net ipv4 rx_addr c
  unfolding send_ping
  send_ping-written ipv4 rx_addr dst_ip dst clocks before c some_buffer h =
      let msg = next_msg verbs try_enqueue net ipv4 rx_addr c in
      let (l, w) =
        post_send-written verbs c.tx dst msg before (msg.pingid % length c.tx.buf) msg.pingid in
      rw l (w h (mod_below msg.pingid (length c.tx.buf) some_buffer))

  send_ping-rx :
      (ipv4 : String) (rx_addr : RdmaAddr) (dst_ip : String) (dst : RdmaAddr) (clocks : Clocks)
      (c : Client Nic Q)
      → (send_ping verbs try_enqueue net ipv4 rx_addr dst_ip dst clocks c).0.rx ≡ c.rx
  unfolding send_ping
  send_ping-rx ipv4 rx_addr dst_ip dst clocks c = refl

module _ {Nic Q Nic' SQ : Type 0} (verbs : Verbs Nic RdmaPingMsg)
    (try_enqueue : Q → RdmaResultMsg → Q × Bool) (net : Net) (verbs' : Verbs Nic' RdmaPongMsg)
    (enqueue_ping : SQ → RdmaPingMsg → SQ × Bool)
    (wait_dequeue_timed : SQ → SQ × Option RdmaPingMsg) (ipv4 : String) (rx_addr : RdmaAddr)
    (dst_ip : String) (dst : RdmaAddr) (clocks : Clocks) (k : Course) (no_ping : RdmaPingMsg)
    (no_pong : RdmaPongMsg) (c : Client Nic Q) (s : Server Nic' SQ) where
  abbrev pub msg : RdmaPingMsg
  msg = next_msg verbs try_enqueue net ipv4 rx_addr c

  abbrev pub pinged : Client Nic Q × Bool
  pinged = send_ping verbs try_enqueue net ipv4 rx_addr dst_ip dst clocks c

  -- The PING that arrives, and the server once it has posted the PONG, if it has.
  abbrev pub ping : RdmaPingMsg
  ping = buffer_of no_ping msg.pingid pinged.0.tx

  abbrev pub ponged_to : RdmaPingMsg → Server Nic' SQ × Exit
  ponged_to m =
      after_tx verbs' enqueue_ping wait_dequeue_timed k.server_clocks
        (after_rx verbs' enqueue_ping wait_dequeue_timed k.ping_buffer k.ping_arrived m s)

  abbrev pub ponged : Server Nic' SQ × Exit
  ponged = ponged_to ping

  abbrev pub pong : RdmaPongMsg
  pong = buffer_of no_pong msg.pingid ponged.0.tx

  -- The server once it has posted the ACK, if it has.
  abbrev pub acked : Server Nic' SQ × Exit
  acked = after_cqe verbs' enqueue_ping wait_dequeue_timed msg.pingid k.pong_left ponged.0

  abbrev pub ack : RdmaPongMsg
  ack = buffer_of no_pong msg.pingid acked.0.tx

  -- The client when the send has completed, and PONG and ACK have come.
  abbrev pub reported : Client Nic Q
  reported = client_receives verbs try_enqueue net ack k.ack_buffer k.ack_arrived k.ack_handled (
      client_receives verbs try_enqueue net pong k.pong_buffer k.pong_arrived k.pong_handled
        (client_completes verbs try_enqueue net msg.pingid k.ping_left pinged.0))

  abbrev pub server_delay : ℕ
  server_delay = calc_time_delta_with_modulo k.ping_arrived k.pong_left time_calc_modulo

  -- What the entry of the ping holds at the end is reported, and neither table has the ping any more.
  pub exchange_completed :
      {last last' : ℕ}
      → IsValid last c.store.table
      → find msg.pingid (live c.store.table.threshold_ms clocks.expiry c.store.table.map) ≡ none
      → (c.tx.rnic_hw_ts ≡ true) × (c.rx.rnic_hw_ts ≡ true)
      → k.ping_left ≢ 0
      → k.pong_arrived ≢ 0
      → (0 < ip2uint net ipv4) × (ip2uint net ipv4 < 2 ^ 32) × (c.ping_uid < 2 ^ 32)
      → (wait_dequeue_timed (enqueue_ping s.queue (record msg { time = k.ping_arrived })).0).1
        ≡ some (record msg { time = k.ping_arrived })
      → last' ≤ k.server_clocks.entry
      → IsValid last' s.table.table
      → get_young k.server_clocks.expiry msg.pingid s.table ≡ none
      → (0 < length c.tx.buf) × (0 < length s.tx.buf)
      → pinged.1 ≡ success
      → ponged.1 ≡ done
      → acked.1 ≡ done
      → (reported.store
          ≡ without msg.pingid c.store.table.next_iter (record (pinged.0.store) {
            queue =
                (try_enqueue pinged.0.store.queue (
                  completed net (
                    complete_with try_enqueue net k.ping_left k.pong_handled k.pong_arrived
                      server_delay
                      (initial msg dst_ip clocks.system clocks.steady)))).0;
          }))
        × (PingMsgMap.get msg.pingid acked.0.table ≡ none)
  unfolding handle_received_message
  exchange_completed v free hw left back (nonzero, narrow, uid) handed l v' free' bufs sent h2 h3 =
      let same : ping ≡ msg =
        send_ping-written verbs try_enqueue net ipv4 rx_addr dst_ip dst clocks no_ping c bufs.0
          sent in
      let other : msg.pingid ≢ wrid_pong_ack =
        omega (arith, wrid_pong_ack-lt-make_pingid _ _ nonzero narrow uid) in
      let (at_pong, at_ack, gone) =
        answered msg (sym same)
          (ping_answered verbs' enqueue_ping wait_dequeue_timed msg k.ping_buffer k.ping_arrived
            k.pong_left k.server_clocks no_pong s handed l v' free' other bufs.1)
          h2 h3 in
      let c2 = client_completes verbs try_enqueue net msg.pingid k.ping_left pinged.0 in
      let rx2 : c2.rx.rnic_hw_ts ≡ true =
        ap (λ x. x.rnic_hw_ts)
          (client_completes-rx verbs try_enqueue net msg.pingid k.ping_left pinged.0
            ∙ send_ping-rx verbs try_enqueue net ipv4 rx_addr dst_ip dst clocks c)
        ∙ hw.1 in
      let (store3, rx3) =
        client_receives_lem verbs try_enqueue net pong k.pong_buffer k.pong_arrived k.pong_handled
          c2 rx2 in
      let (store4, _rx4) =
        client_receives_lem verbs try_enqueue net ack k.ack_buffer k.ack_arrived k.ack_handled _
          rx3 in
      (
        store4
            ∙ ap (handle_received_message try_enqueue net ack k.ack_handled k.ack_arrived) store3
            ∙ ap
                (λ a. handle_received_message try_enqueue net a k.ack_handled k.ack_arrived (
                  handle_received_message try_enqueue net pong k.pong_handled k.pong_arrived
                    c2.store))
                at_ack
            ∙ ap
                (λ p.
                  handle_received_message try_enqueue net
                    (ack_of msg.pingid k.pong_left (record msg { time = k.ping_arrived })) 0 0
                    (handle_received_message try_enqueue net p k.pong_handled k.pong_arrived
                      c2.store))
                at_pong
            ∙ ping_completed verbs try_enqueue net ipv4 rx_addr dst_ip dst clocks k.ping_left
                k.pong_handled k.pong_arrived server_delay true c v free hw.0 left back,
        gone,
      )
    where
      answered :
          (m : RdmaPingMsg)
          → m ≡ ping
          → (let p = ponged_to m in
              let a = after_cqe verbs' enqueue_ping wait_dequeue_timed msg.pingid k.pong_left p.0 in
              p.1 ≡ done
              → a.1 ≡ done
              → (buffer_of no_pong msg.pingid p.0.tx ≡ pong_of msg.pingid)
                × (buffer_of no_pong msg.pingid a.0.tx
                    ≡ ack_of msg.pingid k.pong_left (record msg { time = k.ping_arrived }))
                × (PingMsgMap.get msg.pingid a.0.table ≡ none))
          → ponged.1 ≡ done
          → acked.1 ≡ done
          → (pong ≡ pong_of msg.pingid)
            × (ack ≡ ack_of msg.pingid k.pong_left (record msg { time = k.ping_arrived }))
            × (PingMsgMap.get msg.pingid acked.0.table ≡ none)
      answered m e =
          subst
            (λ x.
              let p = ponged_to x in
              let a = after_cqe verbs' enqueue_ping wait_dequeue_timed msg.pingid k.pong_left p.0 in
              p.1 ≡ done
              → a.1 ≡ done
              → (buffer_of no_pong msg.pingid p.0.tx ≡ pong_of msg.pingid)
                × (buffer_of no_pong msg.pingid a.0.tx
                    ≡ ack_of msg.pingid k.pong_left (record msg { time = k.ping_arrived }))
                × (PingMsgMap.get msg.pingid a.0.table ≡ none))
            e

  -- A ping of a client with hardware timestamps, if the three posts succeed: the client offers one
  -- report, and neither table has the ping any more. The report has the ping's identity, destination
  -- and time of sending; as server's time the time at the server from the arrival of the PING to the
  -- completion of the PONG's send; as network delay, where this is below the time at the client from
  -- the completion of its send to the arrival of the PONG, the difference of the two, as a success, and
  -- otherwise the latter time, marked as weird; and as client's time what is left of the time from the
  -- sending to the handling of the PONG. Times are differences modulo 2^32. The identity is free at both
  -- ends, the server's queue hands on the PING that it is given, the client's address is not zero, and
  -- neither of the two times of the network delay reads zero.
  pub exchange_reported :
      {last last' : ℕ}
      → IsValid last c.store.table
      → find msg.pingid (live c.store.table.threshold_ms clocks.expiry c.store.table.map) ≡ none
      → (c.tx.rnic_hw_ts ≡ true) × (c.rx.rnic_hw_ts ≡ true)
      → k.ping_left ≢ 0
      → k.pong_arrived ≢ 0
      → (0 < ip2uint net ipv4) × (ip2uint net ipv4 < 2 ^ 32) × (c.ping_uid < 2 ^ 32)
      → (wait_dequeue_timed (enqueue_ping s.queue (record msg { time = k.ping_arrived })).0).1
        ≡ some (record msg { time = k.ping_arrived })
      → last' ≤ k.server_clocks.entry
      → IsValid last' s.table.table
      → get_young k.server_clocks.expiry msg.pingid s.table ≡ none
      → (0 < length c.tx.buf) × (0 < length s.tx.buf)
      → pinged.1 ≡ success
      → ponged.1 ≡ done
      → acked.1 ≡ done
      → (d : ℕ) × (r : RdmaResultMsg) × IsElapsed k.ping_arrived k.pong_left d
        × IsReport net msg dst_ip clocks.system clocks.steady k.ping_left k.pong_handled
            k.pong_arrived d r
        × (reported.store
            ≡ without msg.pingid c.store.table.next_iter
                (record (pinged.0.store) { queue = (try_enqueue pinged.0.store.queue r).0 }))
        × (PingMsgMap.get msg.pingid acked.0.table ≡ none)
  exchange_reported v free hw left back narrow handed l v' free' bufs sent h2 h3 =
      let (store, gone) =
        exchange_completed v free hw left back narrow handed l v' free' bufs sent h2 h3 in
      (
        server_delay,
        _,
        modulo-IsElapsed k.ping_arrived k.pong_left,
        complete_with-IsReport try_enqueue net k.ping_left k.pong_handled k.pong_arrived
            server_delay msg dst_ip clocks.system clocks.steady,
        store,
        gone,
      )
