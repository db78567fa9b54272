-- ===== src/RdmaServer.antt =====
-- The RDMA server of src/rdma_server.cpp: the RX thread queues each PING with its arrival time,
-- the TX thread stores it and sends the PONG, and the TX CQE thread, on completion of the PONG,
-- sends the ACK with the server's delay and forgets the ping.
--
-- Each iteration of a thread is a step on the shared state. The internal queue is a library's:
-- its type `SQ` and `try_enqueue` are parameters, and what it hands out is an input. What a poll
-- of a completion queue gives is an input too: the completions, in order, each with the time
-- that the handler takes for it (the hardware's, or the steady clock's). The message of a RECV is
-- that of the buffer it names. `none` of a poll is a negative count.
pub mod Delay
pub mod Rx
pub mod Threads
pub mod Answer
pub mod Interleaving
pub mod RxThread
mod Tests
use pingweave.Base.{
  ℕ, zero, suc, ◌+◌, ◌-◌, ◌*◌, ◌/◌, ◌%◌, ◌^◌, ◌≤◌, ◌<◌, bit_or, bit_and, ◌≡◌, refl, sym, ap, ap₂,
  subst, ◌∙◌, ◌≢◌, ◌↔◌, ◌⊎◌, inl, inr, ite, if_pos, if_neg, Bool, true, false, not, ◌&&◌, ◌||◌,
  Option, none, some, List, [], ◌∷◌, ◌++◌, map, foldl, filter, Mem, Nodup, Perm, arith, dec_lt,
  dec_le, ℕ_discrete, u64, u32, success, failure, ltb, leb, ◌==◌, if◌then◌else◌, ltb→lt, lt→ltb,
  leb→le, ==_iff, ==_self, Bool-cases, Option-cases, length, get_elem?, get_or, set, All,
  length-append, length-set, get_or-set_self, get_or-set_ne,
}
use pingweave.Common.{calc_time_delta_with_modulo, time_calc_modulo}
use pingweave.Messages.{RdmaPingMsg, RdmaPongMsg, RdmaAddr, opcode_pong, opcode_ack, wrid_pong_ack}
use pingweave.PingMsgMap
use pingweave.PingMsgMap.{Pings}
use pingweave.RdmaContext.{Verbs, Context, post_send, post_recv}

pub data Opcode : Type 0 where
  recv send other : Opcode

pub record Completion : Type 0 where
  pub status_ok : Bool
  pub opcode : Opcode
  pub wr_id : ℕ
  pub time : ℕ

-- How a handler ends: it returns, or an exception leaves it.
pub data Exit : Type 0 where
  done thrown : Exit

-- A handler's end: the acknowledgement of the events and the request for the next one, which
-- may be refused.
abbrev pub notify : Bool → Exit
notify true = done
notify false = thrown

pub record Server (Nic SQ : Type 0) : Type 0 where
  pub rx : Context Nic RdmaPongMsg
  pub tx : Context Nic RdmaPongMsg
  pub queue : SQ
  pub table : Pings

abbrev pub addr_of : RdmaPingMsg → RdmaAddr
addr_of m = record { qpn = m.qpn; gid = m.gid; lid = m.lid }

abbrev pub ack_of : ℕ → ℕ → RdmaPingMsg → RdmaPongMsg
ack_of wr_id cqe_time ping_msg = record {
  opcode = opcode_ack;
  pingid = wr_id;
  server_delay = calc_time_delta_with_modulo ping_msg.time cqe_time time_calc_modulo;
}

module _ {Nic SQ : Type 0} (verbs : Verbs Nic RdmaPongMsg) where
  module _ (try_enqueue : SQ → RdmaPingMsg → SQ × Bool) (received : ℕ → RdmaPingMsg) where
    -- One RECV: the message is read, its buffer is posted again, and the message is queued.
    unfoldable pub rx_recv : Completion → Server Nic SQ → Server Nic SQ
    rx_recv c s =
        let ping_msg = record (received c.wr_id) { time = c.time } in
        record s {
          rx = (post_recv verbs s.rx c.wr_id 1).0;
          queue = (try_enqueue s.queue ping_msg).0;
        }

    -- The contents of the buffers are those of the whole round: one that is posted anew and takes a
    -- second message within it is not modelled.
    unfoldable pub rx_loop : List Completion → Server Nic SQ → Server Nic SQ × Exit
    unfolding rx_recv
    rx_loop [] s = (s, done)
    rx_loop (c ∷ cs) s =
        let rest = rx_loop cs s in
        let next = rx_loop cs (rx_recv c s) in
        if not c.status_ok then rest else elim c.opcode [ recv ↦ next | _ ↦ (s, thrown) ]

    unfoldable pub server_process_rx_cqe :
        Option (List Completion) → Bool → Server Nic SQ → Server Nic SQ × Exit
    server_process_rx_cqe none notified s = (s, thrown)
    server_process_rx_cqe (some []) notified s = (s, thrown)
    server_process_rx_cqe (some (c ∷ cs)) notified s =
        let (s', exit) = rx_loop (c ∷ cs) s in
        elim exit [ thrown ↦ (s', thrown) | done ↦ (s', notify notified) ]

  -- One message from the internal queue; the clock is read for the expiry and for the entry.
  unfoldable pub tx_step : RdmaPingMsg → ℕ → ℕ → Server Nic SQ → Server Nic SQ × Exit
  tx_step ping_msg now_expire now s =
      let (table', _inserted) = PingMsgMap.insert ping_msg.pingid ping_msg now_expire now s.table in
      let pong_msg : RdmaPongMsg = record {
        opcode = opcode_pong;
        pingid = ping_msg.pingid;
        server_delay = 0;
      } in
      let (tx', sent) =
        post_send verbs s.tx (addr_of ping_msg) pong_msg (ping_msg.pingid % length s.tx.buf)
          ping_msg.pingid in
      (record s { table = table'; tx = tx' }, if sent then done else thrown)

  unfoldable pub forget : ℕ → Server Nic SQ → Server Nic SQ
  forget wr_id s = record s { table = (PingMsgMap.remove_key wr_id s.table).0 }

  unfoldable pub server_process_pong_cqe : ℕ → ℕ → Server Nic SQ → Server Nic SQ × Bool
  unfolding forget
  server_process_pong_cqe wr_id cqe_time s = elim (PingMsgMap.get wr_id s.table) [
    | none ↦ (forget wr_id s, success)
    | some ping_msg ↦
        let (tx', sent) =
          post_send verbs s.tx (addr_of ping_msg) (ack_of wr_id cqe_time ping_msg)
            (wr_id % length s.tx.buf) wrid_pong_ack in
        let s' = record s { tx = tx' } in if sent then (forget wr_id s', success) else (s', failure)
  ]

  unfoldable pub tx_cqe_loop : List Completion → Server Nic SQ → Server Nic SQ × Exit
  unfolding server_process_pong_cqe
  tx_cqe_loop [] s = (s, done)
  tx_cqe_loop (c ∷ cs) s =
      let (s', sent) = server_process_pong_cqe c.wr_id c.time s in
      let skip = tx_cqe_loop cs s in
      let next = tx_cqe_loop cs s' in
      if not c.status_ok then skip else elim c.opcode [
        | send ↦ if c.wr_id == wrid_pong_ack then skip else (if sent then next else (s', thrown))
        | _ ↦ (s, thrown)
      ]

  unfoldable pub server_process_tx_cqe :
      Option (List Completion) → Bool → Server Nic SQ → Server Nic SQ × Exit
  server_process_tx_cqe none notified s = (s, thrown)
  server_process_tx_cqe (some []) notified s = (s, thrown)
  server_process_tx_cqe (some (c ∷ cs)) notified s =
      let (s', exit) = tx_cqe_loop (c ∷ cs) s in
      elim exit [ thrown ↦ (s', thrown) | done ↦ (s', notify notified) ]
