-- ===== src/RdmaClient.antt =====
-- The RDMA client of src/rdma_client.cpp: the TX scheduler thread enters each ping in the table and
-- sends it, the TX CQE thread notes when it left, and the RX thread what the server answers.
--
-- As for the server, a poll of a completion queue is an input, with the steady clock's time at
-- which each completion is handled; `none` is a poll that fails. The message of a RECV is that of
-- the buffer it names. The destination comes from the scheduler, its GID already converted by
-- `wire_gid_to_gid`.
pub mod Batch
pub mod Ping
pub mod Threads
mod Tests
use pingweave.Base.{
  ℕ, zero, suc, ◌+◌, ◌-◌, ◌*◌, ◌/◌, ◌%◌, ◌^◌, ◌≤◌, ◌<◌, bit_or, bit_and, ◌≡◌, refl, sym, ap, ap₂,
  subst, ◌∙◌, ◌≢◌, ◌↔◌, ◌⊎◌, inl, inr, ite, if_pos, if_neg, Bool, true, false, not, ◌&&◌, ◌||◌,
  Option, none, some, List, [], ◌∷◌, ◌++◌, map, foldl, filter, Mem, Nodup, Perm, arith, dec_lt,
  dec_le, ℕ_discrete, u64, u32, success, failure, ltb, leb, ◌==◌, if◌then◌else◌, ltb→lt, lt→ltb,
  leb→le, ==_iff, ==_self, Bool-cases, Option-cases, length, get_elem?, get_or, set, All,
  length-append, length-set, get_or-set_self, get_or-set_ne,
}
use Prim.Native.String.{String}
use pingweave.Common.{Net, ip2uint, make_pingid}
use pingweave.Messages.{RdmaPingMsg, RdmaPongMsg, RdmaAddr, RdmaResultMsg, opcode_pong, opcode_ack}
use pingweave.Table.{Store}
use pingweave.RdmaContext.{Verbs, Context, post_send, post_recv}
use pingweave.RdmaPinginfoMap
use pingweave.RdmaPinginfoMap.{
  RdmaPinginfo, update_ping_cqe_time, update_pong_info, update_ack_info,
}
use pingweave.RdmaServer.{Completion, recv, send, Exit, done, thrown, notify}

pub record Client (Nic Q : Type 0) : Type 0 where
  pub rx : Context Nic RdmaPingMsg
  pub tx : Context Nic RdmaPingMsg
  pub store : Store RdmaPinginfo Q
  pub ping_uid : ℕ

-- The clocks that one round of the TX scheduler reads: for the expiry of the table, for the new
-- entry, the system time, and the time after the post.
pub record Clocks : Type 0 where
  pub expiry : ℕ
  pub steady : ℕ
  pub system : ℕ
  pub posted : ℕ

module _ {Q : Type 0} (try_enqueue : Q → RdmaResultMsg → Q × Bool) (net : Net) where
  unfoldable pub handle_received_message :
      RdmaPongMsg → ℕ → ℕ → Store RdmaPinginfo Q → Store RdmaPinginfo Q
  handle_received_message m recv_time cqe_time s =
      if m.opcode == opcode_pong
      then (update_pong_info try_enqueue net m.pingid recv_time cqe_time s).0
      else (if m.opcode == opcode_ack
          then (update_ack_info try_enqueue net m.pingid m.server_delay s).0
          else s)

module _ {Nic Q : Type 0} (verbs : Verbs Nic RdmaPingMsg)
    (try_enqueue : Q → RdmaResultMsg → Q × Bool) (net : Net) where
  -- One RECV. Without hardware timestamps the clock's time serves as both times.
  unfoldable pub rx_recv : (ℕ → RdmaPongMsg) → Completion → ℕ → Client Nic Q → Client Nic Q
  rx_recv received c now s =
      let cqe_time = if s.rx.rnic_hw_ts then c.time else now in
      record s {
        rx = (post_recv verbs s.rx c.wr_id 1).0;
        store = handle_received_message try_enqueue net (received c.wr_id) now cqe_time s.store;
      }

  unfoldable pub rx_loop :
      (ℕ → RdmaPongMsg) → List (Completion × ℕ) → Client Nic Q → Client Nic Q × Exit
  rx_loop received [] s = (s, done)
  rx_loop received ((c, now) ∷ cs) s =
      let rest = rx_loop received cs s in
      let next = rx_loop received cs (rx_recv received c now s) in
      if not c.status_ok then rest else elim c.opcode [ recv ↦ next | _ ↦ (s, thrown) ]

  unfoldable pub client_process_rx_cqe :
      (ℕ → RdmaPongMsg) → Option (List (Completion × ℕ)) → Bool → Client Nic Q → Client Nic Q × Exit
  client_process_rx_cqe received none notified s = (s, thrown)
  client_process_rx_cqe received (some []) notified s = (s, thrown)
  client_process_rx_cqe received (some (c ∷ cs)) notified s =
      let (s', exit) = rx_loop received (c ∷ cs) s in
      elim exit [ thrown ↦ (s', thrown) | done ↦ (s', notify notified) ]

  -- One SEND: without hardware timestamps the scheduler thread has noted the time already.
  unfoldable pub tx_send : Completion → Client Nic Q → Client Nic Q
  tx_send c s =
      if s.tx.rnic_hw_ts
      then record s { store = (update_ping_cqe_time try_enqueue net c.wr_id c.time s.store).0 }
      else s

  unfoldable pub tx_loop : List Completion → Client Nic Q → Client Nic Q × Exit
  tx_loop [] s = (s, done)
  tx_loop (c ∷ cs) s =
      let rest = tx_loop cs s in
      let next = tx_loop cs (tx_send c s) in
      if not c.status_ok then rest else elim c.opcode [ send ↦ next | _ ↦ (s, thrown) ]

  -- A poll that gives nothing returns early; one that fails throws, but not where the completions
  -- come with hardware timestamps.
  unfoldable pub client_process_tx_cqe :
      Option (List Completion) → Bool → Client Nic Q → Client Nic Q × Exit
  client_process_tx_cqe none notified s = (s, if s.tx.rnic_hw_ts then done else thrown)
  client_process_tx_cqe (some []) notified s = (s, done)
  client_process_tx_cqe (some (c ∷ cs)) notified s =
      let (s', exit) = tx_loop (c ∷ cs) s in
      elim exit [ thrown ↦ (s', thrown) | done ↦ (s', notify notified) ]

  -- One ping of `rdma_client_tx_sched_thread`: the client's address, that of its RX queue pair, and
  -- the destination.
  unfoldable pub send_ping :
      String → RdmaAddr → String → RdmaAddr → Clocks → Client Nic Q → Client Nic Q × Bool
  send_ping ipv4 rx_addr dst_ip dst clocks s =
      let pingid = make_pingid (ip2uint net ipv4) s.ping_uid in
      let msg : RdmaPingMsg = record {
        pingid = pingid;
        qpn = rx_addr.qpn;
        gid = rx_addr.gid;
        lid = rx_addr.lid;
        time = 0;
      } in
      let (store', _inserted) =
        RdmaPinginfoMap.insert try_enqueue net pingid msg dst_ip clocks.expiry clocks.steady
          clocks.system s.store in
      let (tx', sent) = post_send verbs s.tx dst msg (pingid % length s.tx.buf) pingid in
      let noted =
        if sent && not s.tx.rnic_hw_ts
        then (update_ping_cqe_time try_enqueue net pingid clocks.posted store').0
        else store' in
      (record s { tx = tx'; store = noted; ping_uid = u32 (s.ping_uid + 1) }, sent)
