-- ===== src/RdmaServer/Threads.antt =====
-- The functions of the three threads of src/rdma_server.cpp: `rdma_server_rx_thread`,
-- `rdma_server_tx_cqe_thread` and `rdma_server_tx_thread`, from their start on.
use pingweave.Base.{
  ℕ, zero, suc, ◌+◌, Bool, true, false, not, Option, none, some, List, if◌then◌else◌, ◌==◌, length,
}
use pingweave.Devices.{wait_for_cq_event}
use pingweave.Messages.{RdmaPingMsg, RdmaPongMsg}
use pingweave.RdmaContext.{Verbs, Context, post_recv}
use pingweave.RdmaServer.{
  Server, Completion, Exit, done, thrown, server_process_rx_cqe, server_process_tx_cqe, tx_step,
}
use pingweave.Threads.{escaped, Outcome, fails, thread_loop}

-- `RX_DEPTH` of macro.hpp
abbrev pub rx_depth : ℕ
rx_depth = 1

-- Every buffer is posted for receiving, up to the first that fails: `n` are left, from `i` on.
unfoldable pub post_all :
    {Nic M : Type 0} → Verbs Nic M → ℕ → ℕ → Context Nic M → Context Nic M × Bool
post_all verbs zero i ctx = (ctx, true)
post_all verbs (suc n) i ctx =
    let (ctx', posted) = post_recv verbs ctx i rx_depth in
    let rest = post_all verbs n (i + 1) ctx' in if posted == rx_depth then rest else (ctx', false)

-- What a round of a completion thread meets: the queue that the event names, if there is an event,
-- the completions, the contents of the buffers, and whether the next event can be asked for.
pub record CqRound (M : Type 0) : Type 0 where
  pub event : Option ℕ
  pub poll : Option (List Completion)
  pub received : ℕ → M
  pub notified : Bool

module _ {Nic SQ : Type 0} (verbs : Verbs Nic RdmaPongMsg)
    (try_enqueue : SQ → RdmaPingMsg → SQ × Bool) (cq : ℕ) where
  unfoldable pub rx_round : CqRound RdmaPingMsg → Server Nic SQ → Server Nic SQ × Exit
  rx_round r s =
      if wait_for_cq_event cq r.event
      then server_process_rx_cqe verbs try_enqueue r.received r.poll r.notified s
      else (s, thrown)

  -- `armed` is the outcome of the first request for an event.
  unfoldable pub rdma_server_rx_thread :
      Bool → List (CqRound RdmaPingMsg) → Server Nic SQ → Outcome (Server Nic SQ)
  rdma_server_rx_thread armed rounds s =
      let (rx', posted) = post_all verbs (length s.rx.buf) 0 s.rx in
      let s1 = record s { rx = rx' } in
      if not posted
      then fails escaped s1
      else (if not armed then fails escaped s1 else thread_loop rx_round rounds s1)

  unfoldable pub tx_cqe_round : CqRound RdmaPingMsg → Server Nic SQ → Server Nic SQ × Exit
  tx_cqe_round r s =
      if wait_for_cq_event cq r.event
      then server_process_tx_cqe verbs r.poll r.notified s
      else (s, thrown)

  unfoldable pub rdma_server_tx_cqe_thread :
      Bool → List (CqRound RdmaPingMsg) → Server Nic SQ → Outcome (Server Nic SQ)
  rdma_server_tx_cqe_thread armed rounds s =
      if not armed then fails escaped s else thread_loop tx_cqe_round rounds s

-- The clocks that a round of the TX thread reads: for the expiry of the table, and for the entry.
pub record TxClocks : Type 0 where
  pub expiry : ℕ
  pub entry : ℕ

module _ {Nic SQ : Type 0} (verbs : Verbs Nic RdmaPongMsg)
    (wait_dequeue_timed : SQ → SQ × Option RdmaPingMsg) where
  unfoldable pub tx_round : TxClocks → Server Nic SQ → Server Nic SQ × Exit
  tx_round clocks s =
      let (queue', handed) = wait_dequeue_timed s.queue in
      let s' = record s { queue = queue' } in
      elim handed [
        | none ↦ (s', done)
        | some ping_msg ↦ tx_step verbs ping_msg clocks.expiry clocks.entry s'
      ]

  unfoldable pub rdma_server_tx_thread : List TxClocks → Server Nic SQ → Outcome (Server Nic SQ)
  rdma_server_tx_thread rounds s = thread_loop tx_round rounds s
