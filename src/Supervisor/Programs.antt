-- ===== src/Supervisor/Programs.antt =====
-- How the functions of the threads of `rdma_server` in src/rdma_server.cpp can end. The threads are
-- numbered as the supervising loop looks at them.
use pingweave.Base.{
  ℕ, zero, suc, ◌≡◌, refl, Bool, true, false, Option, List, inl, inr, Bool-cases, length,
}
use pingweave.Messages.{RdmaPingMsg, RdmaPongMsg}
use pingweave.RdmaContext.{Verbs}
use pingweave.RdmaServer.{Server}
use pingweave.RdmaServer.Threads.{
  CqRound, TxClocks, post_all, rdma_server_rx_thread, rdma_server_tx_cqe_thread,
  rdma_server_tx_thread,
}
use pingweave.Supervisor.{Process, Reach, launched}
use pingweave.Supervisor.Restart.{is_lawful, IsUnrestarted, Reach-IsUnrestarted}
use pingweave.Supervisor.Lawful.{EndsSo, IsLawful, lawful_end, thread_loop-IsLawful}
use pingweave.Threads.{Ending}

module _ {Nic SQ : Type 0} (verbs : Verbs Nic RdmaPongMsg)
    (try_enqueue : SQ → RdmaPingMsg → SQ × Bool) (wait_dequeue_timed : SQ → SQ × Option RdmaPingMsg)
    (cq_rx cq_tx : ℕ) where
  -- RX, TX CQE, TX
  abbrev pub RdmaServerEnds : ℕ → Bool → Ending → Type 0
  RdmaServerEnds zero alive ending =
      (armed : Bool) × (rounds : List (CqRound RdmaPingMsg)) × (s : Server Nic SQ) × EndsSo
        (rdma_server_rx_thread verbs try_enqueue cq_rx armed rounds s) alive ending
  RdmaServerEnds (suc zero) alive ending =
      (armed : Bool) × (rounds : List (CqRound RdmaPingMsg)) × (s : Server Nic SQ) × EndsSo
        (rdma_server_tx_cqe_thread verbs try_enqueue cq_tx armed rounds s) alive ending
  RdmaServerEnds (suc (suc zero)) alive ending =
      (rounds : List TxClocks) × (s : Server Nic SQ) × EndsSo
        (rdma_server_tx_thread verbs wait_dequeue_timed rounds s) alive ending
  RdmaServerEnds (suc (suc (suc i))) alive ending = ⊥

  rx-IsLawful :
      (armed : Bool) (rounds : List (CqRound RdmaPingMsg)) (s : Server Nic SQ)
      → IsLawful (rdma_server_rx_thread verbs try_enqueue cq_rx armed rounds s)
  unfolding rdma_server_rx_thread
  rx-IsLawful armed rounds s =
      let (rx', posted) = post_all verbs (length s.rx.buf) 0 s.rx in
      elim (Bool-cases posted) [
        | inl e ↦ rw e (elim (Bool-cases armed) [
          | inl a ↦ rw a (thread_loop-IsLawful _ rounds (record s { rx = rx' }))
          | inr a ↦ rw a refl
        ])
        | inr e ↦ rw e refl
      ]

  tx_cqe-IsLawful :
      (armed : Bool) (rounds : List (CqRound RdmaPingMsg)) (s : Server Nic SQ)
      → IsLawful (rdma_server_tx_cqe_thread verbs try_enqueue cq_tx armed rounds s)
  unfolding rdma_server_tx_cqe_thread
  tx_cqe-IsLawful true rounds s = thread_loop-IsLawful _ rounds s
  tx_cqe-IsLawful false rounds s = refl

  rdma_server_lawful :
      (i : ℕ) (alive : Bool) (ending : Ending)
      → RdmaServerEnds i alive ending
      → is_lawful alive ending ≡ true
  unfolding rdma_server_tx_thread
  rdma_server_lawful zero alive ending (armed, rounds, s, e) =
      lawful_end (rx-IsLawful armed rounds s) e
  rdma_server_lawful (suc zero) alive ending (armed, rounds, s, e) =
      lawful_end (tx_cqe-IsLawful armed rounds s) e
  rdma_server_lawful (suc (suc zero)) alive ending (rounds, s, e) =
      lawful_end (thread_loop-IsLawful _ rounds s) e
  rdma_server_lawful (suc (suc (suc i))) alive ending h = absurd h

  pub rdma_server-IsUnrestarted :
      {p : Process} → Reach RdmaServerEnds (launched 3) p → IsUnrestarted p
  rdma_server-IsUnrestarted r = Reach-IsUnrestarted RdmaServerEnds rdma_server_lawful 3 r
