-- ===== src/Supervisor/Clients.antt =====
-- How the functions of the threads of `rdma_client` in src/rdma_client.cpp, `udp_client` in
-- src/udp_client.cpp and `tcp_client` in src/tcp_client.cpp can end. The threads are numbered as the
-- supervising loops look at them.
use Prim.Native.String.{String}
use pingweave.Base.{
  ℕ, zero, suc, ◌≡◌, refl, Bool, true, false, Option, List, inl, inr, Bool-cases, length,
}
use pingweave.Base.Text.{Text}
use pingweave.Common.{Net}
use pingweave.Messages.{RdmaPingMsg, RdmaAddr, RdmaResultMsg, TcpUdpResultMsg}
use pingweave.Pinglist.{RdmaAddress}
use pingweave.RdmaContext.{Verbs}
use pingweave.RdmaServer.Threads.{post_all}
use pingweave.RdmaClient.{Client}
use pingweave.RdmaClient.Threads.{
  RxRound, TxCqeRound, SchedRound, rdma_client_rx_thread, rdma_client_tx_sched_thread,
  rdma_client_tx_cqe_thread,
}
use pingweave.Results.Threads.{
  Start, producer_made, result_thread, rdma_client_result_thread, tcpudp_client_result_thread,
}
use pingweave.Ini.{get_controller_info_from_ini}
use pingweave.Scheduler.{Scheduler}
use pingweave.Supervisor.{Process, Reach, launched}
use pingweave.Supervisor.Restart.{is_lawful, IsUnrestarted, Reach-IsUnrestarted}
use pingweave.Tcp.Threads.{TxRound, tcp_client_tx_thread}
use pingweave.Supervisor.Lawful.{EndsSo, IsLawful, lawful_end, thread_loop-IsLawful}
use pingweave.Threads.{Ending}
use pingweave.Udp.{Recv}
use pingweave.Udp.Client.{UdpClient, Round}
use pingweave.Udp.Client.Bodies.{udp_client_tx_thread, udp_client_rx_thread}

module _ (local_time : ℕ → Text) (uint2ip : ℕ → Text) (me : Text) where
  abbrev pub RdmaResultEnds : Bool → Ending → Type 0
  RdmaResultEnds alive ending =
      (b : Start) × (rounds : List (Option RdmaResultMsg × ℕ)) × EndsSo
        (rdma_client_result_thread local_time uint2ip me b rounds) alive ending

  abbrev pub TcpUdpResultEnds : Bool → Ending → Type 0
  TcpUdpResultEnds alive ending =
      (b : Start) × (rounds : List (Option TcpUdpResultMsg × ℕ)) × EndsSo
        (tcpudp_client_result_thread local_time uint2ip me b rounds) alive ending

  result_thread-IsLawful :
      {I M : Type 0} (empty : I) (line : ℕ × I → Text) (dstip : M → ℕ) (account : M → I → I × Bool)
      (b : Start) (rounds : List (Option M × ℕ))
      → IsLawful (result_thread empty line dstip account b rounds)
  unfolding result_thread
  result_thread-IsLawful empty line dstip account b rounds =
      elim (Bool-cases (get_controller_info_from_ini b.controller_file b.controller_before).1) [
        | inl e ↦ rw e (elim (Bool-cases (producer_made b)) [
          | inl a ↦ rw a (thread_loop-IsLawful _ rounds _)
          | inr a ↦ rw a refl
        ])
        | inr e ↦ rw e refl
      ]

  rdma_result_lawful :
      {alive : Bool} {ending : Ending} → RdmaResultEnds alive ending → is_lawful alive ending ≡ true
  unfolding rdma_client_result_thread
  rdma_result_lawful (b, rounds, e) = lawful_end (result_thread-IsLawful _ _ _ _ b rounds) e

  tcpudp_result_lawful :
      {alive : Bool} {ending : Ending}
      → TcpUdpResultEnds alive ending
      → is_lawful alive ending ≡ true
  unfolding tcpudp_client_result_thread
  tcpudp_result_lawful (b, rounds, e) = lawful_end (result_thread-IsLawful _ _ _ _ b rounds) e

  module _ {Nic Q : Type 0} (verbs : Verbs Nic RdmaPingMsg)
      (try_enqueue : Q → RdmaResultMsg → Q × Bool) (net : Net) (cq_rx cq_tx : ℕ) (ipv4 : String)
      (rx_addr : RdmaAddr) (load : Scheduler RdmaAddress → Scheduler RdmaAddress)
      (idle_us : ℕ) where
    -- Result, RX, TX scheduler, TX CQE
    abbrev pub RdmaClientEnds : ℕ → Bool → Ending → Type 0
    RdmaClientEnds zero alive ending = RdmaResultEnds alive ending
    RdmaClientEnds (suc zero) alive ending =
        (armed : Bool) × (rounds : List RxRound) × (c : Client Nic Q) × EndsSo
          (rdma_client_rx_thread verbs try_enqueue net cq_rx armed rounds c) alive ending
    RdmaClientEnds (suc (suc zero)) alive ending =
        (scheduler : Scheduler RdmaAddress) × (rounds : List SchedRound) × (c : Client Nic Q)
        × EndsSo
            (rdma_client_tx_sched_thread verbs try_enqueue net cq_tx ipv4 rx_addr load idle_us
              scheduler rounds c)
            alive ending
    RdmaClientEnds (suc (suc (suc zero))) alive ending =
        (armed : Bool) × (rounds : List TxCqeRound) × (c : Client Nic Q) × EndsSo
          (rdma_client_tx_cqe_thread verbs try_enqueue net cq_tx armed rounds c) alive ending
    RdmaClientEnds (suc (suc (suc (suc i)))) alive ending = ⊥

    rx-IsLawful :
        (armed : Bool) (rounds : List RxRound) (c : Client Nic Q)
        → IsLawful (rdma_client_rx_thread verbs try_enqueue net cq_rx armed rounds c)
    unfolding rdma_client_rx_thread
    rx-IsLawful armed rounds c =
        let (rx', posted) = post_all verbs (length c.rx.buf) 0 c.rx in
        elim (Bool-cases posted) [
          | inl e ↦ rw e (elim (Bool-cases armed) [
            | inl a ↦ rw a (thread_loop-IsLawful _ rounds (record c { rx = rx' }))
            | inr a ↦ rw a refl
          ])
          | inr e ↦ rw e refl
        ]

    tx_cqe-IsLawful :
        (armed : Bool) (rounds : List TxCqeRound) (c : Client Nic Q)
        → IsLawful (rdma_client_tx_cqe_thread verbs try_enqueue net cq_tx armed rounds c)
    unfolding rdma_client_tx_cqe_thread
    tx_cqe-IsLawful true rounds c = thread_loop-IsLawful _ rounds c
    tx_cqe-IsLawful false rounds c = refl

    rdma_client_lawful :
        (i : ℕ) (alive : Bool) (ending : Ending)
        → RdmaClientEnds i alive ending
        → is_lawful alive ending ≡ true
    unfolding rdma_client_tx_sched_thread
    rdma_client_lawful zero alive ending h = rdma_result_lawful h
    rdma_client_lawful (suc zero) alive ending (armed, rounds, c, e) =
        lawful_end (rx-IsLawful armed rounds c) e
    rdma_client_lawful (suc (suc zero)) alive ending (scheduler, rounds, c, e) =
        lawful_end (thread_loop-IsLawful _ rounds _) e
    rdma_client_lawful (suc (suc (suc zero))) alive ending (armed, rounds, c, e) =
        lawful_end (tx_cqe-IsLawful armed rounds c) e
    rdma_client_lawful (suc (suc (suc (suc i)))) alive ending h = absurd h

    -- In every state that the RDMA client can reach, whatever its four threads meet and however they
    -- and the supervising loop interleave: no thread was started again, at most one alarm was posted,
    -- and a thread whose flag is down is about to end the process.
    pub rdma_client-IsUnrestarted :
        {p : Process} → Reach RdmaClientEnds (launched 4) p → IsUnrestarted p
    rdma_client-IsUnrestarted r = Reach-IsUnrestarted RdmaClientEnds rdma_client_lawful 4 r

  module _ {Q : Type 0} (try_enqueue : Q → TcpUdpResultMsg → Q × Bool) (net : Net) (ipv4 : String)
      (load : Scheduler String → Scheduler String) (idle_us poll_interval_us : ℕ) where
    -- TX, RX, result
    abbrev pub UdpClientEnds : ℕ → Bool → Ending → Type 0
    UdpClientEnds zero alive ending =
        (scheduler : Scheduler String) × (rounds : List Round) × (c : UdpClient Q) × EndsSo
          (udp_client_tx_thread try_enqueue net ipv4 load idle_us scheduler rounds c) alive ending
    UdpClientEnds (suc zero) alive ending =
        (rounds : List (List Recv × ℕ)) × (c : UdpClient Q) × EndsSo
          (udp_client_rx_thread try_enqueue net ipv4 poll_interval_us rounds c) alive ending
    UdpClientEnds (suc (suc zero)) alive ending = TcpUdpResultEnds alive ending
    UdpClientEnds (suc (suc (suc i))) alive ending = ⊥

    udp_client_lawful :
        (i : ℕ) (alive : Bool) (ending : Ending)
        → UdpClientEnds i alive ending
        → is_lawful alive ending ≡ true
    unfolding udp_client_tx_thread udp_client_rx_thread
    udp_client_lawful zero alive ending (scheduler, rounds, c, e) =
        lawful_end (thread_loop-IsLawful _ rounds _) e
    udp_client_lawful (suc zero) alive ending (rounds, c, e) =
        lawful_end (thread_loop-IsLawful _ rounds c) e
    udp_client_lawful (suc (suc zero)) alive ending h = tcpudp_result_lawful h
    udp_client_lawful (suc (suc (suc i))) alive ending h = absurd h

    pub udp_client-IsUnrestarted :
        {p : Process} → Reach UdpClientEnds (launched 3) p → IsUnrestarted p
    udp_client-IsUnrestarted r = Reach-IsUnrestarted UdpClientEnds udp_client_lawful 3 r

  module _ (net : Net) (ipv4 : String) (load : Scheduler String → Scheduler String)
      (idle_us : ℕ) where
    -- TX, result
    abbrev pub TcpClientEnds : ℕ → Bool → Ending → Type 0
    TcpClientEnds zero alive ending =
        (scheduler : Scheduler String) × (rounds : List TxRound) × EndsSo
          (tcp_client_tx_thread net ipv4 load idle_us scheduler rounds) alive ending
    TcpClientEnds (suc zero) alive ending = TcpUdpResultEnds alive ending
    TcpClientEnds (suc (suc i)) alive ending = ⊥

    tcp_client_lawful :
        (i : ℕ) (alive : Bool) (ending : Ending)
        → TcpClientEnds i alive ending
        → is_lawful alive ending ≡ true
    unfolding tcp_client_tx_thread
    tcp_client_lawful zero alive ending (scheduler, rounds, e) =
        lawful_end (thread_loop-IsLawful _ rounds _) e
    tcp_client_lawful (suc zero) alive ending h = tcpudp_result_lawful h
    tcp_client_lawful (suc (suc i)) alive ending h = absurd h

    pub tcp_client-IsUnrestarted :
        {p : Process} → Reach TcpClientEnds (launched 2) p → IsUnrestarted p
    tcp_client-IsUnrestarted r = Reach-IsUnrestarted TcpClientEnds tcp_client_lawful 2 r
