-- ===== src/RdmaClient/Threads.antt =====
-- The functions of three threads of src/rdma_client.cpp: `rdma_client_rx_thread`,
-- `rdma_client_tx_sched_thread` and `rdma_client_tx_cqe_thread`, from their start on.
use Prim.Native.String.{String}
use pingweave.Base.{ℕ, Bool, not, Option, none, some, List, if◌then◌else◌, length}
use pingweave.Base.Text.{codes}
use pingweave.Common.{Net}
use pingweave.Devices.{wait_for_cq_event}
use pingweave.Gid.{wire_gid_to_gid}
use pingweave.Messages.{RdmaPingMsg, RdmaPongMsg, RdmaAddr, RdmaResultMsg}
use pingweave.Pinglist.{RdmaAddress}
use pingweave.RdmaContext.{Verbs}
use pingweave.RdmaServer.{Completion, Exit, done, thrown}
use pingweave.RdmaServer.Threads.{post_all}
use pingweave.RdmaClient.{Client, Clocks, client_process_rx_cqe, client_process_tx_cqe, send_ping}
use pingweave.Scheduler.{Scheduler, next}
use pingweave.Threads.{bare_throw, Outcome, fails, thread_loop}

-- What a round of the RX thread meets; each completion has the time at which it is handled.
pub record RxRound : Type 0 where
  pub event : Option ℕ
  pub poll : Option (List (Completion × ℕ))
  pub received : ℕ → RdmaPongMsg
  pub notified : Bool

pub record TxCqeRound : Type 0 where
  pub event : Option ℕ
  pub poll : Option (List Completion)
  pub notified : Bool

-- The clocks that a round of the TX scheduler reads, and what the variable holds that
-- `wire_gid_to_gid` leaves uninitialised.
pub record SchedRound : Type 0 where
  pub load_now : ℕ
  pub ping_now : ℕ
  pub clocks : Clocks
  pub v32 : ℕ

pub record Sender (Nic Q : Type 0) : Type 0 where
  pub scheduler : Scheduler RdmaAddress
  pub client : Client Nic Q

module _ {Nic Q : Type 0} (verbs : Verbs Nic RdmaPingMsg)
    (try_enqueue : Q → RdmaResultMsg → Q × Bool) (net : Net) (cq : ℕ) where
  unfoldable pub rx_round : RxRound → Client Nic Q → Client Nic Q × Exit
  rx_round r s =
      if wait_for_cq_event cq r.event
      then client_process_rx_cqe verbs try_enqueue net r.received r.poll r.notified s
      else (s, thrown)

  -- Where the start fails there is no exception for `throw;` to throw again.
  unfoldable pub rdma_client_rx_thread : Bool → List RxRound → Client Nic Q → Outcome (Client Nic Q)
  rdma_client_rx_thread armed rounds s =
      let (rx', posted) = post_all verbs (length s.rx.buf) 0 s.rx in
      let s1 = record s { rx = rx' } in
      if not posted
      then fails bare_throw s1
      else (if not armed then fails bare_throw s1 else thread_loop rx_round rounds s1)

  unfoldable pub tx_cqe_round : TxCqeRound → Client Nic Q → Client Nic Q × Exit
  tx_cqe_round r s =
      if wait_for_cq_event cq r.event
      then client_process_tx_cqe verbs try_enqueue net r.poll r.notified s
      else (s, thrown)

  unfoldable pub rdma_client_tx_cqe_thread :
      Bool → List TxCqeRound → Client Nic Q → Outcome (Client Nic Q)
  rdma_client_tx_cqe_thread armed rounds s =
      if not armed then fails bare_throw s else thread_loop tx_cqe_round rounds s

  module _ (ipv4 : String) (rx_addr : RdmaAddr)
      (load : Scheduler RdmaAddress → Scheduler RdmaAddress) (idle_us : ℕ) where
    -- The ping to the address that the scheduler named, if it named one; a failure is only logged.
    abbrev pub after_next :
        SchedRound → Client Nic Q → Scheduler RdmaAddress × Option RdmaAddress × ℕ → Sender Nic Q
    after_next r c (scheduler, none, time_sleep_us) = record { scheduler = scheduler; client = c }
    after_next r c (scheduler, some (dst_ip, dst_gid_str, dst_lid, dst_qpn), time_sleep_us) =
        let dst_addr : RdmaAddr = record {
          qpn = dst_qpn;
          gid = wire_gid_to_gid r.v32 (codes dst_gid_str);
          lid = dst_lid;
        } in
        record {
          scheduler = scheduler;
          client = (send_ping verbs try_enqueue net ipv4 rx_addr dst_ip dst_addr r.clocks c).0;
        }

    unfoldable pub sched_round : SchedRound → Sender Nic Q → Sender Nic Q × Exit
    sched_round r s =
        (after_next r s.client (next load idle_us r.load_now r.ping_now s.scheduler), done)

    -- The thread counts its pings from 0, with a scheduler of its own.
    unfoldable pub rdma_client_tx_sched_thread :
        Scheduler RdmaAddress → List SchedRound → Client Nic Q → Outcome (Sender Nic Q)
    rdma_client_tx_sched_thread scheduler rounds s =
        thread_loop sched_round rounds
          (record { scheduler = scheduler; client = record s { ping_uid = 0 } })
