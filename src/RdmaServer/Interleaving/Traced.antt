-- ===== src/RdmaServer/Interleaving/Traced.antt =====
-- Rounds of the three threads in any order.
use pingweave.Base.{
  ℕ, ◌≤◌, ◌≡◌, refl, ◌⊎◌, inl, inr, Bool, true, false, Option, none, some, List, [], ◌∷◌, ◌++◌,
  if◌then◌else◌, Bool-cases, Option-cases, ◌==◌,
}
use pingweave.Messages.{RdmaPingMsg, RdmaPongMsg, wrid_pong_ack}
use pingweave.PingMsgMap
use pingweave.PingMsgMap.{Pings, evict, value_of}
use pingweave.RdmaContext.{Verbs}
use pingweave.RdmaServer.{
  Server, Completion, Opcode, recv, send, other, Exit, done, thrown, notify, tx_step, forget,
  server_process_pong_cqe, tx_cqe_loop, server_process_tx_cqe,
}
use pingweave.RdmaServer.Threads.{CqRound, TxClocks, rx_round, tx_round, tx_cqe_round}
use pingweave.Devices.{wait_for_cq_event}
use pingweave.Table.Count.{All-remove, All-insert}
use pingweave.Table.Linked.{IsValid, IsValid-later, remove-IsValid}
use pingweave.Table.Expire.{insert-IsValid}
use pingweave.RdmaServer.Interleaving.{
  IsAmong, IsAmong-left, arrivals, CameIn, CameIn-later, Reach, start, receives, answers, completes,
  IsTraced,
}
use pingweave.RdmaServer.Interleaving.Receiving.{handler-IsTraced}
use pingweave.RdmaServer.Delay.{sent_ack}

module _ {Nic SQ : Type 0} (verbs : Verbs Nic RdmaPongMsg)
    (try_enqueue : SQ → RdmaPingMsg → SQ × Bool) (wait_dequeue_timed : SQ → SQ × Option RdmaPingMsg)
    (cq_rx cq_tx : ℕ) where
  module _ (InQueue : SQ → RdmaPingMsg → Type 0)
      (enqueue_lem : (q : SQ) (m x : RdmaPingMsg)
        → InQueue (try_enqueue q m).0 x
        → InQueue q x ⊎ (x ≡ m))
      (dequeue_lem : (q : SQ) (x : RdmaPingMsg) → InQueue (wait_dequeue_timed q).0 x → InQueue q x)
      (handed_lem : (q : SQ) (m : RdmaPingMsg)
        → (wait_dequeue_timed q).1 ≡ some m
        → InQueue q m) where
    abbrev Traced : ℕ → List RdmaPingMsg → Server Nic SQ → Type 0
    Traced =
        IsTraced verbs try_enqueue wait_dequeue_timed cq_rx cq_tx InQueue enqueue_lem dequeue_lem
          handed_lem

    rx_round-IsTraced :
        (last : ℕ) (ms : List RdmaPingMsg) (r : CqRound RdmaPingMsg) (s : Server Nic SQ)
        → Traced last ms s
        → Traced last (ms ++ arrivals r.received r.poll) (rx_round verbs try_enqueue cq_rx r s).0
    unfolding rx_round
    rx_round-IsTraced last ms r s k = elim (Bool-cases (wait_for_cq_event cq_rx r.event)) [
      | inl e ↦
          rw (e, rx_round)
            (handler-IsTraced verbs try_enqueue wait_dequeue_timed cq_rx cq_tx InQueue enqueue_lem
              dequeue_lem handed_lem last ms r s k)
      | inr e ↦
          rw (e, rx_round)
            (record {
              valid = k.valid;
              stored = CameIn-later ms (arrivals r.received r.poll) s.table.table.map k.stored;
              queued = λ m h. IsAmong-left ms (arrivals r.received r.poll) m (k.queued m h);
            })
    ]

    tx_step-IsTraced :
        (last : ℕ) (ms : List RdmaPingMsg) (m : RdmaPingMsg) (expiry entry : ℕ) (s : Server Nic SQ)
        → last ≤ entry
        → IsAmong ms m
        → Traced last ms s
        → Traced entry ms (tx_step verbs m expiry entry s).0
    unfolding tx_step PingMsgMap.insert
    tx_step-IsTraced last ms m expiry entry s l new k = record {
      valid = insert-IsValid evict m.pingid m expiry entry s.table l k.valid;
      stored =
          All-insert evict (CameIn ms) m.pingid m expiry entry s.table (λ ts iter. (new, refl))
            k.valid k.stored;
      queued = k.queued;
    }

    tx_round-IsTraced :
        (last : ℕ) (ms : List RdmaPingMsg) (clocks : TxClocks) (s : Server Nic SQ)
        → last ≤ clocks.entry
        → Traced last ms s
        → Traced clocks.entry ms (tx_round verbs wait_dequeue_timed clocks s).0
    unfolding tx_round
    tx_round-IsTraced last ms clocks s l k =
        let s1 : Server Nic SQ = record s { queue = (wait_dequeue_timed s.queue).0 } in
        let k1 : Traced last ms s1 = record {
          valid = k.valid;
          stored = k.stored;
          queued = λ m h. k.queued m (dequeue_lem s.queue m h);
        } in
        elim (Option-cases (wait_dequeue_timed s.queue).1) [
          | inl e ↦
              rw (e, tx_round)
                (record {
                  valid = IsValid-later l k1.valid;
                  stored = k1.stored;
                  queued = k1.queued;
                })
          | inr (m, e) ↦
              rw (e, tx_round)
                (tx_step-IsTraced last ms m clocks.expiry clocks.entry s1 l
                  (k.queued m (handed_lem s.queue m e)) k1)
        ]

    pong_cqe-IsTraced :
        (last : ℕ) (ms : List RdmaPingMsg) (wr_id t : ℕ) (s : Server Nic SQ)
        → Traced last ms s
        → Traced last ms (server_process_pong_cqe verbs wr_id t s).0
    unfolding server_process_pong_cqe forget PingMsgMap.remove_key
    pong_cqe-IsTraced last ms wr_id t s k =
        let gone = remove-IsValid wr_id s.table.table k.valid in
        let others = All-remove (CameIn ms) wr_id s.table.table k.stored in
        elim (Option-cases (PingMsgMap.get wr_id s.table)) [
          | inl e ↦
              rw (e, server_process_pong_cqe)
                (record { valid = gone; stored = others; queued = k.queued })
          | inr (m, e) ↦
              rw (e, server_process_pong_cqe)
                (elim (Bool-cases (sent_ack verbs wr_id t m s).1) [
                  | inl sent ↦
                      rw (sent, server_process_pong_cqe)
                        (record { valid = gone; stored = others; queued = k.queued })
                  | inr failed ↦
                      rw (failed, server_process_pong_cqe)
                        (record { valid = k.valid; stored = k.stored; queued = k.queued })
                ])
        ]

    tx_cqe_loop-IsTraced :
        (last : ℕ) (ms : List RdmaPingMsg) (cs : List Completion) (s : Server Nic SQ)
        → Traced last ms s
        → Traced last ms (tx_cqe_loop verbs cs s).0
    unfolding tx_cqe_loop
    tx_cqe_loop-IsTraced last ms [] s k = k
    tx_cqe_loop-IsTraced last ms (c ∷ cs) s k =
        let p = server_process_pong_cqe verbs c.wr_id c.time s in
        let k1 = pong_cqe-IsTraced last ms c.wr_id c.time s k in
        let skip = tx_cqe_loop-IsTraced last ms cs s k in
        elim (Bool-cases c.status_ok) [
          | inl b ↦ rw b (
              by_opcode c.opcode (c.wr_id == wrid_pong_ack) p.1 k skip k1
                (tx_cqe_loop-IsTraced last ms cs p.0 k1))
          | inr b ↦ rw b skip
        ]
      where
        by_opcode :
            (o : Opcode) (is_ack sent : Bool)
            → Traced last ms s
            → Traced last ms (tx_cqe_loop verbs cs s).0
            → let s' = (server_process_pong_cqe verbs c.wr_id c.time s).0 in
              Traced last ms s'
              → Traced last ms (tx_cqe_loop verbs cs s').0
              → let r : Server Nic SQ × Exit = (elim o [
                | send ↦
                    if is_ack
                    then tx_cqe_loop verbs cs s
                    else (if sent then tx_cqe_loop verbs cs s' else (s', thrown))
                | _ ↦ (s, thrown)
              ]) in
                Traced last ms r.0
        by_opcode send true sent k skip k1 next = skip
        by_opcode send false true k skip k1 next = next
        by_opcode send false false k skip k1 next = k1
        by_opcode recv is_ack sent k skip k1 next = k
        by_opcode other is_ack sent k skip k1 next = k

    tx_handler-IsTraced :
        (last : ℕ) (ms : List RdmaPingMsg) (poll : Option (List Completion)) (notified : Bool)
        (s : Server Nic SQ)
        → Traced last ms s
        → Traced last ms (server_process_tx_cqe verbs poll notified s).0
    unfolding server_process_tx_cqe
    tx_handler-IsTraced last ms none notified s k = k
    tx_handler-IsTraced last ms (some []) notified s k = k
    tx_handler-IsTraced last ms (some (c ∷ cs)) notified s k =
        cases (tx_cqe_loop verbs (c ∷ cs) s) (tx_cqe_loop-IsTraced last ms (c ∷ cs) s k)
      where
        cases :
            (r : Server Nic SQ × Exit)
            → Traced last ms r.0
            → let out : Server Nic SQ × Exit = (elim r.1 [
              | thrown ↦ (r.0, thrown)
              | done ↦ (r.0, notify notified)
            ]) in
              Traced last ms out.0
        cases (s', done) h = h
        cases (s', thrown) h = h

    tx_cqe_round-IsTraced :
        (last : ℕ) (ms : List RdmaPingMsg) (r : CqRound RdmaPingMsg) (s : Server Nic SQ)
        → Traced last ms s
        → Traced last ms (tx_cqe_round verbs try_enqueue cq_tx r s).0
    unfolding tx_cqe_round
    tx_cqe_round-IsTraced last ms r s k = elim (Bool-cases (wait_for_cq_event cq_tx r.event)) [
      | inl e ↦ rw (e, tx_cqe_round) (tx_handler-IsTraced last ms r.poll r.notified s k)
      | inr e ↦ rw (e, tx_cqe_round) k
    ]

    pub Reach-IsTraced :
        {first s : Server Nic SQ} {last : ℕ} {ms : List RdmaPingMsg}
        → IsValid 0 first.table.table
        → first.table.table.map ≡ []
        → ((m : RdmaPingMsg) → InQueue first.queue m → ⊥)
        → Reach verbs try_enqueue wait_dequeue_timed cq_rx cq_tx first last ms s
        → Traced last ms s
    Reach-IsTraced v empty idle start = record {
      valid = v;
      stored = rw empty tt;
      queued = λ m h. absurd (idle m h);
    }
    Reach-IsTraced v empty idle (receives {last} {ms} {s} r reached) =
        rx_round-IsTraced last ms r s (Reach-IsTraced v empty idle reached)
    Reach-IsTraced v empty idle (answers {last} {ms} {s} clocks reached l) =
        tx_round-IsTraced last ms clocks s l (Reach-IsTraced v empty idle reached)
    Reach-IsTraced v empty idle (completes {last} {ms} {s} r reached) =
        tx_cqe_round-IsTraced last ms r s (Reach-IsTraced v empty idle reached)
