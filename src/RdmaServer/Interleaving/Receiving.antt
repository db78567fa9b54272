-- ===== src/RdmaServer/Interleaving/Receiving.antt =====
-- A round of the RX thread: what it puts into the queue came in with it.
use pingweave.Base.{
  ℕ, ◌≡◌, refl, sym, subst, ◌⊎◌, inl, inr, Bool, Option, none, some, List, [], ◌∷◌, ◌++◌, arith,
  Bool-cases, All,
}
use pingweave.Messages.{RdmaPingMsg, RdmaPongMsg}
use pingweave.RdmaContext.{Verbs}
use pingweave.RdmaServer.{
  Server, Completion, Opcode, recv, send, other, Exit, done, thrown, notify, rx_recv, rx_loop,
  server_process_rx_cqe,
}
use pingweave.RdmaServer.Threads.{CqRound}
use pingweave.Table.Linked.{IsValid}
use pingweave.RdmaServer.Interleaving.{
  IsAmong, IsAmong-left, IsAmong-right, arrivals, CameIn, CameIn-later, IsTraced,
}

module _ {Nic SQ : Type 0} (verbs : Verbs Nic RdmaPongMsg)
    (try_enqueue : SQ → RdmaPingMsg → SQ × Bool) (wait_dequeue_timed : SQ → SQ × Option RdmaPingMsg)
    (cq_rx cq_tx : ℕ) where
  module _ (InQueue : SQ → RdmaPingMsg → Type 0)
      (enqueue_lem : (q : SQ) (m x : RdmaPingMsg)
        → InQueue (try_enqueue q m).0 x
        → InQueue q x ⊎ (x ≡ m))
      (dequeue_lem : (q : SQ) (x : RdmaPingMsg) → InQueue (wait_dequeue_timed q).0 x → InQueue q x)
      (handed_lem : (q : SQ) (m : RdmaPingMsg)
        → (wait_dequeue_timed q).1 ≡ some m
        → InQueue q m) where
    abbrev Traced : ℕ → List RdmaPingMsg → Server Nic SQ → Type 0
    Traced =
        IsTraced verbs try_enqueue wait_dequeue_timed cq_rx cq_tx InQueue enqueue_lem dequeue_lem
          handed_lem

    rx_loop-queued :
        (received : ℕ → RdmaPingMsg) (cs : List Completion) (s : Server Nic SQ) (m : RdmaPingMsg)
        → InQueue (rx_loop verbs try_enqueue received cs s).0.queue m
        → InQueue s.queue m ⊎ IsAmong (arrivals received (some cs)) m
    unfolding rx_loop rx_recv
    rx_loop-queued received [] s m h = inl h
    rx_loop-queued received (c ∷ cs) s m h = elim (Bool-cases c.status_ok) [
      | inl b ↦ rw b (
          by_opcode c.opcode (rw b at h) λ k.
            elim (rx_loop-queued received cs (rx_recv verbs try_enqueue received c s) m k) [
              | inl q ↦
                  elim (enqueue_lem s.queue (record (received c.wr_id) { time = c.time }) m q) [
                    | inl old ↦ inl old
                    | inr e ↦ inr (inl e)
                  ]
              | inr later ↦ inr (inr later)
            ])
      | inr b ↦ rw b (rx_loop-queued received cs s m (rw b at h))
    ]
      where
        by_opcode :
            {R : Type 0} (o : Opcode)
            → let r : Server Nic SQ × Exit = (elim o [
              | recv ↦
                  rx_loop verbs try_enqueue received cs (rx_recv verbs try_enqueue received c s)
              | _ ↦ (s, thrown)
            ]) in
              InQueue r.0.queue m
              → (InQueue
                    (rx_loop verbs try_enqueue received cs
                      (rx_recv verbs try_enqueue received c s)).0.queue
                    m
                  → InQueue s.queue m ⊎ R)
              → InQueue s.queue m ⊎ R
        by_opcode recv h k = k h
        by_opcode send h k = inl h
        by_opcode other h k = inl h

    rx_loop-table :
        (received : ℕ → RdmaPingMsg) (cs : List Completion) (s : Server Nic SQ)
        → (rx_loop verbs try_enqueue received cs s).0.table ≡ s.table
    unfolding rx_loop rx_recv
    rx_loop-table received [] s = refl
    rx_loop-table received (c ∷ cs) s = ground (
      arith,
      rx_loop-table received cs s,
      rx_loop-table received cs (rx_recv verbs try_enqueue received c s),
    )

    -- The handler leaves the state as the loop does.
    rx_handler-loop :
        (received : ℕ → RdmaPingMsg) (poll : Option (List Completion)) (notified : Bool)
        (s : Server Nic SQ)
        → ((server_process_rx_cqe verbs try_enqueue received poll notified s).0 ≡ s)
          ⊎ ((cs : List Completion) × (poll ≡ some cs)
              × ((server_process_rx_cqe verbs try_enqueue received poll notified s).0
                  ≡ (rx_loop verbs try_enqueue received cs s).0))
    unfolding server_process_rx_cqe
    rx_handler-loop received none notified s = inl refl
    rx_handler-loop received (some []) notified s = inl refl
    rx_handler-loop received (some (c ∷ cs)) notified s =
        inr (c ∷ cs, refl, cases (rx_loop verbs try_enqueue received (c ∷ cs) s))
      where
        cases :
            (r : Server Nic SQ × Exit)
            → let out : Server Nic SQ × Exit = (elim r.1 [
              | thrown ↦ (r.0, thrown)
              | done ↦ (r.0, notify notified)
            ]) in
              out.0 ≡ r.0
        cases (s', done) = refl
        cases (s', thrown) = refl

    IsTraced-later :
        (last : ℕ) (ms new : List RdmaPingMsg) (s : Server Nic SQ)
        → Traced last ms s
        → Traced last (ms ++ new) s
    IsTraced-later last ms new s k = record {
      valid = k.valid;
      stored = CameIn-later ms new s.table.table.map k.stored;
      queued = λ m h. IsAmong-left ms new m (k.queued m h);
    }

    pub handler-IsTraced :
        (last : ℕ) (ms : List RdmaPingMsg) (r : CqRound RdmaPingMsg) (s : Server Nic SQ)
        → Traced last ms s
        → Traced last
            (ms ++ arrivals r.received r.poll)
            (server_process_rx_cqe verbs try_enqueue r.received r.poll r.notified s).0
    handler-IsTraced last ms r s k = elim (rx_handler-loop r.received r.poll r.notified s) [
      | inl same ↦
          subst (Traced last (ms ++ arrivals r.received r.poll)) (sym same)
            (IsTraced-later last ms (arrivals r.received r.poll) s k)
      | inr (cs, polled, same) ↦
          let s' = (rx_loop verbs try_enqueue r.received cs s).0 in
          let after = (server_process_rx_cqe verbs try_enqueue r.received r.poll r.notified s).0 in
          let kept : s'.table ≡ s.table = rx_loop-table r.received cs s in
          subst (λ p. Traced last (ms ++ arrivals r.received p) after) (sym polled)
            (subst (Traced last (ms ++ arrivals r.received (some cs))) (sym same) (record {
              valid = subst (λ t. IsValid last t.table) (sym kept) k.valid;
              stored =
                  subst (λ t. All (CameIn (ms ++ arrivals r.received (some cs))) t.table.map)
                    (sym kept)
                    (CameIn-later ms (arrivals r.received (some cs)) s.table.table.map k.stored);
              queued = λ m h. elim (rx_loop-queued r.received cs s m h) [
                | inl old ↦ IsAmong-left ms (arrivals r.received (some cs)) m (k.queued m old)
                | inr new ↦ IsAmong-right ms (arrivals r.received (some cs)) m new
              ];
            }))
    ]
