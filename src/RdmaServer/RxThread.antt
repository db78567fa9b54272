-- ===== src/RdmaServer/RxThread.antt =====
-- The RX thread of the RDMA server over its whole life.
use pingweave.Base.{
  ℕ, zero, suc, ◌+◌, arith, sym, ◌≡◌, refl, ap, ◌∙◌, inl, inr, Bool, true, false, ◌&&◌, Option,
  some, none, List, [], ◌∷◌, if◌then◌else◌, All, length, Bool-cases,
}
use pingweave.Devices.{wait_for_cq_event}
use pingweave.Messages.{RdmaPingMsg, RdmaPongMsg}
use pingweave.RdmaContext.{Verbs, Context, post_recv}
use pingweave.RdmaServer.{Server, Completion, done}
use pingweave.RdmaServer.Rx.{IsExpected, messages, queue_all, rx_batch_lem}
use pingweave.RdmaServer.Threads.{CqRound, post_all, rx_round, rdma_server_rx_thread}
use pingweave.Threads.{running, escaped, thread_loop}

-- The event is that of the queue, there are completions, none of another kind than a RECV, and the
-- next event can be asked for.
abbrev pub IsGoodRound : ℕ → CqRound RdmaPingMsg → Type 0
IsGoodRound cq r =
    (wait_for_cq_event cq r.event ≡ true)
    × (r.notified ≡ true)
    × (c : Completion) × (cs : List Completion) × (r.poll ≡ some (c ∷ cs))
    × All IsExpected (c ∷ cs)

module _ {Nic SQ : Type 0} (verbs : Verbs Nic RdmaPongMsg)
    (try_enqueue : SQ → RdmaPingMsg → SQ × Bool) (cq : ℕ) where
  -- The queue after the messages of the RECVs of one round, and of several, in order.
  abbrev pub queue_poll : SQ → CqRound RdmaPingMsg → Option (List Completion) → SQ
  queue_poll q r none = q
  queue_poll q r (some cs) =
      queue_all verbs try_enqueue r.received q (messages verbs try_enqueue r.received cs)

  abbrev pub queue_rounds : SQ → List (CqRound RdmaPingMsg) → SQ
  queue_rounds q [] = q
  queue_rounds q (r ∷ rs) = queue_rounds (queue_poll q r r.poll) rs

  good_round :
      (r : CqRound RdmaPingMsg) (s : Server Nic SQ)
      → IsGoodRound cq r
      → let (s', exit) = rx_round verbs try_enqueue cq r s in
        (exit ≡ done)
        × (s'.queue ≡ queue_poll s.queue r r.poll)
        × (s'.table ≡ s.table)
        × (s'.tx ≡ s.tx)
  unfolding rx_round
  good_round r s (event, notified, c, cs, polled, expected) =
      rw (event, rx_round, polled, notified)
        (rx_batch_lem verbs try_enqueue r.received c cs true s expected)

  good_loop :
      (rs : List (CqRound RdmaPingMsg)) (s : Server Nic SQ)
      → All (IsGoodRound cq) rs
      → let o = thread_loop (rx_round verbs try_enqueue cq) rs s in
        (o.ending ≡ running)
        × (o.thread_alive ≡ true)
        × (o.state.queue ≡ queue_rounds s.queue rs)
        × (o.state.table ≡ s.table)
        × (o.state.tx ≡ s.tx)
  unfolding thread_loop
  good_loop [] s h = (refl, refl, refl, refl, refl)
  good_loop (r ∷ rs) s h =
      let (e, q, t, x) = good_round r s h.0 in
      let (ending, alive, queue, table, tx) =
        good_loop rs (rx_round verbs try_enqueue cq r s).0 h.1 in
      rw (e, thread_loop) (ending, alive, queue ∙ ap (λ y. queue_rounds y rs) q, table ∙ t, tx ∙ x)

  -- Whether the NIC takes one receive request for each buffer, `n` from buffer `i` on, in order.
  unfoldable pub nic_takes : Nic → ℕ → ℕ → Bool
  nic_takes nic zero i = true
  nic_takes nic (suc n) i =
      let (nic', taken) = verbs.post_recv_wr nic i in
      let rest = nic_takes nic' n (i + 1) in taken && rest

  post_all-nic_takes :
      (n i : ℕ) (ctx : Context Nic RdmaPongMsg) → (post_all verbs n i ctx).1 ≡ nic_takes ctx.nic n i
  unfolding post_all post_recv nic_takes
  post_all-nic_takes zero i ctx = refl
  post_all-nic_takes (suc n) i ctx =
      let (nic', taken) = verbs.post_recv_wr ctx.nic i in
      ground (arith, post_all-nic_takes n (i + 1) (record ctx { nic = nic' }))

  -- The RX thread of the server, from its start, over rounds that each bring an event of the queue and
  -- completions that are RECVs or errors, and can ask for the next event: if the NIC takes a receive
  -- request for every buffer, in order, and the first event can be asked for, it is running with its
  -- flag up, has offered to the queue exactly the messages of all the RECVs without error, in order and
  -- each with its completion's time, and has touched neither the table nor the TX context. If not, an
  -- exception leaves it at once with its flag down, and nothing was offered.
  pub rdma_server_rx_thread_lem :
      (armed : Bool) (rs : List (CqRound RdmaPingMsg)) (s : Server Nic SQ)
      → All (IsGoodRound cq) rs
      → let o = rdma_server_rx_thread verbs try_enqueue cq armed rs s in
        (o.state.table ≡ s.table)
        × (o.state.tx ≡ s.tx)
        × (if nic_takes s.rx.nic (length s.rx.buf) 0 && armed
            then (o.ending ≡ running)
              × (o.thread_alive ≡ true)
              × (o.state.queue ≡ queue_rounds s.queue rs)
            else (o.ending ≡ escaped) × (o.thread_alive ≡ false) × (o.state.queue ≡ s.queue))
  unfolding rdma_server_rx_thread
  rdma_server_rx_thread_lem armed rs s h =
      let (rx', posted) = post_all verbs (length s.rx.buf) 0 s.rx in
      let (ending, alive, queue, table, tx) = good_loop rs (record s { rx = rx' }) h in
      let same = post_all-nic_takes (length s.rx.buf) 0 s.rx in
      elim (Bool-cases posted) [
        | inr e ↦ rw (e, sym same ∙ e) (refl, refl, (refl, refl, refl))
        | inl e ↦
            rw (e, sym same ∙ e)
              (elim (Bool-cases armed) [
                | inl a ↦ rw a (table, tx, (ending, alive, queue))
                | inr a ↦ rw a (refl, refl, (refl, refl, refl))
              ])
      ]
