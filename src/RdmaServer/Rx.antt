-- ===== src/RdmaServer/Rx.antt =====
-- What the RX thread queues from a batch of completions.
use pingweave.Base.{
  ℕ, ◌≡◌, refl, ◌≢◌, inl, inr, Bool, true, some, List, [], ◌∷◌, ◌++◌, foldl, arith, if◌then◌else◌,
  Bool-cases, All,
}
use pingweave.Messages.{RdmaPingMsg, RdmaPongMsg}
use pingweave.RdmaContext.{Verbs}
use pingweave.RdmaServer.{
  Server, Completion, recv, done, thrown, notify, rx_recv, rx_loop, server_process_rx_cqe,
}

-- A completion that the loop gets past: an error, which is skipped, or a RECV.
abbrev pub IsExpected : Completion → Type 0
IsExpected c = (c.status_ok ≡ true) → (c.opcode ≡ recv)

module _ {Nic SQ : Type 0} (verbs : Verbs Nic RdmaPongMsg)
    (try_enqueue : SQ → RdmaPingMsg → SQ × Bool) (received : ℕ → RdmaPingMsg) where
  abbrev pub stamped : Completion → RdmaPingMsg
  stamped c = record (received c.wr_id) { time = c.time }

  -- The messages of the RECVs without error, in order, each with the time of its completion.
  abbrev pub messages : List Completion → List RdmaPingMsg
  messages [] = []
  messages (c ∷ cs) = if c.status_ok then stamped c ∷ messages cs else messages cs

  abbrev pub queue_all : SQ → List RdmaPingMsg → SQ
  queue_all = foldl (λ q m. (try_enqueue q m).0)

  rx_loop_expected :
      (cs : List Completion) (s : Server Nic SQ)
      → All IsExpected cs
      → let (s', exit) = rx_loop verbs try_enqueue received cs s in
        (exit ≡ done)
        × (s'.queue ≡ queue_all s.queue (messages cs))
        × (s'.table ≡ s.table)
        × (s'.tx ≡ s.tx)
  unfolding rx_loop
  rx_loop_expected [] s h = (refl, refl, refl, refl)
  rx_loop_expected (c ∷ cs) s h = elim (Bool-cases c.status_ok) [
    | inl b ↦ rw (b, h.0 b) (rx_loop_expected cs (rx_recv verbs try_enqueue received c s) h.1)
    | inr b ↦ rw b (rx_loop_expected cs s h.1)
  ]

  -- A batch with at least one completion, all of them errors or RECVs, offers exactly the messages
  -- of its RECVs to the internal queue, in order and each with its own completion's time; the
  -- table of pings and the TX context stay as they were. The handler returns if the next event
  -- could be asked for, and throws otherwise.
  pub rx_batch_lem :
      (c : Completion) (cs : List Completion) (notified : Bool) (s : Server Nic SQ)
      → All IsExpected (c ∷ cs)
      → let (s', exit) =
          server_process_rx_cqe verbs try_enqueue received (some (c ∷ cs)) notified s in
        (exit ≡ notify notified)
        × (s'.queue ≡ queue_all s.queue (messages (c ∷ cs)))
        × (s'.table ≡ s.table)
        × (s'.tx ≡ s.tx)
  unfolding server_process_rx_cqe
  rx_batch_lem c cs notified s h =
      let (e, q, t, x) = rx_loop_expected (c ∷ cs) s h in
      rw (e, server_process_rx_cqe) (refl, q, t, x)

  -- The first completion with another operation ends the handler by an exception, after the
  -- messages before it have been queued; what follows it in the batch is lost.
  pub rx_loop_unexpected :
      (cs ds : List Completion) (c : Completion) (s : Server Nic SQ)
      → All IsExpected cs
      → c.status_ok ≡ true
      → c.opcode ≢ recv
      → let (s', exit) = rx_loop verbs try_enqueue received (cs ++ (c ∷ ds)) s in
        (exit ≡ thrown) × (s'.queue ≡ queue_all s.queue (messages cs))
  unfolding rx_loop
  rx_loop_unexpected [] ds c s h b o = rw b (ground arith)
  rx_loop_unexpected (d ∷ cs) ds c s h b o = elim (Bool-cases d.status_ok) [
    | inl x ↦
        rw (x, h.0 x) (rx_loop_unexpected cs ds c (rx_recv verbs try_enqueue received d s) h.1 b o)
    | inr x ↦ rw x (rx_loop_unexpected cs ds c s h.1 b o)
  ]
