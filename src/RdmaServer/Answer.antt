-- ===== src/RdmaServer/Answer.antt =====
-- What a PING makes the RDMA server send: through the rounds of its three threads, and the buffers
-- that the NIC sends from.
use pingweave.Base.{
  ℕ, ◌%◌, ◌<◌, ◌≤◌, ◌≡◌, ◌≢◌, refl, sym, ◌∙◌, ap, subst, Bool, true, false, Option, none, some, [],
  ◌∷◌, inl, inr, Bool-cases, arith, length, get_or, success, ◌==◌, if◌then◌else◌,
}
use pingweave.Messages.{RdmaPingMsg, RdmaPongMsg, opcode_pong, wrid_pong_ack}
use pingweave.PingMsgMap
use pingweave.PingMsgMap.Lookup.{get_young}
use pingweave.RdmaContext.{Verbs, Context, post_recv}
use pingweave.RdmaContext.Posted.{post_send-written}
use pingweave.RdmaServer.{
  Server, Completion, recv, send, Exit, done, thrown, addr_of, ack_of, rx_recv, rx_loop,
  server_process_rx_cqe, tx_step, server_process_pong_cqe, tx_cqe_loop, server_process_tx_cqe,
  notify,
}
use pingweave.RdmaServer.Delay.{sent_ack, tx_step-sent_ack}
use pingweave.RdmaServer.Threads.{TxClocks, tx_round}
use pingweave.Table.Linked.{IsValid}

abbrev pub received_at : ℕ → ℕ → Completion
received_at wr_id time = record { status_ok = true; opcode = recv; wr_id = wr_id; time = time }

abbrev pub sent_at : ℕ → ℕ → Completion
sent_at wr_id time = record { status_ok = true; opcode = send; wr_id = wr_id; time = time }

abbrev pub pong_of : ℕ → RdmaPongMsg
pong_of pingid = record { opcode = opcode_pong; pingid = pingid; server_delay = 0 }

-- The buffer from which the messages of a ping are sent; `before` stands for one that is not there.
abbrev pub buffer_of : {Nic M : Type 0} → M → ℕ → Context Nic M → M
buffer_of before pingid ctx = get_or ctx.buf (pingid % length ctx.buf) before

exit-done : (b : Bool) → ◌≡◌ {A = Exit} (if b then done else thrown) done → b ≡ true
exit-done true h = refl
exit-done false h = absurd (cc)

pub mod_below : (k n : ℕ) → 0 < n → k % n < n
mod_below k n h = grind arith

module _ {Nic SQ : Type 0} (verbs : Verbs Nic RdmaPongMsg) where
  -- The completion of one PONG, as the loop and the handler of the queue meet it.
  tx_cqe_loop_one :
      (wr_id t : ℕ) (s : Server Nic SQ)
      → wr_id ≢ wrid_pong_ack
      → tx_cqe_loop verbs (sent_at wr_id t ∷ []) s ≡ (
        (server_process_pong_cqe verbs wr_id t s).0,
        if (server_process_pong_cqe verbs wr_id t s).1 then done else thrown,
      )
  unfolding tx_cqe_loop
  tx_cqe_loop_one wr_id t s other =
      let not_ack : (wr_id == wrid_pong_ack) ≡ false = ground arith in
      let sent = (server_process_pong_cqe verbs wr_id t s).1 in
      rw (not_ack, tx_cqe_loop)
        (elim (Bool-cases sent) [
          | inl e ↦ rw (e, tx_cqe_loop) refl
          | inr e ↦ rw (e, tx_cqe_loop) refl
        ])

  tx_cqe_one :
      (wr_id t : ℕ) (s : Server Nic SQ)
      → wr_id ≢ wrid_pong_ack
      → let (s', exit) = server_process_tx_cqe verbs (some (sent_at wr_id t ∷ [])) true s in
        let (s1, sent) = server_process_pong_cqe verbs wr_id t s in
        exit ≡ done → (s' ≡ s1) × (sent ≡ success)
  unfolding server_process_tx_cqe
  tx_cqe_one wr_id t s other h =
      let e =
        same_exit (tx_cqe_loop verbs (sent_at wr_id t ∷ []) s) ∙ tx_cqe_loop_one wr_id t s other in
      (ap (λ r. r.0) e, exit-done _ (sym (ap (λ r. r.1) e) ∙ h))
    where
      same_exit :
          (r : Server Nic SQ × Exit)
          → let out : Server Nic SQ × Exit = (elim r.1 [
            | thrown ↦ (r.0, thrown)
            | done ↦ (r.0, notify true)
          ]) in
            out ≡ r
      same_exit (s', done) = refl
      same_exit (s', thrown) = refl

  sent_ack-written :
      (wr_id t : ℕ) (m : RdmaPingMsg) (before : RdmaPongMsg) (s : Server Nic SQ)
      → 0 < length s.tx.buf
      → (sent_ack verbs wr_id t m s).1 ≡ success
      → buffer_of before wr_id (sent_ack verbs wr_id t m s).0 ≡ ack_of wr_id t m
  sent_ack-written wr_id t m before s some_buffer h =
      let i = wr_id % length s.tx.buf in
      let (l, w) =
        post_send-written verbs s.tx (addr_of m) (ack_of wr_id t m) before i wrid_pong_ack in
      rw l (w h (mod_below wr_id (length s.tx.buf) some_buffer))

  -- A PONG that could be posted is in its buffer, and the number of buffers is the same.
  tx_step-written :
      (m : RdmaPingMsg) (expiry entry : ℕ) (before : RdmaPongMsg) (s : Server Nic SQ)
      → 0 < length s.tx.buf
      → let (s', exit) = tx_step verbs m expiry entry s in
        exit ≡ done → (buffer_of before m.pingid s'.tx ≡ pong_of m.pingid) × (0 < length s'.tx.buf)
  unfolding tx_step
  tx_step-written m expiry entry before s some_buffer h =
      let i = m.pingid % length s.tx.buf in
      let (l, w) = post_send-written verbs s.tx (addr_of m) (pong_of m.pingid) before i m.pingid in
      let done_so = exit-done _ h in
      (rw l (w done_so (mod_below m.pingid (length s.tx.buf) some_buffer)), rw l some_buffer)

module _ {Nic SQ : Type 0} (verbs : Verbs Nic RdmaPongMsg)
    (try_enqueue : SQ → RdmaPingMsg → SQ × Bool)
    (wait_dequeue_timed : SQ → SQ × Option RdmaPingMsg) where
  -- The three rounds for a PING that arrives in buffer `w`: of the RX thread at its arrival, of the TX
  -- thread, and of the TX CQE thread when the PONG has left at time t.
  abbrev pub after_rx : ℕ → ℕ → RdmaPingMsg → Server Nic SQ → Server Nic SQ
  after_rx w arrival m s =
      (server_process_rx_cqe verbs try_enqueue (λ _. m) (some (received_at w arrival ∷ [])) true
        s).0

  abbrev pub after_tx : TxClocks → Server Nic SQ → Server Nic SQ × Exit
  after_tx clocks s = tx_round verbs wait_dequeue_timed clocks s

  abbrev pub after_cqe : ℕ → ℕ → Server Nic SQ → Server Nic SQ × Exit
  after_cqe pingid t s = server_process_tx_cqe verbs (some (sent_at pingid t ∷ [])) true s

  -- The server when the TX thread has taken the PING out of the queue.
  abbrev pub handed_on : ℕ → RdmaPingMsg → Server Nic SQ → Server Nic SQ
  handed_on w arrived s = record s {
    rx = (post_recv verbs s.rx w 1).0;
    queue = (wait_dequeue_timed (try_enqueue s.queue arrived).0).0;
  }

  after_tx-after_rx :
      (m : RdmaPingMsg) (w arrival : ℕ) (clocks : TxClocks) (s : Server Nic SQ)
      → let arrived = record m { time = arrival } in
        (wait_dequeue_timed (try_enqueue s.queue arrived).0).1 ≡ some arrived
        → after_tx clocks (after_rx w arrival m s)
          ≡ tx_step verbs arrived clocks.expiry clocks.entry (handed_on w arrived s)
  unfolding server_process_rx_cqe rx_loop rx_recv tx_round
  after_tx-after_rx m w arrival clocks s handed = rw (handed, tx_round) refl

  -- A PING whose identity is not in use, and that the queue hands on: if both posts succeed, its PONG
  -- and then its ACK, with the time from the arrival to the completion of the PONG, stand in the
  -- buffers they are sent from, and the ping is forgotten.
  pub ping_answered :
      (m : RdmaPingMsg) (w arrival t : ℕ) (clocks : TxClocks) (before : RdmaPongMsg) {last : ℕ}
      (s : Server Nic SQ)
      → let arrived = record m { time = arrival } in
        (wait_dequeue_timed (try_enqueue s.queue arrived).0).1 ≡ some arrived
        → last ≤ clocks.entry
        → IsValid last s.table.table
        → get_young clocks.expiry m.pingid s.table ≡ none
        → m.pingid ≢ wrid_pong_ack
        → 0 < length s.tx.buf
        → let (s2, e2) = after_tx clocks (after_rx w arrival m s) in
          let (s3, e3) = after_cqe m.pingid t s2 in
          e2 ≡ done
          → e3 ≡ done
          → (buffer_of before m.pingid s2.tx ≡ pong_of m.pingid)
            × (buffer_of before m.pingid s3.tx ≡ ack_of m.pingid t arrived)
            × (PingMsgMap.get m.pingid s3.table ≡ none)
  ping_answered m w arrival t clocks before s handed l v free other some_buffer h2 h3 =
      let arrived = record m { time = arrival } in
      let s1 = handed_on w arrived s in
      let taken = after_tx-after_rx m w arrival clocks s handed in
      let s2 = (after_tx clocks (after_rx w arrival m s)).0 in
      let posted = sym (ap (λ r. r.1) taken) ∙ h2 in
      let (written, some_left) =
        tx_step-written verbs arrived clocks.expiry clocks.entry before s1 some_buffer posted in
      let (tx', r, gone) =
        subst
          (λ x.
            let (s3, sent) = server_process_pong_cqe verbs m.pingid t x.0 in
            (s3.tx ≡ (sent_ack verbs m.pingid t arrived x.0).0)
            × (sent ≡ (sent_ack verbs m.pingid t arrived x.0).1)
            × (sent ≡ success → PingMsgMap.get m.pingid s3.table ≡ none))
          (sym taken) (tx_step-sent_ack verbs arrived clocks.expiry clocks.entry t s1 l v free) in
      let (same, sent) = tx_cqe_one verbs m.pingid t s2 other h3 in
      (
        ap (λ x. buffer_of before m.pingid x.0.tx) taken ∙ written,
        ap (λ x. buffer_of before m.pingid x.tx) same
            ∙ ap (buffer_of before m.pingid) tx'
            ∙ sent_ack-written verbs m.pingid t arrived before s2
                (subst (λ x. 0 < length x.0.tx.buf) (sym taken) some_left) (sym r ∙ sent),
        ap (λ x. PingMsgMap.get m.pingid x.table) same ∙ gone sent,
      )
