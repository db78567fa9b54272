-- ===== src/RdmaServer/Interleaving/Acks.antt =====
-- The ACKs that the server sends, over rounds of its threads in any order.
use pingweave.Base.{
  ℕ, ◌≡◌, subst, ap, sym, ◌∙◌, ◌⊎◌, inl, inr, Bool, Option, none, some, List, [], Option-cases,
}
use pingweave.Common.Delta.{IsElapsed}
use pingweave.Messages.{RdmaPingMsg, RdmaPongMsg}
use pingweave.PingMsgMap
use pingweave.PingMsgMap.{Pings}
use pingweave.RdmaContext.{Verbs}
use pingweave.RdmaServer.{Server, server_process_pong_cqe}
use pingweave.RdmaServer.Delay.{ack_posted, sent_ack-posted, pong_cqe_missing, pong_cqe_found}
use pingweave.RdmaServer.Interleaving.{IsAmong, CameIn, Reach}
use pingweave.RdmaServer.Interleaving.Traced.{Reach-IsTraced}
use pingweave.Table.{Entry, find}
use pingweave.Table.Count.{All-find}
use pingweave.Table.Linked.{IsValid}

found_entry :
    (key : ℕ) (m : RdmaPingMsg) (s : Pings)
    → PingMsgMap.get key s ≡ some m
    → (e : Entry RdmaPingMsg) × (find key s.table.map ≡ some e) × (e.value ≡ m)
unfolding PingMsgMap.get
found_entry key m s h = elim (Option-cases (find key s.table.map)) [
  | inl nothing ↦ absurd (no_value (rw nothing at h))
  | inr (e, there) ↦ (e, there, same e (rw there at h))
]
  where
    no_value : none ≡ some m → ⊥
    no_value k = cc

    same : (e : Entry RdmaPingMsg) → some e.value ≡ some m → e.value ≡ m
    same e k = cc

module _ {Nic SQ : Type 0} (verbs : Verbs Nic RdmaPongMsg)
    (try_enqueue : SQ → RdmaPingMsg → SQ × Bool) (wait_dequeue_timed : SQ → SQ × Option RdmaPingMsg)
    (cq_rx cq_tx : ℕ) where
  module _ (InQueue : SQ → RdmaPingMsg → Type 0)
      (enqueue_lem : (q : SQ) (m x : RdmaPingMsg)
        → InQueue (try_enqueue q m).0 x
        → InQueue q x ⊎ (x ≡ m))
      (dequeue_lem : (q : SQ) (x : RdmaPingMsg) → InQueue (wait_dequeue_timed q).0 x → InQueue q x)
      (handed_lem : (q : SQ) (m : RdmaPingMsg)
        → (wait_dequeue_timed q).1 ≡ some m
        → InQueue q m) where
    -- In every state that the rounds of the three threads lead to from an empty table and an idle queue,
    -- whatever their order, with the clock of the stored PINGs not going back: the completion of a send
    -- either posts nothing, or posts an ACK to the address in a PING that has come in with this
    -- identity, saying the time from that PING's arrival to the completion (modulo 2^32). The queue hands
    -- out only what was put in.
    pub acks_lem :
        {first s : Server Nic SQ} {last : ℕ} {ms : List RdmaPingMsg} (wr_id t : ℕ)
        → IsValid 0 first.table.table
        → first.table.table.map ≡ []
        → ((m : RdmaPingMsg) → InQueue first.queue m → ⊥)
        → Reach verbs try_enqueue wait_dequeue_timed cq_rx cq_tx first last ms s
        → let s' = (server_process_pong_cqe verbs wr_id t s).0 in
          (s'.tx ≡ s.tx)
          ⊎ ((m : RdmaPingMsg) × IsAmong ms m
              × (m.pingid ≡ wr_id)
              × (d : ℕ) × IsElapsed m.time t d
              × (s'.tx ≡ (ack_posted verbs wr_id d m s).0))
    acks_lem {first} {s} {last} {ms} wr_id t v empty idle reached =
        let k =
          Reach-IsTraced verbs try_enqueue wait_dequeue_timed cq_rx cq_tx InQueue enqueue_lem
            dequeue_lem handed_lem v empty idle reached in
        elim (Option-cases (PingMsgMap.get wr_id s.table)) [
          | inl e ↦ inl (pong_cqe_missing verbs wr_id t s e).1
          | inr (m, e) ↦
              let (entry, there, same) = found_entry wr_id m s.table e in
              let (among, own) =
                All-find (CameIn ms) wr_id s.table.table.map entry k.stored there in
              let (d, elapsed, posted) = sent_ack-posted verbs wr_id t m s in
              inr (
                m,
                subst (IsAmong ms) same among,
                sym (own ∙ ap (λ x. x.pingid) same),
                d,
                elapsed,
                (pong_cqe_found verbs wr_id t wr_id m s k.valid e).1 ∙ ap (λ p. p.0) posted,
              )
        ]
