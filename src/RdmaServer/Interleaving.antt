-- ===== src/RdmaServer/Interleaving.antt =====
-- The three threads of the RDMA server over one state, their rounds in any order: what the table holds
-- came in with the RX thread.
pub mod Receiving
pub mod Traced
pub mod Acks
use pingweave.Base.{
  ℕ, ◌≤◌, ◌≡◌, refl, sym, subst, ◌∙◌, ap, ◌⊎◌, inl, inr, Bool, true, false, not, Option, none, some,
  List, [], ◌∷◌, ◌++◌, arith, if◌then◌else◌, Bool-cases, Option-cases, All, length, ◌==◌,
}
use pingweave.Messages.{RdmaPingMsg, RdmaPongMsg, wrid_pong_ack}
use pingweave.PingMsgMap
use pingweave.PingMsgMap.{Pings, evict, value_of}
use pingweave.RdmaContext.{Verbs, Context, post_send}
use pingweave.RdmaServer.{
  Server, Completion, Opcode, recv, send, other, Exit, done, thrown, notify, addr_of, ack_of,
  rx_recv, rx_loop, server_process_rx_cqe, tx_step, forget, server_process_pong_cqe, tx_cqe_loop,
  server_process_tx_cqe,
}
use pingweave.RdmaServer.Threads.{CqRound, TxClocks, rx_round, tx_round, tx_cqe_round}
use pingweave.Devices.{wait_for_cq_event}
use pingweave.RdmaServer.Rx.{stamped}
use pingweave.Table.{Entry, find}
use pingweave.Table.Count.{All-remove, All-find, All-insert}
use pingweave.Table.Linked.{IsValid, remove-IsValid}
use pingweave.Table.Expire.{insert-IsValid}

abbrev pub IsAmong : List RdmaPingMsg → RdmaPingMsg → Type 0
IsAmong [] m = ⊥
IsAmong (x ∷ xs) m = (m ≡ x) ⊎ IsAmong xs m

pub IsAmong-left :
    (xs ys : List RdmaPingMsg) (m : RdmaPingMsg) → IsAmong xs m → IsAmong (xs ++ ys) m
IsAmong-left [] ys m h = absurd h
IsAmong-left (x ∷ xs) ys m (inl e) = inl e
IsAmong-left (x ∷ xs) ys m (inr h) = inr (IsAmong-left xs ys m h)

pub IsAmong-right :
    (xs ys : List RdmaPingMsg) (m : RdmaPingMsg) → IsAmong ys m → IsAmong (xs ++ ys) m
IsAmong-right [] ys m h = h
IsAmong-right (x ∷ xs) ys m h = inr (IsAmong-right xs ys m h)

-- The messages of the completions without error, each with the time of its completion.
abbrev pub arrivals : (ℕ → RdmaPingMsg) → Option (List Completion) → List RdmaPingMsg
arrivals received none = []
arrivals received (some []) = []
arrivals received (some (c ∷ cs)) =
    if c.status_ok
    then record (received c.wr_id) { time = c.time } ∷ arrivals received (some cs)
    else arrivals received (some cs)

-- An entry of the table: a message that is among these, under its own identity.
abbrev pub CameIn : List RdmaPingMsg → ℕ × Entry RdmaPingMsg → Type 0
CameIn ms p = IsAmong ms p.1.value × (p.0 ≡ p.1.value.pingid)

pub CameIn-later :
    (ms new : List RdmaPingMsg) (m : List (ℕ × Entry RdmaPingMsg))
    → All (CameIn ms) m
    → All (CameIn (ms ++ new)) m
CameIn-later ms new [] h = tt
CameIn-later ms new ((k, e) ∷ m) h =
    ((IsAmong-left ms new e.value h.0.0, h.0.1), CameIn-later ms new m h.1)

module _ {Nic SQ : Type 0} (verbs : Verbs Nic RdmaPongMsg)
    (try_enqueue : SQ → RdmaPingMsg → SQ × Bool) (wait_dequeue_timed : SQ → SQ × Option RdmaPingMsg)
    (cq_rx cq_tx : ℕ) where
  -- States of the server: the clock of the last PING stored, and the messages that have come in.
  pub data Reach (first : Server Nic SQ) : ℕ → List RdmaPingMsg → Server Nic SQ → Type 0 where
    start : Reach first 0 [] first
    receives :
        {last : ℕ} {ms : List RdmaPingMsg} {s : Server Nic SQ} (r : CqRound RdmaPingMsg)
        → Reach first last ms s
        → Reach first last
            (ms ++ arrivals r.received r.poll)
            (rx_round verbs try_enqueue cq_rx r s).0
    answers :
        {last : ℕ} {ms : List RdmaPingMsg} {s : Server Nic SQ} (clocks : TxClocks)
        → Reach first last ms s
        → last ≤ clocks.entry
        → Reach first clocks.entry ms (tx_round verbs wait_dequeue_timed clocks s).0
    completes :
        {last : ℕ} {ms : List RdmaPingMsg} {s : Server Nic SQ} (r : CqRound RdmaPingMsg)
        → Reach first last ms s
        → Reach first last ms (tx_cqe_round verbs try_enqueue cq_tx r s).0

  -- `InQueue q m`: the queue q has the message m. What it hands out it had, and it has only what was
  -- put in.
  module _ (InQueue : SQ → RdmaPingMsg → Type 0)
      (enqueue_lem : (q : SQ) (m x : RdmaPingMsg)
        → InQueue (try_enqueue q m).0 x
        → InQueue q x ⊎ (x ≡ m))
      (dequeue_lem : (q : SQ) (x : RdmaPingMsg) → InQueue (wait_dequeue_timed q).0 x → InQueue q x)
      (handed_lem : (q : SQ) (m : RdmaPingMsg)
        → (wait_dequeue_timed q).1 ≡ some m
        → InQueue q m) where
    pub record IsTraced (last : ℕ) (ms : List RdmaPingMsg) (s : Server Nic SQ) : Type 0 where
      pub valid : IsValid last s.table.table
      pub stored : All (CameIn ms) s.table.table.map
      pub queued : (m : RdmaPingMsg) → InQueue s.queue m → IsAmong ms m
