-- ===== src/RdmaServer/Delay.antt =====
-- From a PING to its ACK.
use pingweave.Base.{
  ℕ, ◌%◌, ◌≤◌, ◌≡◌, refl, sym, ap, ◌∙◌, Bool, true, false, none, some, success, failure, ◌==◌,
  if◌then◌else◌, ==_self, length,
}
use pingweave.Common.Delta.{IsElapsed, modulo-IsElapsed}
use pingweave.Messages.{RdmaPingMsg, RdmaPongMsg, RdmaAddr, opcode_ack, wrid_pong_ack}
use pingweave.Table.Linked.{IsValid}
use pingweave.Table.Expire.{insert-IsValid}
use pingweave.PingMsgMap
use pingweave.PingMsgMap.{Pings, evict}
use pingweave.PingMsgMap.Lookup.{get_young, get-insert, get-remove_key}
use pingweave.RdmaContext.{Verbs, Context, post_send}
use pingweave.RdmaServer.{Server, addr_of, ack_of, forget, tx_step, server_process_pong_cqe}

module _ {Nic SQ : Type 0} (verbs : Verbs Nic RdmaPongMsg) where
  -- The completion of a PONG whose ping is no longer stored sends nothing and reports no error.
  pub pong_cqe_missing :
      (wr_id t : ℕ) (s : Server Nic SQ)
      → PingMsgMap.get wr_id s.table ≡ none
      → let (s', r) = server_process_pong_cqe verbs wr_id t s in
        (r ≡ success) × (s'.tx ≡ s.tx) × (s'.queue ≡ s.queue)
  unfolding server_process_pong_cqe
  pong_cqe_missing wr_id t s h = rw (h, server_process_pong_cqe) (refl, refl, refl)

  abbrev pub sent_ack : ℕ → ℕ → RdmaPingMsg → Server Nic SQ → Context Nic RdmaPongMsg × Bool
  sent_ack wr_id t m s =
      post_send verbs s.tx (addr_of m) (ack_of wr_id t m) (wr_id % length s.tx.buf) wrid_pong_ack

  -- The posting of an ACK that says `d`, to the sender that a ping names.
  abbrev pub ack_posted : ℕ → ℕ → RdmaPingMsg → Server Nic SQ → Context Nic RdmaPongMsg × Bool
  ack_posted wr_id d m s =
      let dest : RdmaAddr = record { qpn = m.qpn; gid = m.gid; lid = m.lid } in
      let ack : RdmaPongMsg = record { opcode = opcode_ack; pingid = wr_id; server_delay = d } in
      post_send verbs s.tx dest ack (wr_id % length s.tx.buf) wrid_pong_ack

  pub sent_ack-posted :
      (wr_id t : ℕ) (m : RdmaPingMsg) (s : Server Nic SQ)
      → (d : ℕ) × IsElapsed m.time t d × (sent_ack wr_id t m s ≡ ack_posted wr_id d m s)
  sent_ack-posted wr_id t m s = (_, modulo-IsElapsed m.time t, refl)

  -- The completion of the PONG of a stored ping sends the ACK to the ping's sender, with the time
  -- since the arrival of the ping. If the send succeeds the ping is forgotten and no other is; if
  -- it fails the table stays as it was, and the failure is returned.
  pub pong_cqe_found :
      (wr_id t j : ℕ) (m : RdmaPingMsg) {now : ℕ} (s : Server Nic SQ)
      → IsValid now s.table.table
      → PingMsgMap.get wr_id s.table ≡ some m
      → let (s', r) = server_process_pong_cqe verbs wr_id t s in
        let (tx', sent) = sent_ack wr_id t m s in
        (r ≡ sent)
        × (s'.tx ≡ tx')
        × (PingMsgMap.get j s'.table ≡ (
            if sent
            then (if wr_id == j then none else PingMsgMap.get j s.table)
            else PingMsgMap.get j s.table))
  unfolding server_process_pong_cqe
  pong_cqe_found wr_id t j m s v h =
      rw (h, server_process_pong_cqe) (cases (sent_ack wr_id t m s).1)
    where
      cases :
          (b : Bool)
          → let s1 = record s { tx = (sent_ack wr_id t m s).0 } in
            let out : Server Nic SQ × Bool =
              if b then (forget verbs wr_id s1, success) else (s1, failure) in
            let (s', r) = out in
            (r ≡ b)
            × (s'.tx ≡ (sent_ack wr_id t m s).0)
            × (PingMsgMap.get j s'.table ≡ (
                if b
                then (if wr_id == j then none else PingMsgMap.get j s.table)
                else PingMsgMap.get j s.table))
      cases true = (refl, refl, get-remove_key wr_id j s.table v)
      cases false = (refl, refl, refl)

  -- The completion of a PONG, if it comes before the table changes again, finds its ping.
  pub tx_step-sent_ack :
      (m : RdmaPingMsg) (now_expire now t : ℕ) {last : ℕ} (s : Server Nic SQ)
      → last ≤ now
      → IsValid last s.table.table
      → get_young now_expire m.pingid s.table ≡ none
      → let s1 = (tx_step verbs m now_expire now s).0 in
        let (s2, r) = server_process_pong_cqe verbs m.pingid t s1 in
        (s2.tx ≡ (sent_ack m.pingid t m s1).0)
        × (r ≡ (sent_ack m.pingid t m s1).1)
        × (r ≡ success → PingMsgMap.get m.pingid s2.table ≡ none)
  unfolding tx_step
  tx_step-sent_ack m now_expire now t {last} s l v h =
      let s1 = (tx_step verbs m now_expire now s).0 in
      let stored : PingMsgMap.get m.pingid s1.table ≡ some m =
        (get-insert m.pingid m.pingid m now_expire now s.table v h).1 ∙ rw (==_self m.pingid) in
      let v' : IsValid now s1.table.table =
        unfold PingMsgMap.insert in insert-IsValid evict m.pingid m now_expire now s.table l v in
      let (a, b, c) = pong_cqe_found m.pingid t m.pingid m s1 v' stored in
      (b, a, λ k. c ∙ rw (sym a ∙ k, ==_self m.pingid))

  -- A PING whose identity is not in use is stored by the TX thread, and the completion of its PONG, if
  -- it comes before the table changes again, posts an ACK to the address in the PING, with its identity
  -- and the time from its arrival to that completion (modulo 2^32). The handler returns what the post
  -- returns; after a success the table has the ping no more.
  pub tx_step-pong_cqe :
      (m : RdmaPingMsg) (now_expire now t : ℕ) {last : ℕ} (s : Server Nic SQ)
      → last ≤ now
      → IsValid last s.table.table
      → get_young now_expire m.pingid s.table ≡ none
      → let s1 = (tx_step verbs m now_expire now s).0 in
        let (s2, r) = server_process_pong_cqe verbs m.pingid t s1 in
        (d : ℕ) × IsElapsed m.time t d
        × (s2.tx ≡ (ack_posted m.pingid d m s1).0)
        × (r ≡ (ack_posted m.pingid d m s1).1)
        × (r ≡ success → PingMsgMap.get m.pingid s2.table ≡ none)
  tx_step-pong_cqe m now_expire now t s l v h =
      let s1 = (tx_step verbs m now_expire now s).0 in
      let (d, elapsed, same) = sent_ack-posted m.pingid t m s1 in
      let (a, b, c) = tx_step-sent_ack m now_expire now t s l v h in
      (d, elapsed, a ∙ ap (λ p. p.0) same, b ∙ ap (λ p. p.1) same, c)
