-- ===== src/RdmaClient/Batch.antt =====
-- What the RX thread does with a batch of completions.
use pingweave.Base.{
  ℕ, zero, suc, ◌≡◌, refl, ap, ◌∙◌, inl, inr, Bool, some, List, [], ◌∷◌, if◌then◌else◌, Bool-cases,
  All,
}
use pingweave.Common.{Net}
use pingweave.Messages.{RdmaPingMsg, RdmaPongMsg, RdmaResultMsg}
use pingweave.Table.{Store}
use pingweave.RdmaContext.{Verbs, Context, post_recv}
use pingweave.RdmaPinginfoMap.{RdmaPinginfo}
use pingweave.RdmaServer.{Completion, done, notify}
use pingweave.RdmaServer.Rx.{IsExpected}
use pingweave.RdmaClient.{Client, handle_received_message, rx_recv, rx_loop, client_process_rx_cqe}

pub post_recv-keeps :
    {Nic M : Type 0} (verbs : Verbs Nic M) (ctx : Context Nic M) (wr_id n : ℕ)
    → (post_recv verbs ctx wr_id n).0.rnic_hw_ts ≡ ctx.rnic_hw_ts
unfolding post_recv
post_recv-keeps verbs ctx wr_id zero = refl
post_recv-keeps verbs ctx wr_id (suc n) =
    let (nic', posted) = verbs.post_recv_wr ctx.nic wr_id in
    elim (Bool-cases posted) [
      | inl e ↦ rw (post_recv, e) (post_recv-keeps verbs (record ctx { nic = nic' }) wr_id n)
      | inr e ↦ rw (post_recv, e) refl
    ]

module _ {Nic Q : Type 0} (verbs : Verbs Nic RdmaPingMsg)
    (try_enqueue : Q → RdmaResultMsg → Q × Bool) (net : Net) (received : ℕ → RdmaPongMsg) where
  -- The table after the messages of the RECVs without error, in order.
  abbrev pub handle_all : Bool → List (Completion × ℕ) → Store RdmaPinginfo Q → Store RdmaPinginfo Q
  handle_all hw [] s = s
  handle_all hw ((c, now) ∷ cs) s = handle_all hw cs (
      if c.status_ok
      then handle_received_message try_enqueue net (received c.wr_id) now
          (if hw then c.time else now) s
      else s)

  rx_loop_expected :
      (hw : Bool) (cs : List (Completion × ℕ)) (s : Client Nic Q)
      → s.rx.rnic_hw_ts ≡ hw
      → All (λ c. IsExpected c.0) cs
      → let (s', exit) = rx_loop verbs try_enqueue net received cs s in
        (exit ≡ done) × (s'.store ≡ handle_all hw cs s.store) × (s'.tx ≡ s.tx)
  unfolding rx_loop rx_recv
  rx_loop_expected hw [] s t h = (refl, refl, refl)
  rx_loop_expected hw ((c, now) ∷ cs) s t h = elim (Bool-cases c.status_ok) [
    | inl b ↦
        let s1 = rx_recv verbs try_enqueue net received c now s in
        let kept : s1.rx.rnic_hw_ts ≡ hw = post_recv-keeps verbs s.rx c.wr_id 1 ∙ t in
        let (e, r, x) = rx_loop_expected hw cs s1 kept h.1 in
        let handled : Bool → Store RdmaPinginfo Q = λ k.
          handle_received_message try_enqueue net (received c.wr_id) now (if k then c.time else now)
            s.store in
        rw (b, h.0 b) (e, r ∙ ap (λ k. handle_all hw cs (handled k)) t, x)
    | inr b ↦ rw b (rx_loop_expected hw cs s t h.1)
  ]

  -- A batch with at least one completion, all of them errors or RECVs, has the table go through
  -- exactly the messages of its RECVs, in order, and leaves the TX context as it was. The handler
  -- returns if the next event could be asked for, and throws otherwise.
  pub client_rx_batch :
      (c : Completion × ℕ) (cs : List (Completion × ℕ)) (notified : Bool) (s : Client Nic Q)
      → All (λ c. IsExpected c.0) (c ∷ cs)
      → let (s', exit) =
          client_process_rx_cqe verbs try_enqueue net received (some (c ∷ cs)) notified s in
        (exit ≡ notify notified)
        × (s'.store ≡ handle_all s.rx.rnic_hw_ts (c ∷ cs) s.store)
        × (s'.tx ≡ s.tx)
  unfolding client_process_rx_cqe
  client_rx_batch c cs notified s h =
      let (e, q, x) = rx_loop_expected s.rx.rnic_hw_ts (c ∷ cs) s refl h in
      rw (e, client_process_rx_cqe) (refl, q, x)
