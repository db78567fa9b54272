-- ===== src/RdmaPinginfoMap/Events.antt =====
-- The three events of a ping, in every order.
use pingweave.Base.{
  u64, ℕ, ◌≡◌, refl, ◌∙◌, ◌≢◌, Bool, true, false, none, some, arith, success, failure, ◌==◌,
}
use pingweave.Common.Delta.{modulo-IsElapsed}
use pingweave.RdmaPinginfoMap.Report.{IsReport, completed-Says}
use pingweave.Common.{Net, calc_time_delta_with_modulo, time_calc_modulo}
use pingweave.Messages.{RdmaResultMsg, RdmaPingMsg}
use Prim.Native.String.{String}
use pingweave.Table.{Store, Entry, find}
use pingweave.Table.Maps.{find-modify, erase-modify}
use pingweave.RdmaPinginfoMap.{
  RdmaPinginfo, mask_recv, initial, completed, on_ping_cqe, on_pong, on_ack, update,
  update_ping_cqe_time, update_pong_info, update_ack_info,
}
use pingweave.RdmaPinginfoMap.Updates.{
  edited, without, update_missing, update_waits, update_reports,
}

not_zero : (n : ℕ) → n ≢ 0 → (n == 0) ≡ false
not_zero n h = ground arith

pub data Event : Type 0 where
  ping_cqe : ℕ → Event
  pong : ℕ → ℕ → Event
  ack : ℕ → Event

abbrev pub write : Event → RdmaPinginfo → RdmaPinginfo
write (ping_cqe x) = on_ping_cqe x
write (pong recv cqe) = on_pong recv cqe
write (ack d) = on_ack d

-- The six orders in which the events can come in: c for the completion of the send, p for the
-- PONG, a for the ACK.
pub data Order : Type 0 where
  cpa cap pca pac acp apc : Order

module _ {Q : Type 0} (try_enqueue : Q → RdmaResultMsg → Q × Bool) (net : Net) where
  -- The method that the client calls on an event, and the calls for a list of events.
  abbrev pub handle : ℕ → Event → Store RdmaPinginfo Q → Store RdmaPinginfo Q × Bool
  handle key (ping_cqe x) = update_ping_cqe_time try_enqueue net key x
  handle key (pong recv cqe) = update_pong_info try_enqueue net key recv cqe
  handle key (ack d) = update_ack_info try_enqueue net key d

  pub handle_lem :
      (key : ℕ) (ev : Event) (s : Store RdmaPinginfo Q)
      → handle key ev s ≡ update try_enqueue net (write ev) key s
  unfolding update_ping_cqe_time update_pong_info update_ack_info
  handle_lem key (ping_cqe x) s = refl
  handle_lem key (pong recv cqe) s = refl
  handle_lem key (ack d) s = refl

  abbrev pub three :
      ℕ → Event → Event → Event → Store RdmaPinginfo Q → Store RdmaPinginfo Q × Bool × Bool × Bool
  three key a b c s =
      let (s1, r1) = handle key a s in
      let (s2, r2) = handle key b s1 in let (s3, r3) = handle key c s2 in (s3, r1, r2, r3)

  three_lem :
      (key : ℕ) (a b c : Event) (s : Store RdmaPinginfo Q) {e : Entry RdmaPinginfo}
      → find key s.table.map ≡ some e
      → ((write a e.value).recv_bitmap == mask_recv) ≡ false
      → ((write b (write a e.value)).recv_bitmap == mask_recv) ≡ false
      → ((write c (write b (write a e.value))).recv_bitmap == mask_recv) ≡ true
      → ((write c (write b (write a e.value))).recv_cnt == 3) ≡ true
      → (write c (write b (write a e.value))).pingid ≡ key
      → three key a b c s ≡ (
        without key e.list_iter (record s {
          queue = (try_enqueue s.queue (completed net (write c (write b (write a e.value))))).0;
        }),
        success,
        success,
        success,
      )
  three_lem key a b c s {e} h p q r t k =
      let s1 = edited (write a) key s in
      let s2 = edited (write b) key s1 in
      let h1 = find-modify key (write a) s.table.map h in
      let h2 = find-modify key (write b) s1.table.map h1 in
      rw (handle_lem key a s, update_waits try_enqueue net (write a) key s h p)
        (rw (handle_lem key b s1, update_waits try_enqueue net (write b) key s1 h1 q)
          (rw (handle_lem key c s2, update_reports try_enqueue net (write c) key s2 h2 r t k)
            (rw (erase-modify key (write b) s1.table.map, erase-modify key (write a) s.table.map))))

  abbrev pub in_order :
      Order
      → ℕ
      → Event
      → Event
      → Event
      → Store RdmaPinginfo Q
      → Store RdmaPinginfo Q × Bool × Bool × Bool
  in_order cpa key c p a = three key c p a
  in_order cap key c p a = three key c a p
  in_order pca key c p a = three key p c a
  in_order pac key c p a = three key p a c
  in_order acp key c p a = three key a c p
  in_order apc key c p a = three key a p c

  -- What is known of a ping once all three events are in.
  abbrev pub complete_with : ℕ → ℕ → ℕ → ℕ → RdmaPinginfo → RdmaPinginfo
  complete_with x recv cqe d v = record v {
    client_delay = calc_time_delta_with_modulo v.client_delay recv time_calc_modulo;
    network_delay = calc_time_delta_with_modulo x cqe time_calc_modulo;
    server_delay = d;
    recv_cnt = 3;
    recv_bitmap = mask_recv;
  }

  -- In whatever order the three events of a new ping come in, each is accepted, and the entry that they
  -- have written is reported with the last of them.
  pub in_order_completed :
      (o : Order) (key x recv cqe d : ℕ) (s : Store RdmaPinginfo Q) (msg : RdmaPingMsg)
      (dstip : String) (system_ns steady_ns stamp iter : ℕ)
      → find key s.table.map
        ≡ some (record {
          value = initial msg dstip system_ns steady_ns;
          timestamp = stamp;
          list_iter = iter;
        })
      → msg.pingid ≡ key
      → x ≢ 0
      → cqe ≢ 0
      → in_order o key (ping_cqe x) (pong recv cqe) (ack d) s ≡ (
        without key iter (record s {
          queue =
              (try_enqueue s.queue (
                completed net
                  (complete_with x recv cqe d (initial msg dstip system_ns steady_ns)))).0;
        }),
        success,
        success,
        success,
      )
  unfolding on_ping_cqe on_pong on_ack initial
  in_order_completed cpa key x recv cqe d s msg dstip sy st stamp iter h k p q =
      three_lem key (ping_cqe x) (pong recv cqe) (ack d) s h refl refl refl refl k
      ∙ rw (not_zero x p)
  in_order_completed cap key x recv cqe d s msg dstip sy st stamp iter h k p q =
      three_lem key (ping_cqe x) (ack d) (pong recv cqe) s h refl refl refl refl k
      ∙ rw (not_zero x p)
  in_order_completed pca key x recv cqe d s msg dstip sy st stamp iter h k p q =
      three_lem key (pong recv cqe) (ping_cqe x) (ack d) s h refl refl refl refl k
      ∙ rw (not_zero cqe q)
  in_order_completed pac key x recv cqe d s msg dstip sy st stamp iter h k p q =
      three_lem key (pong recv cqe) (ack d) (ping_cqe x) s h refl refl refl refl k
      ∙ rw (not_zero cqe q)
  in_order_completed acp key x recv cqe d s msg dstip sy st stamp iter h k p q =
      three_lem key (ack d) (ping_cqe x) (pong recv cqe) s h refl refl refl refl k
      ∙ rw (not_zero x p)
  in_order_completed apc key x recv cqe d s msg dstip sy st stamp iter h k p q =
      three_lem key (ack d) (pong recv cqe) (ping_cqe x) s h refl refl refl refl k
      ∙ rw (not_zero cqe q)

  pub complete_with-IsReport :
      (x recv cqe d : ℕ) (msg : RdmaPingMsg) (dstip : String) (system_ns steady_ns : ℕ)
      → IsReport net msg dstip system_ns steady_ns x recv cqe d
          (completed net (complete_with x recv cqe d (initial msg dstip system_ns steady_ns)))
  unfolding initial
  complete_with-IsReport x recv cqe d msg dstip system_ns steady_ns =
      let at_client = modulo-IsElapsed (u64 steady_ns) recv in
      let between = modulo-IsElapsed x cqe in
      (
        _,
        _,
        omega (arith, at_client),
        between,
        completed-Says net (complete_with x recv cqe d (initial msg dstip system_ns steady_ns))
            at_client.0 between.0,
      )

  -- In whatever order the completion of the send, the PONG and the ACK of a new ping come in, each is
  -- accepted, the ping leaves map and list with the last of them, and one report is offered to the
  -- queue. It has the ping's identity, destination and time of sending, and the server's time of the
  -- ACK; as network delay, where the server's time is below the time from the completion of the send
  -- to that of the PONG, the difference of the two, as a success, and otherwise the latter time, marked
  -- as weird; and as client's time what is left of the time from the sending to the handling of the
  -- PONG. Times are differences modulo 2^32, and neither of the two completions' times reads zero.
  pub in_order_lem :
      (o : Order) (key x recv cqe d : ℕ) (s : Store RdmaPinginfo Q) (msg : RdmaPingMsg)
      (dstip : String) (system_ns steady_ns stamp iter : ℕ)
      → find key s.table.map
        ≡ some (record {
          value = initial msg dstip system_ns steady_ns;
          timestamp = stamp;
          list_iter = iter;
        })
      → msg.pingid ≡ key
      → x ≢ 0
      → cqe ≢ 0
      → (r : RdmaResultMsg) × IsReport net msg dstip system_ns steady_ns x recv cqe d r
        × (in_order o key (ping_cqe x) (pong recv cqe) (ack d) s ≡ (
          without key iter (record s { queue = (try_enqueue s.queue r).0 }),
          success,
          success,
          success,
        ))
  in_order_lem o key x recv cqe d s msg dstip system_ns steady_ns stamp iter h k p q = (
    _,
    complete_with-IsReport x recv cqe d msg dstip system_ns steady_ns,
    in_order_completed o key x recv cqe d s msg dstip system_ns steady_ns stamp iter h k p q,
  )

  -- Once its entry is gone, further events of a ping are refused and change nothing.
  pub handle_missing :
      (key : ℕ) (ev : Event) (s : Store RdmaPinginfo Q)
      → find key s.table.map ≡ none
      → handle key ev s ≡ (s, failure)
  handle_missing key ev s h =
      handle_lem key ev s ∙ update_missing try_enqueue net (write ev) key s h
