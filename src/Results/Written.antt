-- ===== src/Results/Written.antt =====
-- A result thread of UDP or TCP from its start to its first report in the ring.
use pingweave.Base.{
  ℕ, ◌-◌, ◌/◌, ◌^◌, ◌<◌, ◌≤◌, ◌≡◌, refl, sym, subst, ap, ◌∙◌, inl, inr, true, Option, none, some,
  List, [], ◌∷◌, ◌++◌, map, arith, success, length, leb, All, if◌then◌else◌,
}
use pingweave.Base.Text.{Text}
use pingweave.Ini.{get_controller_info_from_ini}
use pingweave.Ipc.{
  Message, ProducerQueue, ipc_buffer_size, ipc_message_size, strncpy, write_message,
}
use pingweave.Ipc.Ring.{IsValid, contents, init_shared_memory_empty, write_message_lem}
use pingweave.Messages.{TcpUdpResultMsg}
use pingweave.ReportText.{aggregate}
use pingweave.RdmaServer.{done}
use pingweave.Results.{
  TcpUdpResultInfo, tcpudp_empty, tcpudp_account, lookup, store, Collector, report, result_round,
}
use pingweave.Results.Destinations.{
  times, has_result, delays_for, delays-rounds, times-rounds, All-lookup,
}
use pingweave.Results.Tally.{Holds, count, rounds, Quiet, tally, quiet_round}
use pingweave.Results.Threads.{
  Start, Reporter, report_interval_ms, producer_made, reporter_round, started, result_thread,
  tcpudp_client_result_thread, tcpudp_report_line,
}
use pingweave.Threads.{Outcome, running, thread_loop}

-- What a report leaves in a ring that was empty.
abbrev pub written : Text → List Message
written [] = []
written (c ∷ cs) = strncpy (c ∷ cs) (ipc_message_size - 1) ∷ []

contents-written :
    (text : Text) (p : ProducerQueue)
    → IsValid p.shared
    → contents p.shared ≡ []
    → contents (write_message text p).0.shared ≡ written text
unfolding write_message
contents-written [] p v h = h
contents-written (c ∷ cs) p v h = elim (write_message_lem c cs p v).1 [
  | inl (room, sent, e, dropped) ↦ e ∙ rw h refl
  | inr (full, refused, same, dropped) ↦
      let none_waits : length (contents p.shared) ≡ 0 = rw h refl in absurd (omega arith)
]

-- The rounds that take these results out of the queue, each at its time.
abbrev pub taking : List (TcpUdpResultMsg × ℕ) → List (Option TcpUdpResultMsg × ℕ)
taking [] = []
taking ((m, now) ∷ ms) = (some m, now) ∷ taking ms

module _ (local_time : ℕ → Text) (uint2ip : ℕ → Text) (ipv4 : Text) where
  abbrev pub line : ℕ × TcpUdpResultInfo → Text
  line = tcpudp_report_line local_time uint2ip ipv4

  abbrev step : Option TcpUdpResultMsg × ℕ → Reporter TcpUdpResultInfo → Reporter TcpUdpResultInfo
  step = reporter_round tcpudp_empty line (λ (m : TcpUdpResultMsg). m.dstip) tcpudp_account

  quiet_step :
      (m : TcpUdpResultMsg) (now : ℕ) (r : Reporter TcpUdpResultInfo)
      → (now - r.collector.last_report_time) / 10 ^ 6 < r.collector.report_interval_ms
      → step (some m, now) r ≡ record r {
        collector = record (r.collector) {
          dstip2result =
              store tcpudp_empty m.dstip
                (tcpudp_account m (lookup tcpudp_empty m.dstip r.collector.dstip2result)).0
                r.collector.dstip2result;
        };
      }
  unfolding reporter_round result_round report
  quiet_step m now r h = ground (arith, h)

  report_step :
      (now : ℕ) (r : Reporter TcpUdpResultInfo)
      → r.collector.report_interval_ms ≤ (now - r.collector.last_report_time) / 10 ^ 6
      → step (none, now) r ≡ record {
        collector = record (r.collector) { dstip2result = []; last_report_time = now };
        producer = (write_message (aggregate (map line r.collector.dstip2result)) r.producer).0;
      }
  unfolding reporter_round result_round report
  report_step now r h =
      let due : leb r.collector.report_interval_ms ((now - r.collector.last_report_time) / 10 ^ 6)
          ≡ true =
        ground (arith, h) in
      rw (due, reporter_round) refl

  abbrev loop :
      List (Option TcpUdpResultMsg × ℕ)
      → Reporter TcpUdpResultInfo
      → Outcome (Reporter TcpUdpResultInfo)
  loop es r = thread_loop (λ m r. (step m r, done)) es r

  abbrev EndsWith :
      List (ℕ × TcpUdpResultInfo) → ProducerQueue → Outcome (Reporter TcpUdpResultInfo) → Type 0
  EndsWith entries p o =
      (o.ending ≡ running)
      × (o.state.collector.dstip2result ≡ [])
      × (o.state.producer ≡ (write_message (aggregate (map line entries)) p).0)

  -- Such rounds, then one at which the report is due and the queue is empty.
  loop_lem :
      (ms : List (TcpUdpResultMsg × ℕ)) (late : ℕ) (r : Reporter TcpUdpResultInfo)
      → Quiet r.collector.last_report_time r.collector.report_interval_ms ms
      → r.collector.report_interval_ms ≤ (late - r.collector.last_report_time) / 10 ^ 6
      → EndsWith
          (rounds ms r.collector).dstip2result
          r.producer
          (loop (taking ms ++ ((none, late) ∷ [])) r)
  unfolding thread_loop rounds
  loop_lem [] late r q due =
      subst
        (λ x.
          EndsWith r.collector.dstip2result r.producer
            (record { state = x; thread_alive = true; ending = running }))
        (sym (report_step late r due)) (refl, refl, refl)
  loop_lem ((m, now) ∷ ms) late r q due =
      let c : Collector TcpUdpResultInfo = record (r.collector) {
        dstip2result =
            store tcpudp_empty m.dstip
              (tcpudp_account m (lookup tcpudp_empty m.dstip r.collector.dstip2result)).0
              r.collector.dstip2result;
      } in
      let rest = taking ms ++ ((none, late) ∷ []) in
      subst (λ x. EndsWith (rounds ms x).dstip2result r.producer (loop rest (step (some m, now) r)))
        (sym (quiet_round m now r.collector q.0))
        (subst (λ x. EndsWith (rounds ms c).dstip2result r.producer (loop rest x))
          (sym (quiet_step m now r q.0)) (loop_lem ms late (record r { collector = c }) q.1 due))

  -- A result thread whose start succeeds takes results until its first report is due: it is running,
  -- the ring holds the text of that report and nothing else (cut as `strncpy` cuts it), which is made
  -- of one line for each destination for which a result came in, and of no other line (their order
  -- stands for that of the `unordered_map`); each line's information has exactly the number of results
  -- that came in for its destination, by their codes (on 32 bits), and exactly the delays of its
  -- successes, in the order in which they came; and the thread starts over with no result.
  pub report_written :
      (b : Start) (ms : List (TcpUdpResultMsg × ℕ)) (late : ℕ)
      → (get_controller_info_from_ini b.controller_file b.controller_before).1 ≡ success
      → producer_made b ≡ true
      → length b.memory.messages ≡ ipc_buffer_size
      → Quiet b.now (report_interval_ms b.interval_file) ms
      → report_interval_ms b.interval_file ≤ (late - b.now) / 10 ^ 6
      → let o =
          tcpudp_client_result_thread local_time uint2ip ipv4 b
            (taking ms ++ ((none, late) ∷ [])) in
        let c : Collector TcpUdpResultInfo = record {
          dstip2result = [];
          last_report_time = b.now;
          report_interval_ms = report_interval_ms b.interval_file;
        } in
        let entries = (rounds ms c).dstip2result in
        (o.ending ≡ running)
        × (contents o.state.producer.shared ≡ written (aggregate (map line entries)))
        × (o.state.collector.dstip2result ≡ [])
        × ((x : ℕ) → times x entries ≡ (if has_result x (map (λ p. p.0) ms) then 1 else 0))
        × All
            (λ (p : ℕ × TcpUdpResultInfo).
              Holds tcpudp_empty p.1 (λ code. count p.0 code (map (λ q. q.0) ms))
              × (p.1.network_delays ≡ delays_for p.0 (map (λ q. q.0) ms)))
            entries
  unfolding tcpudp_client_result_thread result_thread
  report_written b ms late host made slots q due =
      rw (host, made)
        (let r = started tcpudp_empty line (λ (m : TcpUdpResultMsg). m.dstip) tcpudp_account b in
          let entries = (rounds ms r.collector).dstip2result in
          let one_each : (x : ℕ)
              → times x entries ≡ (if has_result x (map (λ p. p.0) ms) then 1 else 0) =
            λ x. times-rounds x b.now (report_interval_ms b.interval_file) ms q in
          let (e, cleared, p) = loop_lem ms late r q due in
          let (valid, nothing) = init_shared_memory_empty b.memory slots in
          (
            e,
            ap (λ x. contents x.shared) p
                ∙ contents-written (aggregate (map line entries)) r.producer valid nothing,
            cleared,
            one_each,
            All-lookup tcpudp_empty
                (λ x i.
                  Holds tcpudp_empty i (λ code. count x code (map (λ p. p.0) ms))
                  × (i.network_delays ≡ delays_for x (map (λ p. p.0) ms)))
                entries (λ x. ground (arith, one_each x))
                (λ x _. (
                  tally x b.now (report_interval_ms b.interval_file) ms q,
                  delays-rounds x b.now (report_interval_ms b.interval_file) ms q,
                )),
          ))
