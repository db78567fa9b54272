-- ===== src/RdmaServer/Tests.antt =====
-- Instances of the theorems on the RDMA server.
use pingweave.Base.{
  ℕ, ◌+◌, ◌≡◌, refl, ◌⊎◌, inl, inr, Bool, true, Option, none, some, List, [], ◌∷◌, ◌++◌, arith,
  success,
}
use pingweave.Messages.{RdmaPingMsg, RdmaPongMsg}
use pingweave.Common.Delta.{IsElapsed}
use pingweave.Table.{find}
use pingweave.Table.Linked.{IsValid}
use pingweave.PingMsgMap
use pingweave.PingMsgMap.{Pings}
use pingweave.PingMsgMap.Lookup.{get_young}
use pingweave.RdmaContext.{Verbs, Context}
use pingweave.RdmaServer.{Server, Completion, recv, tx_step, server_process_pong_cqe}
use pingweave.RdmaServer.Delay.{ack_posted, tx_step-pong_cqe}
use pingweave.RdmaServer.Threads.{CqRound, TxClocks, rx_round, tx_round, rdma_server_rx_thread}
use pingweave.RdmaServer.RxThread.{nic_takes, rdma_server_rx_thread_lem}
use pingweave.Devices.{wait_for_cq_event}
use pingweave.Threads.{running}
use pingweave.RdmaServer.Interleaving.{IsAmong, start, receives, answers}
use pingweave.RdmaServer.Interleaving.Acks.{acks_lem}

-- A NIC that accepts everything, and counts its handles.
abbrev verbs : Verbs ℕ RdmaPongMsg
verbs = record {
  create_ah = λ n a. (n + 1, some n);
  destroy_ah = λ n a. n;
  post_send_wr = λ n w. (n, true);
  post_recv_wr = λ n i. (n, true);
  ntop = λ g. "fe80::1";
  interface_id = λ g. 1;
}

abbrev context : Context ℕ RdmaPongMsg
context = record {
  nic = 0;
  buf = record { opcode = 0; pingid = 0; server_delay = 0 } ∷ [];
  ah_map = [];
  active_port = 1;
  gid_index = 0;
  traffic_class = 0;
  rnic_hw_ts = true;
}

abbrev ping : ℕ → RdmaPingMsg
ping id = record { pingid = id; qpn = 1; gid = []; lid = 2; time = 300 }

abbrev server : Server ℕ (List RdmaPingMsg)
server = record {
  rx = context;
  tx = context;
  queue = [];
  table = record {
    table = record {
      map = (5, record { value = ping 5; timestamp = 2000; list_iter = 0 }) ∷ [];
      key_list = record { iter = 0; key = 5 } ∷ [];
      next_iter = 1;
      threshold_ms = 1000;
    };
    queue = tt;
  };
}

server-IsValid : IsValid 2000 server.table.table
unfolding find
server-IsValid = record {
  aligned = refl;
  linked = (omega arith, omega arith, omega arith, omega arith, refl, tt);
}

stored : PingMsgMap.get 5 server.table ≡ some (ping 5)
unfolding PingMsgMap.get find
stored = refl

six_free : get_young 3000 6 server.table ≡ none
unfolding find
six_free = refl

six_absent : PingMsgMap.get 6 server.table ≡ none
unfolding PingMsgMap.get find
six_absent = refl

tx_step-pong_cqe_example :
    let s1 = (tx_step verbs (ping 6) 3000 3100 server).0 in
    let (s2, r) = server_process_pong_cqe verbs 6 900 s1 in
    (d : ℕ) × IsElapsed (ping 6).time 900 d
    × (s2.tx ≡ (ack_posted verbs 6 d (ping 6) s1).0)
    × (r ≡ (ack_posted verbs 6 d (ping 6) s1).1)
    × (r ≡ success → PingMsgMap.get 6 s2.table ≡ none)
tx_step-pong_cqe_example =
    tx_step-pong_cqe verbs (ping 6) 3000 3100 900 server (omega arith) server-IsValid six_free

abbrev try_enqueue : List RdmaPingMsg → RdmaPingMsg → List RdmaPingMsg × Bool
try_enqueue q m = (q ++ (m ∷ []), true)

abbrev received : Completion
received = record { status_ok = true; opcode = recv; wr_id = 7; time = 500 }

abbrev idle : Server ℕ (List RdmaPingMsg)
idle = record server {
  table = record {
    table = record { map = []; key_list = []; next_iter = 0; threshold_ms = 1000 };
    queue = tt;
  };
}

abbrev wait_dequeue_timed : List RdmaPingMsg → List RdmaPingMsg × Option RdmaPingMsg
wait_dequeue_timed [] = ([], none)
wait_dequeue_timed (m ∷ q) = (q, some m)

put_in :
    (q : List RdmaPingMsg) (m x : RdmaPingMsg)
    → IsAmong (try_enqueue q m).0 x
    → IsAmong q x ⊎ (x ≡ m)
put_in [] m x (inl e) = inr e
put_in [] m x (inr h) = absurd h
put_in (y ∷ q) m x (inl e) = inl (inl e)
put_in (y ∷ q) m x (inr h) = elim (put_in q m x h) [ inl old ↦ inl (inr old) | inr e ↦ inr e ]

stays : (q : List RdmaPingMsg) (x : RdmaPingMsg) → IsAmong (wait_dequeue_timed q).0 x → IsAmong q x
stays [] x h = h
stays (y ∷ q) x h = inr h

handed : (q : List RdmaPingMsg) (m : RdmaPingMsg) → (wait_dequeue_timed q).1 ≡ some m → IsAmong q m
handed [] m h = absurd (cc)
handed (y ∷ q) m h = inl (cc)

abbrev arrival : CqRound RdmaPingMsg
arrival = record { event = some 0; poll = some (received ∷ []); received = ping; notified = true }

abbrev answer : TxClocks
answer = record { expiry = 600; entry = 610 }

acks_lem_example :
    let s =
      (tx_round verbs wait_dequeue_timed answer (rx_round verbs try_enqueue 0 arrival idle).0).0 in
    let s' = (server_process_pong_cqe verbs 7 900 s).0 in
    (s'.tx ≡ s.tx)
    ⊎ ((m : RdmaPingMsg) × IsAmong (record (ping 7) { time = 500 } ∷ []) m
        × (m.pingid ≡ 7)
        × (d : ℕ) × IsElapsed m.time 900 d
        × (s'.tx ≡ (ack_posted verbs 7 d m s).0))
acks_lem_example =
    acks_lem verbs try_enqueue wait_dequeue_timed 0 1 IsAmong put_in stays handed 7 900
      (record { aligned = refl; linked = tt }) refl (λ m h. h)
      (answers answer (receives arrival start) (omega arith))

rdma_server_rx_thread_lem_example :
    let o = rdma_server_rx_thread verbs try_enqueue 0 true (arrival ∷ []) server in
    (o.state.table ≡ server.table)
    × (o.state.tx ≡ context)
    × ((o.ending ≡ running)
        × (o.thread_alive ≡ true)
        × (o.state.queue ≡ record (ping 7) { time = 500 } ∷ []))
unfolding nic_takes wait_for_cq_event
rdma_server_rx_thread_lem_example =
    rdma_server_rx_thread_lem verbs try_enqueue 0 true (arrival ∷ []) server
      ((refl, refl, received, [], refl, ((λ h. refl), tt)), tt)
