-- ===== src/Exchange/Tests.antt =====
-- An instance of the theorem on a whole exchange.
use pingweave.Base.{ℕ, ◌+◌, ◌≡◌, refl, Bool, true, Option, none, some, List, [], ◌∷◌, ◌++◌, arith}
use pingweave.Common.{Net, ip2uint, make_pingid, calc_time_delta_with_modulo}
use pingweave.Messages.{RdmaPingMsg, RdmaPongMsg, RdmaAddr, RdmaResultMsg}
use pingweave.Common.Delta.{IsElapsed}
use pingweave.RdmaPinginfoMap.Report.{IsReport}
use pingweave.PingMsgMap
use pingweave.RdmaContext.{Verbs, Context, post_send, get_or_create_ah, lookup_ah, clear_large}
use pingweave.RdmaClient.{Client, Clocks, send_ping}
use pingweave.RdmaPinginfoMap.Updates.{without}
use pingweave.RdmaServer.{
  Server, rx_loop, server_process_rx_cqe, tx_step, tx_cqe_loop, server_process_tx_cqe,
}
use pingweave.RdmaServer.Threads.{tx_round}
use pingweave.Table
use pingweave.Table.{find}
use pingweave.Exchange.{Course, msg, pinged, acked, reported, exchange_reported}

abbrev net : Net
net = record { inet_pton = λ _. some 0x0200_000a; undef = 0 }

-- A NIC that accepts everything, and counts its handles.
abbrev verbs : {M : Type 0} → Verbs ℕ M
verbs = record {
  create_ah = λ n a. (n + 1, some n);
  destroy_ah = λ n a. n;
  post_send_wr = λ n w. (n, true);
  post_recv_wr = λ n i. (n, true);
  ntop = λ g. "fe80::1";
  interface_id = λ g. 1;
}

abbrev context : {M : Type 0} → M → Context ℕ M
context m = record {
  nic = 0;
  buf = m ∷ [];
  ah_map = [];
  active_port = 1;
  gid_index = 0;
  traffic_class = 0;
  rnic_hw_ts = true;
}

abbrev no_ping : RdmaPingMsg
no_ping = record { pingid = 0; qpn = 0; gid = []; lid = 0; time = 0 }

abbrev no_pong : RdmaPongMsg
no_pong = record { opcode = 0; pingid = 0; server_delay = 0 }

abbrev report : List RdmaResultMsg → RdmaResultMsg → List RdmaResultMsg × Bool
report q m = (q ++ (m ∷ []), true)

abbrev enqueue_ping : List RdmaPingMsg → RdmaPingMsg → List RdmaPingMsg × Bool
enqueue_ping q m = (q ++ (m ∷ []), true)

abbrev wait_dequeue_timed : List RdmaPingMsg → List RdmaPingMsg × Option RdmaPingMsg
wait_dequeue_timed [] = ([], none)
wait_dequeue_timed (m ∷ q) = (q, some m)

abbrev client : Client ℕ (List RdmaResultMsg)
client = record {
  rx = context no_ping;
  tx = context no_ping;
  store = record {
    table = record { map = []; key_list = []; next_iter = 0; threshold_ms = 1000 };
    queue = [];
  };
  ping_uid = 3;
}

abbrev server : Server ℕ (List RdmaPingMsg)
server = record {
  rx = context no_pong;
  tx = context no_pong;
  queue = [];
  table = record {
    table = record { map = []; key_list = []; next_iter = 0; threshold_ms = 1000 };
    queue = tt;
  };
}

abbrev mine : RdmaAddr
mine = record { qpn = 11; gid = []; lid = 1 }

abbrev peer : RdmaAddr
peer = record { qpn = 12; gid = []; lid = 2 }

abbrev clocks : Clocks
clocks = record { expiry = 1000; steady = 1100; system = 77; posted = 1200 }

abbrev course : Course
course = record {
  ping_left = 100;
  ping_buffer = 0;
  ping_arrived = 500;
  server_clocks = record { expiry = 600; entry = 610 };
  pong_left = 530;
  pong_buffer = 0;
  pong_arrived = 160;
  pong_handled = 9000;
  ack_buffer = 0;
  ack_arrived = 190;
  ack_handled = 9100;
}

exchange_reported_example :
    let id =
      (msg verbs report net verbs enqueue_ping wait_dequeue_timed "10.0.0.2" mine "10.0.0.3" peer
        clocks course no_ping no_pong client server).pingid in
    let done_all =
      reported verbs report net verbs enqueue_ping wait_dequeue_timed "10.0.0.2" mine "10.0.0.3"
        peer clocks course no_ping no_pong client server in
    let first =
      (pinged verbs report net verbs enqueue_ping wait_dequeue_timed "10.0.0.2" mine "10.0.0.3" peer
        clocks course no_ping no_pong client server).0.store in
    let m =
      msg verbs report net verbs enqueue_ping wait_dequeue_timed "10.0.0.2" mine "10.0.0.3" peer
        clocks course no_ping no_pong client server in
    (d : ℕ) × (r : RdmaResultMsg) × IsElapsed course.ping_arrived course.pong_left d
    × IsReport net m "10.0.0.3" 77 1100 100 9000 160 d r
    × (done_all.store ≡ without id 0 (record first { queue = (report first.queue r).0 }))
    × (PingMsgMap.get id
          (acked verbs report net verbs enqueue_ping wait_dequeue_timed "10.0.0.2" mine "10.0.0.3"
            peer clocks course no_ping no_pong client server).0.table
        ≡ none)
unfolding find send_ping post_send get_or_create_ah lookup_ah clear_large tx_step tx_round
    server_process_rx_cqe rx_loop server_process_tx_cqe tx_cqe_loop ip2uint
    calc_time_delta_with_modulo make_pingid PingMsgMap.get PingMsgMap.insert Table.insert
    Table.expire_entries Table.emplace Table.assign
exchange_reported_example =
    exchange_reported verbs report net verbs enqueue_ping wait_dequeue_timed "10.0.0.2" mine
      "10.0.0.3" peer clocks course no_ping no_pong client server {last = 0} {last' = 0}
      (record { aligned = refl; linked = tt }) refl (refl, refl) (omega arith) (omega arith)
      (omega arith, omega arith, omega arith) refl (omega arith)
      (record { aligned = refl; linked = tt }) refl (omega arith, omega arith) refl refl refl
