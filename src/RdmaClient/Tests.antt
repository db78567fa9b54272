-- ===== src/RdmaClient/Tests.antt =====
-- Instances of the theorems on the RDMA client.
use pingweave.Base.{ℕ, ◌+◌, ◌≡◌, refl, Bool, true, some, List, [], ◌∷◌, ◌++◌, arith}
use pingweave.Common.{Net}
use pingweave.Messages.{RdmaPingMsg, RdmaPongMsg, RdmaAddr, RdmaResultMsg, opcode_pong, opcode_ack}
use pingweave.RdmaPinginfoMap.Report.{IsReport}
use pingweave.Table.{find}
use pingweave.Table.Linked.{IsValid}
use pingweave.RdmaContext.{Verbs, Context}
use pingweave.RdmaPinginfoMap.Updates.{without}
use pingweave.RdmaServer.{Completion, send}
use pingweave.RdmaClient.{Client, Clocks, handle_received_message, client_process_tx_cqe, send_ping}
use pingweave.RdmaClient.Ping.{next_msg, ping_reported}

abbrev net : Net
net = record { inet_pton = λ _. some 0x0200_000a; undef = 0 }

abbrev try_enqueue : List RdmaResultMsg → RdmaResultMsg → List RdmaResultMsg × Bool
try_enqueue q m = (q ++ (m ∷ []), true)

abbrev verbs : Verbs ℕ RdmaPingMsg
verbs = record {
  create_ah = λ n a. (n + 1, some n);
  destroy_ah = λ n a. n;
  post_send_wr = λ n w. (n, true);
  post_recv_wr = λ n i. (n, true);
  ntop = λ g. "fe80::1";
  interface_id = λ g. 1;
}

abbrev context : Context ℕ RdmaPingMsg
context = record {
  nic = 0;
  buf = record { pingid = 0; qpn = 0; gid = []; lid = 0; time = 0 } ∷ [];
  ah_map = [];
  active_port = 1;
  gid_index = 0;
  traffic_class = 0;
  rnic_hw_ts = true;
}

abbrev client : Client ℕ (List RdmaResultMsg)
client = record {
  rx = context;
  tx = context;
  store = record {
    table = record { map = []; key_list = []; next_iter = 0; threshold_ms = 1000 };
    queue = [];
  };
  ping_uid = 3;
}

abbrev mine : RdmaAddr
mine = record { qpn = 11; gid = []; lid = 1 }

abbrev peer : RdmaAddr
peer = record { qpn = 12; gid = []; lid = 2 }

abbrev clocks : Clocks
clocks = record { expiry = 1000; steady = 1100; system = 77; posted = 1200 }

client-IsValid : IsValid 0 client.store.table
client-IsValid = record { aligned = refl; linked = tt }

ping_reported_example :
    let msg = next_msg verbs try_enqueue net "10.0.0.2" mine client in
    let s1 = (send_ping verbs try_enqueue net "10.0.0.2" mine "10.0.0.3" peer clocks client).0 in
    let sent : Completion = record {
      status_ok = true;
      opcode = send;
      wr_id = msg.pingid;
      time = 100;
    } in
    let s2 = (client_process_tx_cqe verbs try_enqueue net (some (sent ∷ [])) true s1).0 in
    let pong : RdmaPongMsg = record {
      opcode = opcode_pong;
      pingid = msg.pingid;
      server_delay = 0;
    } in
    let ack : RdmaPongMsg = record {
      opcode = opcode_ack;
      pingid = msg.pingid;
      server_delay = 20;
    } in
    (r : RdmaResultMsg) × IsReport net msg "10.0.0.3" 77 1100 100 9000 160 20 r
    × (handle_received_message try_enqueue net ack 0 0
          (handle_received_message try_enqueue net pong 9000 160 s2.store)
        ≡ without msg.pingid 0 (record (s1.store) { queue = (try_enqueue s1.store.queue r).0 }))
unfolding find
ping_reported_example =
    ping_reported verbs try_enqueue net "10.0.0.2" mine "10.0.0.3" peer clocks 100 9000 160 20 true
      client client-IsValid refl refl (omega arith) (omega arith)
