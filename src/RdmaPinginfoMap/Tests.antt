-- ===== src/RdmaPinginfoMap/Tests.antt =====
-- Instances of the theorems on the client's table of RDMA pings.
use pingweave.Base.{
  ◌+◌, ◌^◌, ◌<◌, ◌≡◌, refl, Bool, true, some, List, [], ◌∷◌, ◌++◌, arith, success, ℕ, map,
}
use pingweave.Common.{Net, ip2uint}
use pingweave.Common.Identity.{Identity, weighed, weighed-map, one_ping}
use pingweave.Messages.{RdmaPingMsg, RdmaResultMsg}
use pingweave.Table
use pingweave.Table.{Store, Entry, find, expire_entries}
use pingweave.Table.Linked.{IsValid}
use pingweave.RdmaPinginfoMap.{RdmaPinginfo, initial, completed, insert, update, update_pong_info}
use pingweave.RdmaPinginfoMap.Account.{
  named_in, start, inserts, comes_in, IsAccounted, Reach-IsAccounted,
}
use pingweave.RdmaPinginfoMap.Updates.{without}
use pingweave.RdmaPinginfoMap.Events.{ping_cqe, pong, ack, handle, pac, in_order, in_order_lem}
use pingweave.RdmaPinginfoMap.Report.{IsReport, completed_wraps}

abbrev net : Net
net = record { inet_pton = λ _. some 0x0200_000a; undef = 0 }

abbrev try_enqueue : List RdmaResultMsg → RdmaResultMsg → List RdmaResultMsg × Bool
try_enqueue q m = (q ++ (m ∷ []), true)

abbrev msg : RdmaPingMsg
msg = record { pingid = 5; qpn = 1; gid = []; lid = 0; time = 0 }

abbrev ping_entry : Entry RdmaPinginfo
ping_entry = record { value = initial msg "10.0.0.2" 1000 2000; timestamp = 2000; list_iter = 0 }

abbrev one_waiting : Store RdmaPinginfo (List RdmaResultMsg)
one_waiting = record {
  table = record {
    map = (5, ping_entry) ∷ [];
    key_list = record { iter = 0; key = 5 } ∷ [];
    next_iter = 1;
    threshold_ms = 1000;
  };
  queue = [];
}

found : find 5 one_waiting.table.map ≡ some ping_entry
unfolding find
found = refl

one_waiting-IsValid : IsValid 2000 one_waiting.table
unfolding find
one_waiting-IsValid = record {
  aligned = refl;
  linked = (omega arith, omega arith, omega arith, omega arith, refl, tt);
}

in_order_lem_example :
    (r : RdmaResultMsg) × IsReport net msg "10.0.0.2" 1000 2000 100 9000 160 20 r
    × (in_order try_enqueue net pac 5 (ping_cqe 100) (pong 9000 160) (ack 20) one_waiting
        ≡ (without 5 0 (record one_waiting { queue = r ∷ [] }), success, success, success))
in_order_lem_example =
    in_order_lem try_enqueue net pac 5 100 9000 160 20 one_waiting msg "10.0.0.2" 1000 2000 2000 0
      found refl (omega arith) (omega arith)

abbrev measured : RdmaPinginfo
measured = record {
  pingid = 5;
  qpn = 1;
  gid = [];
  lid = 0;
  dstip = "10.0.0.2";
  time_ping_send = 1000;
  client_delay = 100;
  network_delay = 60;
  server_delay = 20;
  recv_cnt = 3;
  recv_bitmap = 7;
}

completed_wraps_example :
    ((completed net (record measured { client_delay = 50 })).client_delay + 60 ≡ 50 + 2 ^ 64)
    × (2 ^ 63 < (completed net (record measured { client_delay = 50 })).client_delay)
completed_wraps_example =
    completed_wraps net (record measured { client_delay = 50 }) (omega arith) (omega arith)

abbrev no_ping : Store RdmaPinginfo (List RdmaResultMsg)
no_ping = record {
  table = record { map = []; key_list = []; next_iter = 0; threshold_ms = 1000 };
  queue = [];
}

no_ping-IsValid : IsValid 0 no_ping.table
no_ping-IsValid = record { aligned = refl; linked = tt }

-- How often a queue reports the ping with the number 5.
abbrev fives : List RdmaResultMsg → ℕ
fives q = weighed (one_ping 5) (map named_in q)

-- The ping that `sent_ping` takes in.
abbrev fifth : Identity
fifth = record { pingid = 5; dstip = 0x0200_000a; time_ping_send = 1000 }

abbrev sent_ping : Store RdmaPinginfo (List RdmaResultMsg)
sent_ping = (insert try_enqueue net 5 msg "10.0.0.2" 1500 2000 1000 no_ping).0

abbrev answered : Store RdmaPinginfo (List RdmaResultMsg)
answered = (handle try_enqueue net 5 (pong 9000 160) sent_ping).0

-- The PONG of a ping comes in, and then its ACK.
Reach-IsAccounted_example :
    IsAccounted try_enqueue net
      (one_ping 5)
      fives
      (weighed-map (one_ping 5) named_in)
      0
      2000
      (fifth ∷ [])
      (handle try_enqueue net 5 (ack 20) answered).0
unfolding ip2uint weighed find insert Table.insert expire_entries Table.emplace Table.assign
    update_pong_info update Table.modify
Reach-IsAccounted_example =
    Reach-IsAccounted try_enqueue net (one_ping 5) fives (weighed-map (one_ping 5) named_in) no_ping
      (handle try_enqueue net 5 (ack 20) answered).0 2000 (fifth ∷ []) refl no_ping-IsValid
      (comes_in 5 (ack 20)
        (comes_in 5 (pong 9000 160) (inserts msg "10.0.0.2" 1500 2000 1000 start (omega arith))
          refl)
        refl)
