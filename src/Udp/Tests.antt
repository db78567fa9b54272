-- ===== src/Udp/Tests.antt =====
-- Instances of the theorems on UDP messages.
use pingweave.Base.{◌≡◌, refl, Bool, true, some, List, [], ◌∷◌, ◌++◌, arith, ◌+◌, ◌^◌, ◌<◌, ℕ, map}
use pingweave.Common.{Net}
use pingweave.Messages.{TcpUdpResultMsg}
use pingweave.Table.{Store}
use pingweave.TcpUdpPinginfoMap.{TcpUdpPinginfo}
use pingweave.Udp.{got, received, receive_udp_message, ping_message}
use pingweave.Udp.Echo.{agains, receive_lem}
use Prim.Native.String.{String}
use pingweave.Common.{ip2uint}
use pingweave.Common.Identity.{weighed, weighed-map, one_ping}
use pingweave.Base.Int.{pos}
use pingweave.Scheduler.{Scheduler, next, ping_next, pick}
use pingweave.TcpUdpPinginfoMap.Account.{IsGood, named_in}
use pingweave.Udp.Client.{UdpClient, Round, tx_round}
use pingweave.Udp.Client.Threads.{start, pings, ping_of, IsCounted, Reach-IsCounted}

abbrev net : Net
net = record { inet_pton = λ _. some 0x0200_000a; undef = 0 }

abbrev try_enqueue : List TcpUdpResultMsg → TcpUdpResultMsg → List TcpUdpResultMsg × Bool
try_enqueue q m = (q ++ (m ∷ []), true)

abbrev empty_store : Store TcpUdpPinginfo (List TcpUdpResultMsg)
empty_store = record {
  table = record { map = []; key_list = []; next_iter = 0; threshold_ms = 1000 };
  queue = [];
}

receive_lem_example :
    receive_udp_message 10 (agains 2 (got 30 (ping_message 5) (some "10.0.0.2") ∷ []))
    ≡ received 5 "10.0.0.2"
receive_lem_example = receive_lem 10 2 30 (ping_message 5) (some "10.0.0.2") [] (omega arith)

abbrev one_address : Scheduler String
one_address = record {
  ipaddr = "10.0.0.1";
  address_info = "10.0.0.2" ∷ [];
  addr_idx = 0;
  load_config_interval_sec = pos 10;
  last_ping_time = 0;
  last_load_time = 0;
  inter_ping_interval_us = 1;
  interval_send_ping_microsec = 1;
  load_yaml_retry_cnt = 0;
}

abbrev new_client : UdpClient (List TcpUdpResultMsg)
new_client = record { scheduler = one_address; ping_uid = 0; store = empty_store; wire = [] }

abbrev first_round : Round
first_round = record {
  load_now = 5000;
  ping_now = 6000;
  now = 7000;
  steady_now = 8000;
  system_ns = 9000;
  sent = some 24;
}

empty_store-IsGood : IsGood 0 empty_store
empty_store-IsGood = record { valid = record { aligned = refl; linked = tt }; keyed = tt }

-- How often a queue reports the first ping.
abbrev firsts : List TcpUdpResultMsg → ℕ
firsts q = weighed (one_ping 0x200_000a_0000_0000) (map named_in q)

first_counts :
    (q : List TcpUdpResultMsg) (m : TcpUdpResultMsg)
    → firsts (try_enqueue q m).0 ≡ firsts q + one_ping 0x200_000a_0000_0000 (named_in m)
first_counts = weighed-map (one_ping 0x200_000a_0000_0000) named_in

named :
    next (λ s. s) 1000 5000 6000 one_address
    ≡ (record one_address { last_ping_time = 6000; addr_idx = 0 }, some "10.0.0.2", 0)
unfolding next ping_next pick
named = refl

small_ip : ip2uint net "10.0.0.1" < 2 ^ 32
unfolding ip2uint
small_ip = omega arith

Reach-IsCounted_example :
    IsCounted try_enqueue net "10.0.0.1"
      (one_ping 0x200_000a_0000_0000)
      firsts
      first_counts
      0
      8000
      1
      (ping_of try_enqueue net "10.0.0.1" 0 "10.0.0.2" 9000 ∷ [])
      (tx_round try_enqueue net "10.0.0.1" (λ s. s) 1000 first_round new_client)
unfolding weighed
Reach-IsCounted_example =
    Reach-IsCounted try_enqueue net "10.0.0.1" (one_ping 0x200_000a_0000_0000) firsts first_counts
      new_client (tx_round try_enqueue net "10.0.0.1" (λ s. s) 1000 first_round new_client) 8000 1
      (ping_of try_enqueue net "10.0.0.1" 0 "10.0.0.2" 9000 ∷ []) small_ip refl empty_store-IsGood
      refl (omega arith) (pings (λ s. s) 1000 first_round start named (omega arith))
