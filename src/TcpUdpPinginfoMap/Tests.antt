-- ===== src/TcpUdpPinginfoMap/Tests.antt =====
-- A run of the table of TCP and UDP pings, and the account of it.
use pingweave.Base.{◌+◌, ◌≡◌, refl, Bool, true, some, List, [], ◌∷◌, ◌++◌, arith, ℕ, map}
use pingweave.Common.{Net}
use pingweave.Common.Identity.{weighed, weighed-map, one_ping}
use pingweave.Table.Count.{weights}
use pingweave.Messages.{TcpUdpResultMsg}
use pingweave.Table.{Store}
use pingweave.TcpUdpPinginfoMap.{TcpUdpPinginfo}
use pingweave.TcpUdpPinginfoMap.Account.{
  Call, sends, pong, asks_size, IsGood, named_in, run, total, total-run,
}

abbrev net : Net
net = record { inet_pton = λ _. some 0x0200_000a; undef = 0 }

abbrev try_enqueue : List TcpUdpResultMsg → TcpUdpResultMsg → List TcpUdpResultMsg × Bool
try_enqueue q m = (q ++ (m ∷ []), true)

abbrev empty_store : Store TcpUdpPinginfo (List TcpUdpResultMsg)
empty_store = record {
  table = record { map = []; key_list = []; next_iter = 0; threshold_ms = 1000 };
  queue = [];
}

empty-IsGood : IsGood 0 empty_store
empty-IsGood = record { valid = record { aligned = refl; linked = tt }; keyed = tt }

-- The first ping is answered, the second expires.
abbrev calls : List Call
calls =
    sends 5 "10.0.0.2" 10 20 30
    ∷ sends 6 "10.0.0.3" 40 50 60
    ∷ pong 5 70
    ∷ asks_size 2_000_000_000
    ∷ []

-- How often a queue reports the ping with the number 5.
abbrev fives : List TcpUdpResultMsg → ℕ
fives q = weighed (one_ping 5) (map named_in q)

total-run_example :
    total try_enqueue net
      (one_ping 5)
      fives
      (weighed-map (one_ping 5) named_in)
      (run try_enqueue net empty_store calls).0
    ≡ 0 + weighed (one_ping 5) (run try_enqueue net empty_store calls).1
unfolding weighed weights
total-run_example =
    total-run try_enqueue net (one_ping 5) fives (weighed-map (one_ping 5) named_in) calls
      empty_store (omega arith, (omega arith, tt)) empty-IsGood
