-- ===== src/Tcp/Tests.antt =====
-- Runs of the TCP client, and instances of its theorems.
use pingweave.Base.{
  ℕ, ◌+◌, ◌≤◌, map, ◌≡◌, refl, Bool, true, false, Option, none, some, List, [], ◌∷◌, ◌++◌, arith,
  length,
}
use Prim.Native.String.{String}
use pingweave.Common.{Net, ip2uint}
use pingweave.Common.Identity.{weighed, weighed-map, one_ping}
use pingweave.Table.Count.{weights}
use pingweave.Base.Int.{pos}
use pingweave.Scheduler.{Scheduler}
use pingweave.Tcp.Threads.{TxRound, tcp_client_tx_thread}
use pingweave.Tcp.Identities.{identities, AllDifferent, tcp_client_tx_thread_lem}
use pingweave.Messages.{TcpUdpResultMsg}
use pingweave.Table.{Store}
use pingweave.TcpUdpPinginfoMap.{TcpUdpPinginfo}
use pingweave.TcpUdpPinginfoMap.Account.{IsGood, named_in, run, total}
use pingweave.Tcp.{SocketCalls, TcpContext, Attempt, make_ctx, send_tcp_message}
use pingweave.Tcp.Sockets.{make_ctx_lem, option_names}
use pingweave.Tcp.Sending.{calls_of, send_tcp_message_lem}

abbrev net : Net
net = record { inet_pton = λ _. some 0x0200_000a; undef = 0 }

abbrev all_ok : SocketCalls
all_ok = record {
  socket_ok = true;
  setsockopt_ok = λ _. true;
  bind_ok = true;
  getsockname_ok = true;
  listen_ok = true;
}

abbrev server : TcpContext
server = record { is_server = true; sock = false; options = []; bound = none; listening = false }

ready : (make_ctx net all_ok "10.0.0.2" 33334 server).1 ≡ true
unfolding make_ctx
ready = refl

make_ctx_lem_example :
    let ctx = (make_ctx net all_ok "10.0.0.2" 33334 server).0 in
    (ctx.sock ≡ true)
    × ((a : ℕ) × (net.inet_pton "10.0.0.2" ≡ some a) × (ctx.bound ≡ some (a, 33334)))
    × (ctx.listening ≡ true)
    × (ctx.options ≡ option_names true)
make_ctx_lem_example = make_ctx_lem net all_ok "10.0.0.2" 33334 true ready

abbrev attempt : Attempt
attempt = record {
  calls = all_ok;
  connect_ok = true;
  local_ok = true;
  now = 10;
  steady_now = 20;
  system_ns = 30;
  recv_time = 50;
}

abbrev try_enqueue : List TcpUdpResultMsg → TcpUdpResultMsg → List TcpUdpResultMsg × Bool
try_enqueue q m = (q ++ (m ∷ []), true)

abbrev empty_store : Store TcpUdpPinginfo (List TcpUdpResultMsg)
empty_store = record {
  table = record { map = []; key_list = []; next_iter = 0; threshold_ms = 1000 };
  queue = [];
}

empty-IsGood : IsGood 0 empty_store
empty-IsGood = record { valid = record { aligned = refl; linked = tt }; keyed = tt }

-- How often a queue reports the ping with the number 5.
abbrev fives : List TcpUdpResultMsg → ℕ
fives q = weighed (one_ping 5) (map named_in q)

send_tcp_message_lem_example :
    let to : Option (ℕ × ℕ) = some (0x0200_000a, 33334) in
    let calls = calls_of to attempt "10.0.0.2" 5 in
    let (s', connected, done) =
      send_tcp_message try_enqueue net attempt "10.0.0.1" "10.0.0.2" 33334 5 empty_store in
    (connected ≡ to)
    × (s' ≡ (run try_enqueue net empty_store calls).0)
    × (done ≡ true)
    × (total try_enqueue net (one_ping 5) fives (weighed-map (one_ping 5) named_in) s'
        ≡ 0 + weighed (one_ping 5) (run try_enqueue net empty_store calls).1)
unfolding weighed weights
send_tcp_message_lem_example =
    send_tcp_message_lem try_enqueue net (one_ping 5) fives (weighed-map (one_ping 5) named_in)
      attempt "10.0.0.1" "10.0.0.2" 33334 5 empty_store (omega arith) empty-IsGood

abbrev scheduler : Scheduler String
scheduler = record {
  address_info = "10.0.0.3" ∷ "10.0.0.4" ∷ [];
  ipaddr = "10.0.0.2";
  addr_idx = 0;
  load_config_interval_sec = pos 10;
  last_ping_time = 0;
  last_load_time = 0;
  inter_ping_interval_us = 1;
  interval_send_ping_microsec = 2;
  load_yaml_retry_cnt = 0;
}

-- The third round cannot start its thread.
abbrev tx_rounds : List TxRound
tx_rounds =
    record { load_now = 0; ping_now = 2000; thread_ok = true }
    ∷ record { load_now = 0; ping_now = 4000; thread_ok = true }
    ∷ record { load_now = 0; ping_now = 6000; thread_ok = false }
    ∷ []

tcp_client_tx_thread_lem_example :
    let started =
      (tcp_client_tx_thread net "10.0.0.2" (λ s. s) 1_000_000 scheduler tx_rounds).state.started in
    (map (λ p. p.1) started ≡ identities (ip2uint net "10.0.0.2") 0 (length started))
    × AllDifferent (map (λ p. p.1) started)
    × (length started ≤ 3)
unfolding ip2uint
tcp_client_tx_thread_lem_example =
    tcp_client_tx_thread_lem net "10.0.0.2" (λ s. s) 1_000_000 scheduler tx_rounds (omega arith)
      (omega arith)
