-- ===== src/Results/Tests.antt =====
-- Instances of the theorems on the results.
use pingweave.Base.{
  ◌≢◌, Bool, ℕ, zero, suc, ◌*◌, ◌/◌, ◌≤◌, ◌<◌, ◌≡◌, refl, ap, inl, true, ◌&&◌, none, some, List, [],
  ◌∷◌, ◌++◌, map, arith, length, All, success, if◌then◌else◌,
}
use pingweave.Base.Decimal.{print}
use pingweave.Base.Int.{pos}
use pingweave.Base.Text.{Text, codes}
use pingweave.Ini.{trim, load, info, debug, get_int_param_from_ini, get_controller_info_from_ini}
use pingweave.Ini.File.{Line, IsLine, header, setting, file_of}
use pingweave.Ini.Params.{get_controller_info_from_ini_written, get_log_config_from_ini_written}
use pingweave.Ipc.{Message}
use pingweave.Ipc.Ring.{contents}
use pingweave.Messages.{TcpUdpResultMsg, result_success, result_failure}
use pingweave.ReportText.{aggregate}
use pingweave.Results.{TcpUdpResultInfo, calc_result_stats, sort, tcpudp_empty}
use pingweave.Results.Stats.{percentiles_in_order}
use pingweave.Results.Destinations.{times, has_result, delays_for}
use pingweave.Results.Tally.{Holds, count, rounds}
use pingweave.Results.Threads.{
  Start, producer_made, report_interval_ms, tcpudp_client_result_thread,
}
use pingweave.Results.Written.{written, taking, line, report_written}
use pingweave.Common.{Net, ip2uint, make_pingid}
use pingweave.Table.{find, remove}
use pingweave.Table.Linked.{IsValid}
use pingweave.Table.Expire.{live}
use pingweave.Udp.{server_round, ping_message, got, msg_size}
use pingweave.Udp.Echo.{agains}
use pingweave.Udp.Client.{UdpClient, Round, send_one, rx_round}
use pingweave.Exchange.Udp.{one_success, udp_ping_reported}
use pingweave.Threads.{running}

percentiles_in_order_example :
    let r = calc_result_stats (30 ∷ 10 ∷ 20 ∷ []) in
    (length (sort (30 ∷ 10 ∷ 20 ∷ [])) * 99 / 100 < length (sort (30 ∷ 10 ∷ 20 ∷ [])))
    × (r.percentile_50 ≤ r.percentile_95)
    × (r.percentile_95 ≤ r.percentile_99)
    × (r.percentile_99 ≤ r.max)
percentiles_in_order_example = percentiles_in_order 30 (10 ∷ 20 ∷ [])

abbrev good : TcpUdpResultMsg
good = record {
  pingid = 5;
  dstip = 7;
  time_ping_send = 100;
  network_delay = 20;
  result = result_success;
}

abbrev results : List (TcpUdpResultMsg × ℕ)
results =
    (good, 1000)
    ∷ (record good { result = result_failure }, 2000)
    ∷ (record good { dstip = 8 }, 3000)
    ∷ []

-- A file with the controller and the level of the producer's log; the interval is the default.
abbrev config : List Line
config =
    header [] (codes "controller") []
    ∷ setting [] (codes "host") (codes " ") (codes " 10.0.0.1")
    ∷ setting [] (codes "collect_port_http") (codes " ") (codes " 24704")
    ∷ header [] (codes "logging") []
    ∷ setting [] (codes "logger_ipc_process_producer") (codes " ") (codes " info")
    ∷ []

abbrev blank : ℕ → List Message
blank zero = []
blank (suc n) = [] ∷ blank n

abbrev begun : Start
begun = record {
  interval_file = none;
  controller_file = some (file_of config);
  controller_before = record { ip = []; port = pos 0 };
  logger_file = some (file_of config);
  level_before = debug;
  shm_open_ok = true;
  ftruncate_ok = true;
  mmap_ok = true;
  memory = record { messages = blank 64; head = 5; tail = 9 };
  now = 0;
}

config-IsLine : All IsLine config
config-IsLine = ground arith

printed : some (codes "24704") ≡ some (print 24704)
unfolding print
printed = refl

host_read : (get_controller_info_from_ini begun.controller_file begun.controller_before).1 ≡ success
unfolding trim
host_read =
    ap (λ r. r.1)
      (get_controller_info_from_ini_written config begun.controller_before (codes "10.0.0.1") 24704
        config-IsLine refl (λ e. absurd (cc)) printed (omega arith))

begun_made : producer_made begun ≡ true
unfolding producer_made trim
begun_made =
    ap (λ r. r.1 && true)
      (get_log_config_from_ini_written config (codes "logger_ipc_process_producer") info debug
        config-IsLine (inl refl))

abbrev local_time : ℕ → Text
local_time s = codes "2025-01-01 00:00:00"

abbrev uint2ip : ℕ → Text
uint2ip n = codes "10.0.0.3"

report_written_example :
    let o =
      tcpudp_client_result_thread local_time uint2ip
        (codes "10.0.0.2")
        begun
        (taking results ++ ((none, 10_000_000_000) ∷ [])) in
    let entries =
      (rounds results (record {
        dstip2result = [];
        last_report_time = 0;
        report_interval_ms = 10_000;
      })).dstip2result in
    (o.ending ≡ running)
    × (contents o.state.producer.shared
        ≡ written (aggregate (map (line local_time uint2ip (codes "10.0.0.2")) entries)))
    × (o.state.collector.dstip2result ≡ [])
    × ((x : ℕ) → times x entries ≡ (if has_result x (map (λ p. p.0) results) then 1 else 0))
    × All
        (λ (p : ℕ × TcpUdpResultInfo).
          Holds tcpudp_empty p.1 (λ code. count p.0 code (map (λ q. q.0) results))
          × (p.1.network_delays ≡ delays_for p.0 (map (λ q. q.0) results)))
        entries
unfolding report_interval_ms get_int_param_from_ini load
report_written_example =
    report_written local_time uint2ip (codes "10.0.0.2") begun results 10_000_000_000 host_read
      begun_made refl (omega arith, (omega arith, (omega arith, tt))) (omega arith)

abbrev net : Net
net = record { inet_pton = λ _. some 0x0200_000a; undef = 0 }

abbrev try_enqueue : List TcpUdpResultMsg → TcpUdpResultMsg → List TcpUdpResultMsg × Bool
try_enqueue q m = (q ++ (m ∷ []), true)

abbrev client : UdpClient (List TcpUdpResultMsg)
client = record {
  scheduler = record {
    ipaddr = "10.0.0.2";
    address_info = "10.0.0.3" ∷ [];
    addr_idx = 0;
    load_config_interval_sec = pos 10;
    last_ping_time = 0;
    last_load_time = 0;
    inter_ping_interval_us = 1;
    interval_send_ping_microsec = 1;
    load_yaml_retry_cnt = 0;
  };
  ping_uid = 4;
  store = record {
    table = record { map = []; key_list = []; next_iter = 0; threshold_ms = 1000 };
    queue = [];
  };
  wire = [];
}

client-IsValid : IsValid 0 client.store.table
client-IsValid = record { aligned = refl; linked = tt }

abbrev ping_round : Round
ping_round = record {
  load_now = 5000;
  ping_now = 6000;
  now = 7000;
  steady_now = 8000;
  system_ns = 9000;
  sent = some 24;
}

abbrev ping_id : ℕ
ping_id = make_pingid (ip2uint net "10.0.0.2") 4

ping_id_nonzero : ping_id ≢ 0
unfolding make_pingid ip2uint
ping_id_nonzero = omega arith

ping_id_free : find ping_id (live 1000 7000 client.store.table.map) ≡ none
unfolding find
ping_id_free = refl

abbrev pinged : UdpClient (List TcpUdpResultMsg)
pinged = send_one try_enqueue net "10.0.0.2" ping_round "10.0.0.3" client

abbrev result : TcpUdpResultMsg
result = record {
  pingid = ping_id;
  dstip = 0x0200_000a;
  time_ping_send = 9000;
  network_delay = 82_000;
  result = result_success;
}

udp_ping_reported_example :
    let o =
      tcpudp_client_result_thread local_time uint2ip
        (codes "10.0.0.2")
        begun
        ((some result, 1000) ∷ (none, 10_000_000_000) ∷ []) in
    (pinged.wire ≡ (0x0200_000a, 33336, ping_message ping_id) ∷ [])
    × (server_round net.inet_pton 10
          (agains 2 (got msg_size (ping_message ping_id) (some "10.0.0.2") ∷ []))
          (some 24)
        ≡ some (0x0200_000a, 33335, ping_message ping_id))
    × ((rx_round try_enqueue net "10.0.0.2" 10
          (agains 3 (got msg_size (ping_message ping_id) (some "10.0.0.3") ∷ []))
          90_000
          pinged).store
        ≡ record {
          table = (remove ping_id pinged.store.table).0;
          queue = pinged.store.queue ++ (result ∷ []);
        })
    × (contents o.state.producer.shared
        ≡ written (
            aggregate (
              line local_time uint2ip
                (codes "10.0.0.2")
                (ip2uint net "10.0.0.3", one_success 9000 82_000)
              ∷ [])))
unfolding ip2uint report_interval_ms get_int_param_from_ini load
udp_ping_reported_example =
    udp_ping_reported try_enqueue net local_time uint2ip "10.0.0.2" "10.0.0.2" "10.0.0.3"
      (codes "10.0.0.2") 0x0200_000a 0x0200_000a 10 2 3 90_000 (some 24) ping_round client begun
      1000 10_000_000_000 client-IsValid ping_id_free ping_id_nonzero (omega arith) (omega arith)
      (omega arith) refl refl host_read begun_made refl (omega arith) (omega arith)
