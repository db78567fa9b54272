-- ===== src/ReportText/Tests.antt =====
-- Runs of the printers, and instances of their theorems.
use pingweave.Base.{ℕ, ◌≡◌, refl, List, [], ◌∷◌, ◌++◌, arith}
use pingweave.Base.Text.{Text, codes}
use pingweave.Results.{ResultStat, TcpUdpResultInfo, RdmaResultInfo}
use pingweave.ReportText.{timestamp_ns_to_string, convert_rdma_result_to_str}
use pingweave.ReportText.Reading.{split, numbers, stat_numbers, convert_rdma_result_to_str_lem}

abbrev local_time : ℕ → Text
local_time s = codes "2026-01-01 00:00:00"

abbrev stat : ResultStat
stat = record { mean = 30; max = 40; percentile_50 = 30; percentile_95 = 40; percentile_99 = 40 }

abbrev info : TcpUdpResultInfo
info = record {
  n_success = 2;
  n_failure = 0;
  n_weird = 1;
  ts_start = 1_000_000_007;
  ts_end = 2_000_000_000;
  network_delays = 20 ∷ 40 ∷ [];
}

abbrev rdma_info : RdmaResultInfo
rdma_info = record {
  n_success = 2;
  n_failure = 0;
  n_weird = 1;
  ts_start = 1_000_000_007;
  ts_end = 2_000_000_000;
  server_delays = [];
  network_delays = 20 ∷ 40 ∷ [];
  client_delays = [];
}

timestamp_runs :
    timestamp_ns_to_string local_time 1_000_000_007 ≡ codes "2026-01-01 00:00:00.000000007"
unfolding timestamp_ns_to_string
timestamp_runs = refl

convert_rdma_result_to_str_lem_example :
    (counts : List Text) × (cs : List Text) × (ns : List Text) × (ss : List Text) × (split (
        convert_rdma_result_to_str local_time
          (codes "10.0.0.1")
          (codes "10.0.0.2")
          rdma_info
          stat
          stat
          stat)
      ≡ codes "10.0.0.1"
        ∷ codes "10.0.0.2"
        ∷ timestamp_ns_to_string local_time 1_000_000_007
        ∷ timestamp_ns_to_string local_time 2_000_000_000
        ∷ (counts ++ ((codes "client" ∷ cs) ++ ((codes "network" ∷ ns) ++ (codes "server" ∷ ss)))))
    × (numbers counts ≡ 2 ∷ 0 ∷ 1 ∷ [])
    × (numbers cs ≡ stat_numbers stat)
    × (numbers ns ≡ stat_numbers stat)
    × (numbers ss ≡ stat_numbers stat)
convert_rdma_result_to_str_lem_example =
    convert_rdma_result_to_str_lem local_time (codes "10.0.0.1") (codes "10.0.0.2") rdma_info stat
      stat stat (λ s. ground arith) (ground arith) (ground arith)
