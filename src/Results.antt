-- ===== src/Results.antt =====
-- The result threads of src/rdma_client.cpp, src/udp_client.cpp and src/tcp_client.cpp: the results
-- of the pings are gathered for each destination, and reported at intervals; and
-- `calc_result_stats` of src/common.cpp. A report is kept as its lines, before they become text.
pub mod Stats
pub mod Tally
pub mod Destinations
pub mod Threads
pub mod Written
mod Tests
use pingweave.Base.{
  ℕ, zero, suc, ◌+◌, ◌-◌, ◌*◌, ◌/◌, ◌%◌, ◌^◌, ◌≤◌, ◌<◌, bit_or, bit_and, ◌≡◌, refl, sym, ap, ap₂,
  subst, ◌∙◌, ◌≢◌, ◌↔◌, ◌⊎◌, inl, inr, ite, if_pos, if_neg, Bool, true, false, not, ◌&&◌, ◌||◌,
  Option, none, some, List, [], ◌∷◌, ◌++◌, map, foldl, filter, Mem, Nodup, Perm, arith, dec_lt,
  dec_le, ℕ_discrete, u64, u32, success, failure, ltb, leb, ◌==◌, if◌then◌else◌, ltb→lt, lt→ltb,
  leb→le, ==_iff, ==_self, Bool-cases, Option-cases, length, get_elem?, get_or, set, All,
  length-append, length-set, get_or-set_self, get_or-set_ne,
}
use pingweave.Base.Int.{ℤ, ◌==ℤ◌}
use pingweave.Messages.{
  RdmaResultMsg, TcpUdpResultMsg, result_success, result_failure, result_weird,
}

pub record ResultStat : Type 0 where
  pub mean : ℕ
  pub max : ℕ
  pub percentile_50 : ℕ
  pub percentile_95 : ℕ
  pub percentile_99 : ℕ

-- `std::accumulate` on `uint64_t`, `std::max_element` and `std::sort`.
unfoldable pub accumulate : List ℕ → ℕ → ℕ
accumulate [] acc = acc
accumulate (x ∷ xs) acc = accumulate xs (u64 (acc + x))

unfoldable pub max_element : List ℕ → ℕ
max_element [] = 0
max_element (x ∷ xs) = let m = max_element xs in if leb m x then x else m

unfoldable pub insert_sorted : ℕ → List ℕ → List ℕ
insert_sorted x [] = x ∷ []
insert_sorted x (y ∷ ys) = let rest = insert_sorted x ys in if leb x y then x ∷ y ∷ ys else y ∷ rest

unfoldable pub sort : List ℕ → List ℕ
sort [] = []
sort (x ∷ xs) = insert_sorted x (sort xs)

unfoldable pub percentile : ℕ → List ℕ → ℕ
percentile p sorted = get_or sorted (length sorted * p / 100) 0

unfoldable pub calc_result_stats : List ℕ → ResultStat
calc_result_stats [] = record {
  mean = 0;
  max = 0;
  percentile_50 = 0;
  percentile_95 = 0;
  percentile_99 = 0;
}
calc_result_stats (d ∷ ds) =
    let sorted = sort (d ∷ ds) in
    record {
      mean = accumulate (d ∷ ds) 0 / length (d ∷ ds);
      max = max_element (d ∷ ds);
      percentile_50 = percentile 50 sorted;
      percentile_95 = percentile 95 sorted;
      percentile_99 = percentile 99 sorted;
    }

pub record RdmaResultInfo : Type 0 where
  pub n_success : ℕ
  pub n_failure : ℕ
  pub n_weird : ℕ
  pub ts_start : ℕ
  pub ts_end : ℕ
  pub server_delays : List ℕ
  pub network_delays : List ℕ
  pub client_delays : List ℕ

abbrev pub rdma_empty : RdmaResultInfo
rdma_empty = record {
  n_success = 0;
  n_failure = 0;
  n_weird = 0;
  ts_start = 0;
  ts_end = 0;
  server_delays = [];
  network_delays = [];
  client_delays = [];
}

-- The information after a result, and whether the code of the result is known.
unfoldable pub rdma_account : RdmaResultMsg → RdmaResultInfo → RdmaResultInfo × Bool
rdma_account m info =
    let i = record info {
      ts_start = if info.ts_start == 0 then m.time_ping_send else info.ts_start;
      ts_end = m.time_ping_send;
    } in
    if m.result ==ℤ result_success
    then (
      record i {
        n_success = u32 (info.n_success + 1);
        client_delays = info.client_delays ++ (m.client_delay ∷ []);
        network_delays = info.network_delays ++ (m.network_delay ∷ []);
        server_delays = info.server_delays ++ (m.server_delay ∷ []);
      },
      true,
    )
    else (if m.result ==ℤ result_failure
        then (record i { n_failure = u32 (info.n_failure + 1) }, true)
        else (if m.result ==ℤ result_weird
            then (record i { n_weird = u32 (info.n_weird + 1) }, true)
            else (i, false)))

pub record TcpUdpResultInfo : Type 0 where
  pub n_success : ℕ
  pub n_failure : ℕ
  pub n_weird : ℕ
  pub ts_start : ℕ
  pub ts_end : ℕ
  pub network_delays : List ℕ

abbrev pub tcpudp_empty : TcpUdpResultInfo
tcpudp_empty = record {
  n_success = 0;
  n_failure = 0;
  n_weird = 0;
  ts_start = 0;
  ts_end = 0;
  network_delays = [];
}

unfoldable pub tcpudp_account : TcpUdpResultMsg → TcpUdpResultInfo → TcpUdpResultInfo × Bool
tcpudp_account m info =
    let i = record info {
      ts_start = if info.ts_start == 0 then m.time_ping_send else info.ts_start;
      ts_end = m.time_ping_send;
    } in
    if m.result ==ℤ result_success
    then (
      record i {
        n_success = u32 (info.n_success + 1);
        network_delays = info.network_delays ++ (m.network_delay ∷ []);
      },
      true,
    )
    else (if m.result ==ℤ result_failure
        then (record i { n_failure = u32 (info.n_failure + 1) }, true)
        else (if m.result ==ℤ result_weird
            then (record i { n_weird = u32 (info.n_weird + 1) }, true)
            else (i, false)))

module _ {I : Type 0} (empty : I) where
  -- `dstip2result[dstip]`, which makes an empty entry where there is none, and a write to it.
  unfoldable pub lookup : ℕ → List (ℕ × I) → I
  lookup dstip [] = empty
  lookup dstip ((k, i) ∷ m) = if k == dstip then i else lookup dstip m

  -- The entries stand in the order in which their destinations came first, where the code has an
  -- `unordered_map`, whose order is not specified.
  unfoldable pub store : ℕ → I → List (ℕ × I) → List (ℕ × I)
  store dstip i [] = (dstip, i) ∷ []
  store dstip i ((k, j) ∷ m) =
      let rest = store dstip i m in if k == dstip then (k, i) ∷ m else (k, j) ∷ rest

pub record Collector (I : Type 0) : Type 0 where
  pub dstip2result : List (ℕ × I)
  pub last_report_time : ℕ
  pub report_interval_ms : ℕ

module _ {I L : Type 0} (empty : I) (line : ℕ × I → L) where
  -- The lines of the report that is due, if one is; the history is cleared with it.
  unfoldable pub report : ℕ → Collector I → Collector I × Option (List L)
  report current_time c =
      if leb c.report_interval_ms ((current_time - c.last_report_time) / 10 ^ 6)
      then (
        record c { dstip2result = []; last_report_time = current_time },
        some (map line c.dstip2result),
      )
      else (c, none)

  -- One round of the loop: what is taken out of the queue, if anything, for its destination. A
  -- result with an unknown code ends the round.
  unfoldable pub result_round :
      Option (ℕ × (I → I × Bool)) → ℕ → Collector I → Collector I × Option (List L)
  result_round none current_time c = report current_time c
  result_round (some (dstip, account)) current_time c =
      let (i, is_known) = account (lookup empty dstip c.dstip2result) in
      let c1 = record c { dstip2result = store empty dstip i c.dstip2result } in
      if is_known then report current_time c1 else (c1, none)

-- The lines: destination, counts and times, and the statistics of the delays.
abbrev pub rdma_line :
    ℕ × RdmaResultInfo → ℕ × RdmaResultInfo × ResultStat × ResultStat × ResultStat
rdma_line (dstip, info) = (
  dstip,
  info,
  calc_result_stats info.client_delays,
  calc_result_stats info.network_delays,
  calc_result_stats info.server_delays,
)

abbrev pub tcpudp_line : ℕ × TcpUdpResultInfo → ℕ × TcpUdpResultInfo × ResultStat
tcpudp_line (dstip, info) = (dstip, info, calc_result_stats info.network_delays)
