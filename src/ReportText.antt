-- ===== src/ReportText.antt =====
-- The text of a report: `timestamp_ns_to_string` of src/common.cpp, `convert_rdma_result_to_str` of
-- src/rdma_common.cpp, `convert_tcpudp_result_to_str` of src/tcpudp_common.cpp, and the lines that
-- the result threads put together. `local_time` is what `localtime` and `strftime` make of a number
-- of seconds.
pub mod Reading
pub mod Times
mod Tests
use pingweave.Base.{
  ℕ, zero, suc, ◌+◌, ◌-◌, ◌*◌, ◌/◌, ◌%◌, ◌^◌, ◌≤◌, ◌<◌, bit_or, bit_and, ◌≡◌, refl, sym, ap, ap₂,
  subst, ◌∙◌, ◌≢◌, ◌↔◌, ◌⊎◌, inl, inr, ite, if_pos, if_neg, Bool, true, false, not, ◌&&◌, ◌||◌,
  Option, none, some, List, [], ◌∷◌, ◌++◌, map, foldl, filter, Mem, Nodup, Perm, arith, dec_lt,
  dec_le, ℕ_discrete, u64, u32, success, failure, ltb, leb, ◌==◌, if◌then◌else◌, ltb→lt, lt→ltb,
  leb→le, ==_iff, ==_self, Bool-cases, Option-cases, length, get_elem?, get_or, set, All,
  length-append, length-set, get_or-set_self, get_or-set_ne,
}
use pingweave.Base.Text.{Text, codes}
use pingweave.Base.Decimal.{print}
use pingweave.Results.{ResultStat, RdmaResultInfo, TcpUdpResultInfo}

-- The k low decimal digits, as `%09llu` prints a number with 9 digits at most.
abbrev pub print_padded : ℕ → ℕ → Text
print_padded zero n = []
print_padded (suc k) n = print_padded k (n / 10) ++ ((b'0' + n % 10) ∷ [])

pub timestamp_ns_to_string : (ℕ → Text) → ℕ → Text
timestamp_ns_to_string local_time timestamp_ns =
    local_time (timestamp_ns / 10 ^ 9) ++ (b'.' ∷ print_padded 9 (timestamp_ns % 10 ^ 9))

-- Fields with a comma between them.
abbrev pub join : List Text → Text
join [] = []
join (f ∷ []) = f
join (f ∷ g ∷ fs) = f ++ (b',' ∷ join (g ∷ fs))

abbrev pub stat_fields : ResultStat → List Text
stat_fields s =
    print s.mean
    ∷ print s.max
    ∷ print s.percentile_50
    ∷ print s.percentile_95
    ∷ print s.percentile_99
    ∷ []

module _ (local_time : ℕ → Text) where
  abbrev pub rdma_fields :
      Text → Text → RdmaResultInfo → ResultStat → ResultStat → ResultStat → List Text
  rdma_fields srcip dstip info client_stat network_stat server_stat =
      srcip
        ∷ dstip
        ∷ timestamp_ns_to_string local_time info.ts_start
        ∷ timestamp_ns_to_string local_time info.ts_end
        ∷ print info.n_success
        ∷ print info.n_failure
        ∷ print info.n_weird
        ∷ (codes "client" ∷ stat_fields client_stat)
      ++ ((codes "network" ∷ stat_fields network_stat)
          ++ (codes "server" ∷ stat_fields server_stat))

  pub convert_rdma_result_to_str :
      Text → Text → RdmaResultInfo → ResultStat → ResultStat → ResultStat → Text
  convert_rdma_result_to_str srcip dstip info client_stat network_stat server_stat =
      join (rdma_fields srcip dstip info client_stat network_stat server_stat)

  abbrev pub tcpudp_fields : Text → Text → TcpUdpResultInfo → ResultStat → List Text
  tcpudp_fields srcip dstip info network_stat =
      srcip
      ∷ dstip
      ∷ timestamp_ns_to_string local_time info.ts_start
      ∷ timestamp_ns_to_string local_time info.ts_end
      ∷ print info.n_success
      ∷ print info.n_failure
      ∷ print info.n_weird
      ∷ codes "network"
      ∷ stat_fields network_stat

  pub convert_tcpudp_result_to_str : Text → Text → TcpUdpResultInfo → ResultStat → Text
  convert_tcpudp_result_to_str srcip dstip info network_stat =
      join (tcpudp_fields srcip dstip info network_stat)

-- `agg_result += result + "\n"`
pub aggregate : List Text → Text
aggregate [] = []
aggregate (result ∷ results) = result ++ (10 ∷ aggregate results)
