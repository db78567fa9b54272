-- ===== src/Results/Threads.antt =====
-- The functions of the result threads, `rdma_client_result_thread` of src/rdma_client.cpp,
-- `udp_client_result_thread` of src/udp_client.cpp and `tcp_client_result_thread` of
-- src/tcp_client.cpp, from their start on, with the ring that the reports are written to.
use pingweave.Base.{ℕ, Bool, true, not, ◌&&◌, Option, none, some, List, [], if◌then◌else◌}
use pingweave.Base.Int.{ℤ, pos, negsuc}
use pingweave.Base.Text.{Text, codes}
use pingweave.Ini.{
  Level, ControllerInfo, or_default, get_int_param_from_ini, get_controller_info_from_ini,
  get_log_config_from_ini,
}
use pingweave.Ipc.{SharedData, ProducerQueue, init_shared_memory, write_message}
use pingweave.Messages.{RdmaResultMsg, TcpUdpResultMsg}
use pingweave.ReportText.{convert_rdma_result_to_str, convert_tcpudp_result_to_str, aggregate}
use pingweave.RdmaServer.{done}
use pingweave.Results.{
  RdmaResultInfo, rdma_empty, rdma_account, TcpUdpResultInfo, tcpudp_empty, tcpudp_account,
  Collector, result_round, calc_result_stats,
}
use pingweave.Threads.{escaped, bare_throw, Outcome, fails, thread_loop}

-- `int report_interval_ms`: an elapsed time, which is not negative, is compared with it.
abbrev pub natural : ℤ → ℕ
natural (pos n) = n
natural (negsuc n) = 0

abbrev pub default_interval_ms : ℤ
default_interval_ms = pos 10_000

unfoldable pub report_interval_ms : Option Text → ℕ
report_interval_ms file = natural (
    or_default default_interval_ms (
      get_int_param_from_ini file default_interval_ms
        (codes "interval_report_ping_result_millisec")))

-- What the thread meets at its start: pingweave.ini at each of the three times that it is read,
-- the outcomes of `shm_open`, `ftruncate` and `mmap`, what the memory held, the level that an
-- uninitialised variable happens to hold, and the clock.
pub record Start : Type 0 where
  pub interval_file : Option Text
  pub controller_file : Option Text
  pub controller_before : ControllerInfo
  pub logger_file : Option Text
  pub level_before : Level
  pub shm_open_ok : Bool
  pub ftruncate_ok : Bool
  pub mmap_ok : Bool
  pub memory : SharedData
  pub now : ℕ

-- Whether the constructor of `ProducerQueue` returns.
unfoldable pub producer_made : Start → Bool
producer_made b =
    (get_log_config_from_ini b.logger_file b.level_before (codes "logger_ipc_process_producer")).1
    && (b.shm_open_ok && (b.ftruncate_ok && b.mmap_ok))

abbrev pub fresh_producer : SharedData → ProducerQueue
fresh_producer memory = record { shared = init_shared_memory memory; n_dropped_msgs = 0 }

pub record Reporter (I : Type 0) : Type 0 where
  pub collector : Collector I
  pub producer : ProducerQueue

module _ {I M : Type 0} (empty : I) (line : ℕ × I → Text) (dstip : M → ℕ)
    (account : M → I → I × Bool) where
  abbrev pub taken : Option M → Option (ℕ × (I → I × Bool))
  taken none = none
  taken (some m) = some (dstip m, account m)

  abbrev pub with_report : ProducerQueue → Collector I × Option (List Text) → Reporter I
  with_report p (c, none) = record { collector = c; producer = p }
  with_report p (c, some ls) = record {
    collector = c;
    producer = (write_message (aggregate ls) p).0;
  }

  -- One round, on what was taken out of the queue and the time. That a report was dropped is not
  -- looked at.
  unfoldable pub reporter_round : Option M × ℕ → Reporter I → Reporter I
  reporter_round (handed, now) r =
      with_report r.producer (result_round empty line (taken handed) now r.collector)

  abbrev pub started : Start → Reporter I
  started b = record {
    collector = record {
      dstip2result = [];
      last_report_time = b.now;
      report_interval_ms = report_interval_ms b.interval_file;
    };
    producer = fresh_producer b.memory;
  }

  -- The constructor of the producer stands outside the `try`: what it throws leaves the function with
  -- the flag still up.
  unfoldable pub result_thread : Start → List (Option M × ℕ) → Outcome (Reporter I)
  result_thread b rounds =
      if not (get_controller_info_from_ini b.controller_file b.controller_before).1
      then fails bare_throw (started b)
      else (if not (producer_made b)
          then record { state = started b; thread_alive = true; ending = escaped }
          else thread_loop (λ m r. (reporter_round m r, done)) rounds (started b))

-- The lines of the reports; `uint2ip` writes an address, and `local_time` a time.
module _ (local_time : ℕ → Text) (uint2ip : ℕ → Text) (ipv4 : Text) where
  abbrev pub rdma_report_line : ℕ × RdmaResultInfo → Text
  rdma_report_line (dstip, i) =
      convert_rdma_result_to_str local_time ipv4 (uint2ip dstip) i
        (calc_result_stats i.client_delays) (calc_result_stats i.network_delays)
        (calc_result_stats i.server_delays)

  abbrev pub tcpudp_report_line : ℕ × TcpUdpResultInfo → Text
  tcpudp_report_line (dstip, i) =
      convert_tcpudp_result_to_str local_time ipv4 (uint2ip dstip) i
        (calc_result_stats i.network_delays)

  unfoldable pub rdma_client_result_thread :
      Start → List (Option RdmaResultMsg × ℕ) → Outcome (Reporter RdmaResultInfo)
  rdma_client_result_thread =
      result_thread rdma_empty rdma_report_line (λ (m : RdmaResultMsg). m.dstip) rdma_account

  -- That of UDP and that of TCP differ only in the name of the ring.
  unfoldable pub tcpudp_client_result_thread :
      Start → List (Option TcpUdpResultMsg × ℕ) → Outcome (Reporter TcpUdpResultInfo)
  tcpudp_client_result_thread =
      result_thread tcpudp_empty tcpudp_report_line (λ (m : TcpUdpResultMsg). m.dstip)
        tcpudp_account
