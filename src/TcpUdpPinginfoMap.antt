-- ===== src/TcpUdpPinginfoMap.antt =====
-- `TcpUdpPinginfoMap` of src/tcpudp_ping_info.hpp: the pings that a TCP or UDP client waits for.
-- A PONG reports its ping and removes it; `expireEntries` reports a stale ping as failed. The
-- queue of reports is a library's: its type and `try_enqueue` are parameters.
pub mod Account
mod Tests
use pingweave.Base.{
  ℕ, zero, suc, ◌+◌, ◌-◌, ◌*◌, ◌/◌, ◌%◌, ◌^◌, ◌≤◌, ◌<◌, bit_or, bit_and, ◌≡◌, refl, sym, ap, ap₂,
  subst, ◌∙◌, ◌≢◌, ◌↔◌, ◌⊎◌, inl, inr, ite, if_pos, if_neg, Bool, true, false, not, ◌&&◌, ◌||◌,
  Option, none, some, List, [], ◌∷◌, ◌++◌, map, foldl, filter, Mem, Nodup, Perm, arith, dec_lt,
  dec_le, ℕ_discrete, u64, u32, success, failure, ltb, leb, ◌==◌, if◌then◌else◌, ltb→lt, lt→ltb,
  leb→le, ==_iff, ==_self, Bool-cases, Option-cases, length, get_elem?, get_or, set, All,
  length-append, length-set, get_or-set_self, get_or-set_ne,
}
use pingweave.Common.{Net, ip2uint, calc_time_delta_with_bitwrap, uint64_max}
use pingweave.Messages.{TcpUdpResultMsg, result_success, result_failure}
use pingweave.Table
use pingweave.Table.{Store, Table, Entry, find, modify, remove, expire_entries}
use Prim.Native.String.{String}

pub record TcpUdpPinginfo : Type 0 where
  pub pingid : ℕ
  pub dstip : String
  pub time_ping_send : ℕ
  pub network_delay : ℕ

module _ (net : Net) where
  unfoldable pub answered : TcpUdpPinginfo → ℕ → TcpUdpResultMsg
  answered v recv_time = record {
    pingid = v.pingid;
    dstip = ip2uint net v.dstip;
    time_ping_send = v.time_ping_send;
    network_delay = calc_time_delta_with_bitwrap v.network_delay recv_time uint64_max;
    result = result_success;
  }

  pub failed : TcpUdpPinginfo → TcpUdpResultMsg
  failed v = record {
    pingid = v.pingid;
    dstip = ip2uint net v.dstip;
    time_ping_send = v.time_ping_send;
    network_delay = 0;
    result = result_failure;
  }

module _ {Q : Type 0} (try_enqueue : Q → TcpUdpResultMsg → Q × Bool) (net : Net) where
  pub evict : Q → TcpUdpPinginfo → Q
  evict q v = (try_enqueue q (failed net v)).0

  -- The clock is read for the expiry, for the entry, and as system time.
  unfoldable pub insert :
      ℕ → ℕ → String → ℕ → ℕ → ℕ → Store TcpUdpPinginfo Q → Store TcpUdpPinginfo Q × Bool
  insert key pingid dstip now steady_now system_ns =
      Table.insert evict key
        (record {
          pingid = pingid;
          dstip = dstip;
          time_ping_send = system_ns;
          network_delay = u64 steady_now;
        })
        now steady_now

  pub get : ℕ → Store TcpUdpPinginfo Q → Option TcpUdpPinginfo
  get key s = elim (find key s.table.map) [ none ↦ none | some e ↦ some e.value ]

  -- The value is copied before it is changed, so the entry keeps its send time.
  unfoldable pub update_pong_info : ℕ → ℕ → Store TcpUdpPinginfo Q → Store TcpUdpPinginfo Q × Bool
  update_pong_info key recv_time s = elim (find key s.table.map) [
    | none ↦ (s, failure)
    | some e ↦ (
      record {
        table = (remove e.value.pingid s.table).0;
        queue = (try_enqueue s.queue (answered net e.value recv_time)).0;
      },
      success,
    )
  ]

  unfoldable pub size : ℕ → Store TcpUdpPinginfo Q → Store TcpUdpPinginfo Q × ℕ
  size now s = let s' = (expire_entries evict now s).0 in (s', length s'.table.map)

  unfoldable pub is_empty : ℕ → Store TcpUdpPinginfo Q → Store TcpUdpPinginfo Q × Bool
  is_empty now s = let s' = (expire_entries evict now s).0 in (s', length s'.table.map == 0)
