-- ===== src/RdmaPinginfoMap.antt =====
-- `RdmaPinginfoMap` of src/rdma_ping_info.hpp: the pings that an RDMA client waits for.
--
-- A ping is complete when the completion of its send (CQE), its PONG and its ACK have come in;
-- then `logging` reports it and removes it. What is not complete in time, `expireEntries` reports
-- as failed. The queue of reports is a library's: its type `Q` and `try_enqueue` are parameters.
-- Each call holds the table's lock, and is one step. Log lines are left out.
pub mod Updates
pub mod Events
pub mod Report
pub mod Waiting
pub mod Account
mod Tests
use pingweave.Base.{
  ℕ, zero, suc, ◌+◌, ◌-◌, ◌*◌, ◌/◌, ◌%◌, ◌^◌, ◌≤◌, ◌<◌, bit_or, bit_and, ◌≡◌, refl, sym, ap, ap₂,
  subst, ◌∙◌, ◌≢◌, ◌↔◌, ◌⊎◌, inl, inr, ite, if_pos, if_neg, Bool, true, false, not, ◌&&◌, ◌||◌,
  Option, none, some, List, [], ◌∷◌, ◌++◌, map, foldl, filter, Mem, Nodup, Perm, arith, dec_lt,
  dec_le, ℕ_discrete, u64, u32, success, failure, ltb, leb, ◌==◌, if◌then◌else◌, ltb→lt, lt→ltb,
  leb→le, ==_iff, ==_self, Bool-cases, Option-cases, length, get_elem?, get_or, set, All,
  length-append, length-set, get_or-set_self, get_or-set_ne,
}
use pingweave.Base.Int.{ℤ}
use pingweave.Common.{Net, ip2uint, calc_time_delta_with_modulo, time_calc_modulo}
use pingweave.Messages.{RdmaPingMsg, RdmaResultMsg, result_success, result_failure, result_weird}
use pingweave.Table
use pingweave.Table.{Store, Table, Entry, find, modify, remove, expire_entries}
use Prim.Native.String.{String}

pub record RdmaPinginfo : Type 0 where
  pub pingid : ℕ
  pub qpn : ℕ
  pub gid : List ℕ
  pub lid : ℕ
  pub dstip : String
  pub time_ping_send : ℕ
  pub client_delay : ℕ
  pub network_delay : ℕ
  pub server_delay : ℕ
  pub recv_cnt : ℕ
  pub recv_bitmap : ℕ

abbrev pub mask_ping_cqe : ℕ
mask_ping_cqe = 1

abbrev pub mask_pong : ℕ
mask_pong = 2

abbrev pub mask_ack : ℕ
mask_ack = 4

-- `PINGWEAVE_MASK_RECV`
abbrev pub mask_recv : ℕ
mask_recv = bit_or (bit_or mask_ping_cqe mask_pong) mask_ack

-- What the three updates write to an entry's value.
pub on_ping_cqe : ℕ → RdmaPinginfo → RdmaPinginfo
on_ping_cqe x v = record v {
  network_delay =
      if v.network_delay == 0
      then x
      else calc_time_delta_with_modulo x v.network_delay time_calc_modulo;
  recv_bitmap = bit_or v.recv_bitmap mask_ping_cqe;
  recv_cnt = u32 (v.recv_cnt + 1);
}

pub on_pong : ℕ → ℕ → RdmaPinginfo → RdmaPinginfo
on_pong recv_time cqe_time v = record v {
  client_delay = calc_time_delta_with_modulo v.client_delay recv_time time_calc_modulo;
  network_delay =
      if v.network_delay == 0
      then cqe_time
      else calc_time_delta_with_modulo v.network_delay cqe_time time_calc_modulo;
  recv_bitmap = bit_or v.recv_bitmap mask_pong;
  recv_cnt = u32 (v.recv_cnt + 1);
}

pub on_ack : ℕ → RdmaPinginfo → RdmaPinginfo
on_ack server_delay v = record v {
  server_delay = server_delay;
  recv_bitmap = bit_or v.recv_bitmap mask_ack;
  recv_cnt = u32 (v.recv_cnt + 1);
}

pub initial : RdmaPingMsg → String → ℕ → ℕ → RdmaPinginfo
initial msg dstip system_ns steady_ns = record {
  pingid = msg.pingid;
  qpn = msg.qpn;
  gid = msg.gid;
  lid = msg.lid;
  dstip = dstip;
  time_ping_send = system_ns;
  client_delay = u64 steady_ns;
  network_delay = 0;
  server_delay = 0;
  recv_cnt = 0;
  recv_bitmap = 0;
}

module _ (net : Net) where
  -- The report of a complete ping, and that of one that ran out of time.
  pub completed : RdmaPinginfo → RdmaResultMsg
  completed v = record {
    pingid = v.pingid;
    dstip = ip2uint net v.dstip;
    time_ping_send = v.time_ping_send;
    client_delay = u64 (v.client_delay + 2 ^ 64 - v.network_delay);
    network_delay =
        if ltb v.server_delay v.network_delay
        then v.network_delay - v.server_delay
        else v.network_delay;
    server_delay = v.server_delay;
    result = if leb v.network_delay v.server_delay then result_weird else result_success;
  }

  pub failed : RdmaPinginfo → RdmaResultMsg
  failed v = record {
    pingid = v.pingid;
    dstip = ip2uint net v.dstip;
    time_ping_send = v.time_ping_send;
    client_delay = 0;
    network_delay = 0;
    server_delay = 0;
    result = result_failure;
  }

module _ {Q : Type 0} (try_enqueue : Q → RdmaResultMsg → Q × Bool) (net : Net) where
  -- The part of `expireEntries` that reports a stale entry.
  pub evict : Q → RdmaPinginfo → Q
  evict q v = if leb 3 v.recv_cnt then q else (try_enqueue q (failed net v)).0

  pub remove_from : ℕ → Store RdmaPinginfo Q → Store RdmaPinginfo Q
  remove_from key s = record s { table = (remove key s.table).0 }

  -- Both sends of a report differ in the result code alone, which `completed` chooses.
  pub logging : RdmaPinginfo → Store RdmaPinginfo Q → Store RdmaPinginfo Q
  unfolding remove_from
  logging v s =
      if v.recv_bitmap == mask_recv
      then (if v.recv_cnt == 3
          then remove_from v.pingid (record s { queue = (try_enqueue s.queue (completed net v)).0 })
          else remove_from v.pingid s)
      else s

  pub update :
      (RdmaPinginfo → RdmaPinginfo) → ℕ → Store RdmaPinginfo Q → Store RdmaPinginfo Q × Bool
  unfolding logging
  update f key s = elim (find key s.table.map) [
    | none ↦ (s, failure)
    | some e ↦ (
      logging (f e.value)
          (record s { table = record (s.table) { map = modify key f s.table.map } }),
      success,
    )
  ]

  pub update_ping_cqe_time : ℕ → ℕ → Store RdmaPinginfo Q → Store RdmaPinginfo Q × Bool
  unfolding on_ping_cqe
  update_ping_cqe_time key x = update (on_ping_cqe x) key

  pub update_pong_info : ℕ → ℕ → ℕ → Store RdmaPinginfo Q → Store RdmaPinginfo Q × Bool
  unfolding on_pong
  update_pong_info key recv_time cqe_time = update (on_pong recv_time cqe_time) key

  pub update_ack_info : ℕ → ℕ → Store RdmaPinginfo Q → Store RdmaPinginfo Q × Bool
  unfolding on_ack
  update_ack_info key server_delay = update (on_ack server_delay) key

  -- The clock is read for the expiry, for the entry, and as system time.
  unfoldable pub insert :
      ℕ → RdmaPingMsg → String → ℕ → ℕ → ℕ → Store RdmaPinginfo Q → Store RdmaPinginfo Q × Bool
  unfolding initial
  insert key msg dstip now steady_now system_ns =
      Table.insert evict key (initial msg dstip system_ns steady_now) now steady_now

  pub get : ℕ → Store RdmaPinginfo Q → Option RdmaPinginfo
  get key s = elim (find key s.table.map) [ none ↦ none | some e ↦ some e.value ]

  pub size : ℕ → Store RdmaPinginfo Q → Store RdmaPinginfo Q × ℕ
  size now s = let s' = (expire_entries evict now s).0 in (s', length s'.table.map)

  pub is_empty : ℕ → Store RdmaPinginfo Q → Store RdmaPinginfo Q × Bool
  is_empty now s = let s' = (expire_entries evict now s).0 in (s', length s'.table.map == 0)
