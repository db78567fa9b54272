-- ===== src/Scheduler.antt =====
-- src/scheduler.hpp, and the classes of src/tcpudp_scheduler.hpp and src/rdma_scheduler.hpp: which
-- address is pinged next and when, and when the addresses are loaded again. Times are in ns of the
-- steady clock.
pub mod Rounds
pub mod Loading
pub mod New
mod Tests
use pingweave.Base.{
  ℕ, zero, suc, ◌+◌, ◌-◌, ◌*◌, ◌/◌, ◌%◌, ◌^◌, ◌≤◌, ◌<◌, bit_or, bit_and, ◌≡◌, refl, sym, ap, ap₂,
  subst, ◌∙◌, ◌≢◌, ◌↔◌, ◌⊎◌, inl, inr, ite, if_pos, if_neg, Bool, true, false, not, ◌&&◌, ◌||◌,
  Option, none, some, List, [], ◌∷◌, ◌++◌, map, foldl, filter, Mem, Nodup, Perm, arith, dec_lt,
  dec_le, ℕ_discrete, u64, u32, success, failure, ltb, leb, ◌==◌, if◌then◌else◌, ltb→lt, lt→ltb,
  leb→le, ==_iff, ==_self, Bool-cases, Option-cases, length, get_elem?, get_or, set, All,
  length-append, length-set, get_or-set_self, get_or-set_ne,
}
use pingweave.Pinglist.{Pinglist, StoreEntry, RdmaAddress, tcpudp_addresses, rdma_addresses}
use pingweave.Base.Int.{ℤ, pos, negsuc}
use Prim.Native.String.{String}

abbrev pub max_retry_load_yaml : ℕ
max_retry_load_yaml = 3

-- `interval_send_ping_microsec` is the unsigned number that the division in `load_address_info` makes
-- of the `int`.
pub record Scheduler (A : Type 0) : Type 0 where
  pub address_info : List A
  pub ipaddr : String
  pub addr_idx : ℕ
  pub load_config_interval_sec : ℤ
  pub last_ping_time : ℕ
  pub last_load_time : ℕ
  pub inter_ping_interval_us : ℕ
  pub interval_send_ping_microsec : ℕ
  pub load_yaml_retry_cnt : ℕ

-- Whether a time that is not negative exceeds an `int`.
abbrev pub exceeded : ℤ → ℕ → Bool
exceeded (pos n) elapsed = ltb n elapsed
exceeded (negsuc n) elapsed = true

abbrev pub elapsed_us : ℕ → ℕ → ℕ
elapsed_us now last = (now - last) / 1000

module _ {A : Type 0} where
  -- The end of `next`, once the address is due; `idle_us` is the pause when there is none.
  unfoldable pub pick : ℕ → ℕ → Scheduler A → Scheduler A × Option A × ℕ
  pick idle_us ping_now s =
      let s1 = record s { last_ping_time = ping_now } in
      let n = length s.address_info in
      elim (get_elem? s.address_info (s.addr_idx % n)) [
        | none ↦ (s1, none, idle_us)
        | some a ↦ (record s1 { addr_idx = (s.addr_idx + 1) % n }, some a, 0)
      ]

  -- The second half of `next`: success with an address, or failure with the time to sleep.
  unfoldable pub ping_next : ℕ → ℕ → Scheduler A → Scheduler A × Option A × ℕ
  ping_next idle_us ping_now s =
      let elapsed = elapsed_us ping_now s.last_ping_time in
      if leb s.inter_ping_interval_us elapsed
      then pick idle_us ping_now s
      else (s, none, s.inter_ping_interval_us - elapsed)

  -- The clock is read twice; `load` is `load_address_info`.
  unfoldable pub next :
      (Scheduler A → Scheduler A) → ℕ → ℕ → ℕ → Scheduler A → Scheduler A × Option A × ℕ
  next load idle_us load_now ping_now s =
      let loaded = record (load s) { last_load_time = load_now } in
      ping_next idle_us ping_now (
        if exceeded s.load_config_interval_sec ((load_now - s.last_load_time) / 10 ^ 9)
        then loaded
        else s)

  -- The label `failed`.
  unfoldable pub count_failure : Scheduler A → Scheduler A
  count_failure s =
      let cnt = s.load_yaml_retry_cnt + 1 in
      if leb max_retry_load_yaml cnt
      then record s { address_info = []; load_yaml_retry_cnt = 0 }
      else record s { load_yaml_retry_cnt = cnt }

  -- The new addresses take the place of the old ones, also where reading has thrown.
  unfoldable pub renew : List A × Bool → Scheduler A → Scheduler A
  renew (found, threw) s =
      let n = length found in
      let s1 = record s {
        address_info = found;
        addr_idx = 0;
        load_yaml_retry_cnt = 0;
        inter_ping_interval_us = if n == 0 then 1_000_000 else s.interval_send_ping_microsec / n;
      } in
      if threw then count_failure s1 else s1

-- The input is `none` where pinglist.yaml cannot be loaded.
unfoldable pub tcpudp_load : Option Pinglist → Scheduler String → Scheduler String
tcpudp_load none s = count_failure (record s { addr_idx = 0 })
tcpudp_load (some p) s = renew (tcpudp_addresses s.ipaddr p) s

-- The input is `none` where one of the two files cannot be loaded.
unfoldable pub rdma_load :
    Option (Pinglist × List StoreEntry) → Scheduler RdmaAddress → Scheduler RdmaAddress
rdma_load none s = count_failure (record s { addr_idx = 0 })
rdma_load (some (p, store)) s = renew (rdma_addresses s.ipaddr p store) s
