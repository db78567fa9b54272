-- ===== src/Scheduler/Loading.antt =====
-- What a load leaves: the new addresses, the pace, and the count of failures.
use pingweave.Base.{
  ℕ, zero, suc, ◌*◌, ◌/◌, ◌≤◌, ◌≡◌, refl, Bool, true, false, none, some, List, [], arith, ◌==◌,
  if◌then◌else◌, length,
}
use native.Mathlib.Nat.{mul-div-le}
use pingweave.Pinglist.{Pinglist, tcpudp_addresses}
use pingweave.Scheduler.{Scheduler, count_failure, renew, tcpudp_load}
use Prim.Native.String.{String}

-- Where pinglist.yaml cannot be read, the addresses last, but for the third failure in a row: that
-- one clears them and starts the count again.
pub tcpudp_load_missing :
    (s : Scheduler String)
    → s.load_yaml_retry_cnt ≡ 0
    → let s1 = tcpudp_load none s in
      let s2 = tcpudp_load none s1 in
      let s3 = tcpudp_load none s2 in
      (s1.address_info ≡ s.address_info)
      × (s2.address_info ≡ s.address_info)
      × (s3.address_info ≡ [])
      × (s3.load_yaml_retry_cnt ≡ 0)
unfolding tcpudp_load count_failure
tcpudp_load_missing s h = ground arith

-- The pause between two pings, once for every address, fits the configured interval.
pace : (n interval : ℕ) → n * (if n == 0 then 1_000_000 else interval / n) ≤ interval
pace zero interval = omega arith
pace (suc n) interval = ground (arith, mul-div-le interval (suc n))

renew_lem :
    {A : Type 0} (r : List A × Bool) (s : Scheduler A)
    → let s' = renew r s in
      (s'.address_info ≡ r.0)
      × (s'.addr_idx ≡ 0)
      × (s'.load_yaml_retry_cnt ≡ (if r.1 then 1 else 0))
      × (length r.0 * s'.inter_ping_interval_us ≤ s.interval_send_ping_microsec)
unfolding renew count_failure
renew_lem (found, true) s = (refl, refl, refl, pace (length found) s.interval_send_ping_microsec)
renew_lem (found, false) s = (refl, refl, refl, pace (length found) s.interval_send_ping_microsec)

-- A file that can be read replaces the addresses by those found in it before reading threw, if it
-- threw; the count of failures is then one, whatever it was before, so a file whose content fails
-- every time never reaches the limit of three.
pub tcpudp_load_content :
    (p : Pinglist) (s : Scheduler String)
    → let (found, threw) = tcpudp_addresses s.ipaddr p in
      let s' = tcpudp_load (some p) s in
      (s'.address_info ≡ found)
      × (s'.addr_idx ≡ 0)
      × (s'.load_yaml_retry_cnt ≡ (if threw then 1 else 0))
      × (length found * s'.inter_ping_interval_us ≤ s.interval_send_ping_microsec)
unfolding tcpudp_load
tcpudp_load_content p s = renew_lem (tcpudp_addresses s.ipaddr p) s
