-- ===== src/Scheduler/Tests.antt =====
-- Instances of the theorems on the scheduler.
use pingweave.Base.{
  ℕ, ◌+◌, ◌*◌, ◌≤◌, ◌<◌, ◌≡◌, refl, false, none, some, List, [], ◌∷◌, map, arith, if◌then◌else◌,
  length,
}
use Prim.Native.String.{String}
use pingweave.Base.Int.{pos}
use pingweave.Ini.{get_int_param_from_ini, load}
use pingweave.Pinglist.{
  Pinglist, tcpudp_addresses, arrow_targets, mesh_targets, mesh_loop, mesh_group, search_ip,
  add_group, add_new, contains,
}
use pingweave.Scheduler.{Scheduler, ping_next, pick, next, tcpudp_load}
use pingweave.Scheduler.Rounds.{pings, round, too_soon}
use pingweave.Scheduler.Loading.{tcpudp_load_content}
use pingweave.Scheduler.New.{Birth, new_scheduler, nexts, first_address}
use pingweave.Base.Text.{codes}

abbrev scheduler : Scheduler String
scheduler = record {
  address_info = "a" ∷ "b" ∷ [];
  ipaddr = "a";
  addr_idx = 0;
  load_config_interval_sec = pos 10;
  last_ping_time = 0;
  last_load_time = 0;
  inter_ping_interval_us = 500;
  interval_send_ping_microsec = 1000;
  load_yaml_retry_cnt = 0;
}

abbrev times : List ℕ
times = 500_000 ∷ 1_200_000 ∷ []

round_example :
    let (s', found) = pings 100_000 times scheduler in
    (found ≡ map some scheduler.address_info)
    × (s'.address_info ≡ scheduler.address_info)
    × (s'.addr_idx ≡ 0)
round_example = round 100_000 times scheduler refl refl (omega arith, (omega arith, tt))

too_soon_example :
    let (s', a, sleep_us) = ping_next 100_000 200_000 scheduler in
    let later = 200_000 + sleep_us * 1000 in
    (s' ≡ scheduler)
    × (a ≡ none)
    × (0 < sleep_us)
    × (sleep_us ≤ 500)
    × (ping_next 100_000 later scheduler ≡ pick 100_000 later scheduler)
too_soon_example = too_soon 100_000 200_000 scheduler (omega arith) (omega arith)

-- A mesh that throws.
abbrev broken : Pinglist
broken = record { mesh = some ((none ∷ []) ∷ []); arrow = none }

tcpudp_load_content_example :
    let (found, threw) = tcpudp_addresses "a" broken in
    let s' = tcpudp_load (some broken) scheduler in
    (s'.address_info ≡ found)
    × (s'.addr_idx ≡ 0)
    × (s'.load_yaml_retry_cnt ≡ (if threw then 1 else 0))
    × (length found * s'.inter_ping_interval_us ≤ 1000)
tcpudp_load_content_example = tcpudp_load_content broken scheduler

-- Both intervals are the defaults, a second and ten seconds.
abbrev birth : Birth
birth = record {
  send_file = none;
  sync_file = none;
  send_before = pos 7;
  sync_before = pos 7;
  ping_clock = 1000;
  load_clock = 2000;
}

abbrev mesh_of_two : Pinglist
mesh_of_two = record { mesh = some ((some "a" ∷ some "b" ∷ []) ∷ []); arrow = none }

abbrev new : Scheduler String
new = record {
  address_info = [];
  ipaddr = "a";
  addr_idx = 0;
  load_config_interval_sec = pos 10;
  last_ping_time = 1000;
  last_load_time = 2000;
  inter_ping_interval_us = 1000;
  interval_send_ping_microsec = 1_000_000;
  load_yaml_retry_cnt = 0;
}

new_runs : new_scheduler "a" (codes "udp") birth ≡ some new
unfolding new_scheduler get_int_param_from_ini load
new_runs = refl

two_listed : tcpudp_addresses "a" mesh_of_two ≡ ("a" ∷ "b" ∷ [], false)
unfolding tcpudp_addresses arrow_targets mesh_targets mesh_loop mesh_group search_ip add_group
    add_new contains
two_listed = refl

first_address_example :
    let (s1, named) =
      nexts (tcpudp_load (some mesh_of_two)) 100_000 ((5_000_000_000, 5_000_000_001) ∷ []) new in
    (named ≡ none ∷ [])
    × ((next (tcpudp_load (some mesh_of_two)) 100_000 11_000_002_000 11_000_002_001 s1).1
        ≡ some "a")
unfolding get_int_param_from_ini load nexts next ping_next pick
first_address_example =
    first_address 100_000 (codes "udp") "a" birth new mesh_of_two
      ((5_000_000_000, 5_000_000_001) ∷ []) 11_000_002_000 11_000_002_001 "a" ("b" ∷ []) false
      new_runs two_listed (refl, tt) refl (omega arith)
