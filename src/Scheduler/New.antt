-- ===== src/Scheduler/New.antt =====
-- The constructor of `MsgScheduler` in src/scheduler.hpp, which those of `TcpUdpMsgScheduler` and
-- `RdmaMsgScheduler` call, and what a new scheduler does until it has loaded its addresses.
use pingweave.Base.{
  ℕ, suc, ◌+◌, ◌-◌, ◌*◌, ◌/◌, ◌^◌, ◌≤◌, ◌≡◌, refl, ap, ◌∙◌, Bool, true, false, ◌||◌, Option, none,
  some, List, [], ◌∷◌, ◌++◌, map, arith, if◌then◌else◌, All, inl, inr, leb, ap₂, subst, length,
  Bool-cases,
}
use pingweave.Base.Int.{ℤ, pos, negsuc}
use pingweave.Base.Text.{Text, codes, text_eq}
use pingweave.Ini.{or_default, get_int_param_from_ini}
use pingweave.Pinglist.{Pinglist, tcpudp_addresses}
use pingweave.Scheduler.{
  Scheduler, exceeded, elapsed_us, pick, ping_next, next, tcpudp_load, renew, count_failure,
}
use pingweave.Scheduler.Rounds.{pick_at, due_pick}
use Prim.Native.String.{String}

-- Whether the protocol is among `TARGET_PROTOCOLS`.
abbrev pub is_target : Text → Bool
is_target protocol =
    text_eq protocol (codes "ib")
    || (text_eq protocol (codes "roce")
        || (text_eq protocol (codes "tcp") || text_eq protocol (codes "udp")))

-- An `int` where a `size_t` is needed.
abbrev pub unsigned : ℤ → ℕ
unsigned (pos n) = n
unsigned (negsuc n) = 2 ^ 64 - 1 - n

-- pingweave.ini as it is read for each of the two intervals, what the uninitialised fields hold, and
-- the clock as it is read for each of the two times.
pub record Birth : Type 0 where
  pub send_file : Option Text
  pub sync_file : Option Text
  pub send_before : ℤ
  pub sync_before : ℤ
  pub ping_clock : ℕ
  pub load_clock : ℕ

abbrev pub send_interval : Text → Birth → ℤ
send_interval protocol b = or_default (pos 1_000_000) (
    get_int_param_from_ini b.send_file b.send_before
      (codes "interval_send_ping_" ++ (protocol ++ codes "_microsec")))

abbrev pub sync_interval : Birth → ℤ
sync_interval b =
    or_default (pos 10)
      (get_int_param_from_ini b.sync_file b.sync_before (codes "interval_sync_pinglist_sec"))

-- `none` is the end of the process, with a protocol that is not known.
unfoldable pub new_scheduler : {A : Type 0} → String → Text → Birth → Option (Scheduler A)
new_scheduler ip protocol b =
    if is_target protocol
    then some (record {
      address_info = [];
      ipaddr = ip;
      addr_idx = 0;
      load_config_interval_sec = sync_interval b;
      last_ping_time = b.ping_clock;
      last_load_time = b.load_clock;
      inter_ping_interval_us = 1000;
      interval_send_ping_microsec = unsigned (send_interval protocol b);
      load_yaml_retry_cnt = 0;
    })
    else none

module _ {A : Type 0} where
  -- Calls of `next`, each with the two times that it reads, and the addresses that they name.
  unfoldable pub nexts :
      (Scheduler A → Scheduler A) → ℕ → List (ℕ × ℕ) → Scheduler A → Scheduler A × List (Option A)
  nexts load idle_us [] s = (s, [])
  nexts load idle_us ((load_now, ping_now) ∷ calls) s =
      let (s1, named, _sleep) = next load idle_us load_now ping_now s in
      let (s2, rest) = nexts load idle_us calls s1 in (s2, named ∷ rest)

  -- Still without addresses, with the intervals that the constructor read.
  pub record IsWaiting (ip : String) (sync : ℤ) (send since : ℕ) (s : Scheduler A) : Type 0 where
    pub nothing : s.address_info ≡ []
    pub mine : s.ipaddr ≡ ip
    pub sync_is : s.load_config_interval_sec ≡ sync
    pub send_is : s.interval_send_ping_microsec ≡ send
    pub since_is : s.last_load_time ≡ since

  pick_nothing :
      (idle_us now : ℕ) (s : Scheduler A)
      → s.address_info ≡ []
      → pick idle_us now s ≡ (record s { last_ping_time = now }, none, idle_us)
  unfolding pick
  pick_nothing idle_us now s e = rw e refl

  module _ (ip : String) (sync : ℤ) (send since : ℕ) where
    ping_next-IsWaiting :
        (idle_us now : ℕ) (s : Scheduler A)
        → IsWaiting ip sync send since s
        → let r = ping_next idle_us now s in (r.1 ≡ none) × IsWaiting ip sync send since r.0
    unfolding ping_next
    ping_next-IsWaiting idle_us now s w =
        elim (Bool-cases (leb s.inter_ping_interval_us (elapsed_us now s.last_ping_time))) [
          | inl due ↦
              rw (due, pick_nothing idle_us now s w.nothing)
                (
                  refl,
                  record {
                    nothing = w.nothing;
                    mine = w.mine;
                    sync_is = w.sync_is;
                    send_is = w.send_is;
                    since_is = w.since_is;
                  },
                )
          | inr early ↦ rw early (refl, w)
        ]

    next-IsWaiting :
        (load : Scheduler A → Scheduler A) (idle_us load_now ping_now : ℕ) (s : Scheduler A)
        → IsWaiting ip sync send since s
        → exceeded sync ((load_now - since) / 10 ^ 9) ≡ false
        → let r = next load idle_us load_now ping_now s in
          (r.1 ≡ none) × IsWaiting ip sync send since r.0
    unfolding next
    next-IsWaiting load idle_us load_now ping_now s w early =
        let still =
          ap₂ (λ c t. exceeded c ((load_now - t) / 10 ^ 9)) w.sync_is w.since_is ∙ early in
        rw still (ping_next-IsWaiting idle_us ping_now s w)

    nexts-IsWaiting :
        (load : Scheduler A → Scheduler A) (idle_us : ℕ) (calls : List (ℕ × ℕ)) (s : Scheduler A)
        → IsWaiting ip sync send since s
        → All (λ c. exceeded sync ((c.0 - since) / 10 ^ 9) ≡ false) calls
        → let r = nexts load idle_us calls s in
          (r.1 ≡ map (λ _. none) calls) × IsWaiting ip sync send since r.0
    unfolding nexts
    nexts-IsWaiting load idle_us [] s w h = (refl, w)
    nexts-IsWaiting load idle_us ((load_now, ping_now) ∷ calls) s w h =
        let (none_named, w1) = next-IsWaiting load idle_us load_now ping_now s w h.0 in
        let (rest, w2) = nexts-IsWaiting load idle_us calls _ w1 h.1 in
        (ap₂ (λ a l. a ∷ l) none_named rest, w2)

renewed :
    {A : Type 0} (idle_us load_now ping_now : ℕ) (a : A) (rest : List A) (threw : Bool)
    (s : Scheduler A)
    → s.interval_send_ping_microsec / suc (length rest) * 1000 + s.last_ping_time ≤ ping_now
    → (ping_next idle_us ping_now
        (record (renew (a ∷ rest, threw) s) { last_load_time = load_now })).1
      ≡ some a
unfolding renew count_failure
renewed idle_us load_now ping_now a rest true s due =
    let s' = record (renew (a ∷ rest, true) s) { last_load_time = load_now } in
    ap (λ r. r.1)
      (due_pick idle_us ping_now s' (ground (arith, due))
        ∙ pick_at idle_us ping_now s' a (omega arith) refl)
renewed idle_us load_now ping_now a rest false s due =
    let s' = record (renew (a ∷ rest, false) s) { last_load_time = load_now } in
    ap (λ r. r.1)
      (due_pick idle_us ping_now s' (ground (arith, due))
        ∙ pick_at idle_us ping_now s' a (omega arith) refl)

new-IsWaiting :
    {A : Type 0} (ip : String) (protocol : Text) (b : Birth) (s : Scheduler A)
    → new_scheduler ip protocol b ≡ some s
    → IsWaiting ip (sync_interval b) (unsigned (send_interval protocol b)) b.load_clock s
unfolding new_scheduler
new-IsWaiting {A = A} ip protocol b s e = elim (Bool-cases (is_target protocol)) [
  | inl known ↦
      subst (IsWaiting ip (sync_interval b) (unsigned (send_interval protocol b)) b.load_clock)
        (made (rw known at e))
        (record { nothing = refl; mine = refl; sync_is = refl; send_is = refl; since_is = refl })
  | inr unknown ↦ absurd (refused (rw unknown at e))
]
  where
    made : {x y : Scheduler A} → some x ≡ some y → x ≡ y
    made h = cc

    refused : {y : Scheduler A} → none ≡ some y → ⊥
    refused h = cc

-- Until the interval of the configuration has passed since its start, a new scheduler names no
-- address; the first call after it loads pinglist.yaml and, if a ping is due at the new pace, names
-- the first of the addresses that it lists for this host, also where reading has thrown.
pub first_address :
    (idle_us : ℕ) (protocol : Text) (ip : String) (b : Birth) (s : Scheduler String) (p : Pinglist)
    (calls : List (ℕ × ℕ)) (load_now ping_now : ℕ) (a : String) (rest : List String) (threw : Bool)
    → new_scheduler ip protocol b ≡ some s
    → tcpudp_addresses ip p ≡ (a ∷ rest, threw)
    → All (λ c. exceeded (sync_interval b) ((c.0 - b.load_clock) / 10 ^ 9) ≡ false) calls
    → exceeded (sync_interval b) ((load_now - b.load_clock) / 10 ^ 9) ≡ true
    → unsigned (send_interval protocol b) / suc (length rest) * 1000
        + (nexts (tcpudp_load (some p)) idle_us calls s).0.last_ping_time
      ≤ ping_now
    → let (s1, named) = nexts (tcpudp_load (some p)) idle_us calls s in
      (named ≡ map (λ _. none) calls)
      × ((next (tcpudp_load (some p)) idle_us load_now ping_now s1).1 ≡ some a)
unfolding next tcpudp_load
first_address idle_us protocol ip b s p calls load_now ping_now a rest threw made listed early late
      due =
    let (none_named, w) =
      nexts-IsWaiting ip (sync_interval b) (unsigned (send_interval protocol b)) b.load_clock
        (tcpudp_load (some p)) idle_us calls s (new-IsWaiting ip protocol b s made) early in
    let s1 = (nexts (tcpudp_load (some p)) idle_us calls s).0 in
    let over = ap₂ (λ c t. exceeded c ((load_now - t) / 10 ^ 9)) w.sync_is w.since_is ∙ late in
    let here = ap (λ i. tcpudp_addresses i p) w.mine ∙ listed in
    (
      none_named,
      rw (over, here) (renewed idle_us load_now ping_now a rest threw s1 (rw w.send_is due)),
    )
