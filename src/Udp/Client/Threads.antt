-- ===== src/Udp/Client/Threads.antt =====
-- The pings of a UDP client are reported or wait as often as they were sent, in any order of its
-- threads.
use pingweave.Base.{
  ℕ, suc, ◌^◌, ◌<◌, ◌≡◌, refl, ◌⊎◌, inl, inr, Bool, none, List, [], ◌∷◌, arith, success,
  Option-cases, All, ◌+◌, ◌≤◌, sym, ap, subst, ◌∙◌, some, u32,
}
use Prim.Native.String.{String}
use pingweave.Scheduler.{Scheduler, next}
use pingweave.Udp.Client.{UdpClient, Round, send_one, after_next, tx_round, rx_round}
use pingweave.TcpUdpPinginfoMap.Account.{
  named_in, sends, IsGood, pong-IsGood, insert-IsGood, total, total-step, pong,
}
use pingweave.Table.Count.{weights, All-expire, All-insert}
use pingweave.Common.{ip2uint}
use pingweave.Common.Identity.{Identity, weighed}
use pingweave.Common.{Net, make_pingid}
use pingweave.Common.PingId.{make_pingid_eq}
use pingweave.Messages.{TcpUdpResultMsg}
use pingweave.Table
use pingweave.Table.{expire_entries, Store, Entry, Map, Table, find, remove, erase, expire_entries}
use pingweave.Table.Count.{All-remove, All-find}
use pingweave.TcpUdpPinginfoMap.{TcpUdpPinginfo, insert, update_pong_info, evict}
use pingweave.Udp.{Recv, Answer, waiting, refused, received, receive_udp_message, client_round}

-- The key is that of one of the first n pings.
abbrev pub Used : ℕ → ℕ → ℕ × Entry TcpUdpPinginfo → Type 0
Used me n p = (u : ℕ) × (u < n) × (p.0 ≡ make_pingid me u)

Used-later : (me n : ℕ) (m : Map TcpUdpPinginfo) → All (Used me n) m → All (Used me (suc n)) m
Used-later me n [] h = tt
Used-later me n (p ∷ m) ((u, l, e), hs) = ((u, omega arith, e), Used-later me n m hs)

-- A key beyond the first n is not there.
find-fresh :
    (me n : ℕ) (m : Map TcpUdpPinginfo)
    → me < 2 ^ 32
    → n < 2 ^ 32
    → All (Used me n) m
    → find (make_pingid me n) m ≡ none
find-fresh me n m a b h = elim (Option-cases (find (make_pingid me n) m)) [
  | inl e ↦ e
  | inr (e, found) ↦
      let (u, l, same) = All-find (Used me n) (make_pingid me n) m e h found in
      absurd (omega (arith, same, make_pingid_eq me n a b, make_pingid_eq me u a (omega arith)))
]

module _ {Q : Type 0} (try_enqueue : Q → TcpUdpResultMsg → Q × Bool) (net : Net)
    (ipv4 : String) where
  All-pong :
      (P : ℕ × Entry TcpUdpPinginfo → Type 0) (id recv : ℕ) (s : Store TcpUdpPinginfo Q)
      → All P s.table.map
      → All P (update_pong_info try_enqueue net id recv s).0.table.map
  unfolding update_pong_info
  All-pong P id recv s h = elim (Option-cases (find id s.table.map)) [
    | inl e ↦ rw (e, update_pong_info) h
    | inr (d, e) ↦ rw (e, update_pong_info) (All-remove P d.value.pingid s.table h)
  ]

  insert-fresh :
      (key : ℕ) (dst : String) (now steady system : ℕ) (s : Store TcpUdpPinginfo Q)
      → find key (expire_entries (evict try_enqueue net) now s).0.table.map ≡ none
      → (insert try_enqueue net key key dst now steady system s).1 ≡ success
  unfolding insert Table.insert
  insert-fresh key dst now steady system s h = rw h refl

  round_cases :
      (a : Answer) (recv : ℕ) (s : Store TcpUdpPinginfo Q)
      → let r : Store TcpUdpPinginfo Q = (elim a [
        | received id from ↦ (update_pong_info try_enqueue net id recv s).0
        | _ ↦ s
      ]) in
        (r ≡ s) ⊎ ((id : ℕ) × (r ≡ (update_pong_info try_enqueue net id recv s).0))
  round_cases waiting recv s = inl refl
  round_cases refused recv s = inl refl
  round_cases (received id from) recv s = inr (id, refl)

  client_round-cases :
      (interval : ℕ) (rs : List Recv) (recv : ℕ) (s : Store TcpUdpPinginfo Q)
      → (client_round try_enqueue net interval rs recv s ≡ s)
        ⊎ ((id : ℕ) × (client_round try_enqueue net interval rs recv s
              ≡ (update_pong_info try_enqueue net id recv s).0))
  unfolding client_round
  client_round-cases interval rs recv s = round_cases (receive_udp_message interval rs) recv s

  -- The n-th ping, sent to `dst` at `system_ns`.
  abbrev pub ping_of : ℕ → String → ℕ → Identity
  ping_of n dst system_ns = record {
    pingid = make_pingid (ip2uint net ipv4) n;
    dstip = ip2uint net dst;
    time_ping_send = system_ns;
  }

  -- Clients reached from one: the clock of the last ping, the number of pings, and the pings.
  pub data Reach (first : UdpClient Q) : ℕ → ℕ → List Identity → UdpClient Q → Type 0 where
    start : Reach first 0 0 [] first
    idles :
        {last n : ℕ} {is : List Identity} {c : UdpClient Q}
        (load : Scheduler String → Scheduler String) (idle_us : ℕ) (r : Round)
        {scheduler : Scheduler String} {sleep_us : ℕ}
        → Reach first last n is c
        → next load idle_us r.load_now r.ping_now c.scheduler ≡ (scheduler, none, sleep_us)
        → Reach first last n is (tx_round try_enqueue net ipv4 load idle_us r c)
    pings :
        {last n : ℕ} {is : List Identity} {c : UdpClient Q}
        (load : Scheduler String → Scheduler String) (idle_us : ℕ) (r : Round)
        {scheduler : Scheduler String} {dst : String} {sleep_us : ℕ}
        → Reach first last n is c
        → next load idle_us r.load_now r.ping_now c.scheduler ≡ (scheduler, some dst, sleep_us)
        → last ≤ r.steady_now
        → Reach first r.steady_now
            (suc n)
            (ping_of n dst r.system_ns ∷ is)
            (tx_round try_enqueue net ipv4 load idle_us r c)
    receives :
        {last n : ℕ} {is : List Identity} {c : UdpClient Q} (interval : ℕ) (rs : List Recv)
        (recv_time : ℕ)
        → Reach first last n is c
        → Reach first last n is (rx_round try_enqueue net ipv4 interval rs recv_time c)

  module _ (w : Identity → ℕ) (sent : Q → ℕ)
      (counts : (q : Q) (m : TcpUdpResultMsg)
        → sent (try_enqueue q m).0 ≡ sent q + w (named_in m)) where
    pub record IsCounted (base last n : ℕ) (is : List Identity) (c : UdpClient Q) : Type 0 where
      pub good : IsGood last c.store
      pub used : All (Used (ip2uint net ipv4) n) c.store.table.map
      pub uid : c.ping_uid ≡ u32 n
      pub counted : total try_enqueue net w sent counts c.store ≡ base + weighed w is

    send_one-IsCounted :
        (base n : ℕ) (is : List Identity) {last : ℕ} (r : Round) (dst : String) (c : UdpClient Q)
        → ip2uint net ipv4 < 2 ^ 32
        → n < 2 ^ 32
        → last ≤ r.steady_now
        → IsCounted base last n is c
        → IsCounted base r.steady_now
            (suc n)
            (ping_of n dst r.system_ns ∷ is)
            (send_one try_enqueue net ipv4 r dst c)
    unfolding insert weighed
    send_one-IsCounted base n is r dst c me small h k =
        let id = make_pingid (ip2uint net ipv4) c.ping_uid in
        let at : c.ping_uid ≡ n = omega (arith, k.uid) in
        let key : id ≡ make_pingid (ip2uint net ipv4) n = ap (make_pingid (ip2uint net ipv4)) at in
        let expired = (expire_entries (evict try_enqueue net) r.now c.store).0 in
        let all_expired : All (Used (ip2uint net ipv4) n) expired.table.map =
          All-expire (evict try_enqueue net) (Used (ip2uint net ipv4) n) r.now c.store k.good.valid
            k.used in
        let missing : find id expired.table.map ≡ none =
          ap (λ j. find j expired.table.map) key
          ∙ find-fresh (ip2uint net ipv4) n expired.table.map me small all_expired in
        let taken = insert-fresh id dst r.now r.steady_now r.system_ns c.store missing in
        record {
          good =
              insert-IsGood try_enqueue net id dst r.now r.steady_now r.system_ns c.store h k.good;
          used =
              All-insert (evict try_enqueue net) (Used (ip2uint net ipv4) (suc n)) id _ r.now
                r.steady_now c.store (λ ts iter. (n, omega arith, key)) k.good.valid
                (Used-later (ip2uint net ipv4) n c.store.table.map k.used);
          uid = omega (arith, at);
          counted =
              total-step try_enqueue net w sent counts (sends id dst r.now r.steady_now r.system_ns)
                c.store k.good
              ∙ rw taken (
                  omega (
                    arith,
                    k.counted,
                    ap
                        (λ j. w (record {
                          pingid = j;
                          dstip = ip2uint net dst;
                          time_ping_send = r.system_ns;
                        }))
                        key,
                  ));
        }

    rx_round-IsCounted :
        (base n interval : ℕ) (is : List Identity) {last : ℕ} (rs : List Recv) (recv : ℕ)
        (c : UdpClient Q)
        → IsCounted base last n is c
        → IsCounted base last n is (rx_round try_enqueue net ipv4 interval rs recv c)
    unfolding rx_round weighed
    rx_round-IsCounted base n interval is rs recv c k =
        elim (client_round-cases interval rs recv c.store) [
          | inl same ↦ record {
            good = rw same k.good;
            used = rw same k.used;
            uid = k.uid;
            counted = rw same k.counted;
          }
          | inr (id, same) ↦ record {
            good = rw same (pong-IsGood try_enqueue net id recv c.store k.good);
            used = rw same (All-pong (Used (ip2uint net ipv4) n) id recv c.store k.used);
            uid = k.uid;
            counted = rw same (
                total-step try_enqueue net w sent counts (pong id recv) c.store k.good
                ∙ omega (arith, k.counted));
          }
        ]

    -- Over any interleaving of the two threads' rounds from an empty table, whatever arrives at the
    -- socket and up to 2^32 pings, the clock of the insertions not going back: the table stays good,
    -- every ping is taken in under an identity of its own, and for any weight on the identities
    -- (number, address, time of sending) the pings that the offered reports name, less those at the
    -- start, and the pings in the table weigh together what the pings weigh that were sent. With the
    -- weight that is 1 on one ping only: it is reported or waits as often as it was sent.
    pub Reach-IsCounted :
        (first c : UdpClient Q) (last n : ℕ) (is : List Identity)
        → ip2uint net ipv4 < 2 ^ 32
        → first.store.table.map ≡ []
        → IsGood 0 first.store
        → first.ping_uid ≡ 0
        → n ≤ 2 ^ 32
        → Reach first last n is c
        → IsCounted (sent first.store.queue) last n is c
    unfolding tx_round weighed weights
    Reach-IsCounted first c last n is me empty good zero_uid small start = record {
      good = good;
      used = rw empty tt;
      uid = zero_uid;
      counted = rw empty refl;
    }
    Reach-IsCounted first c last n is me empty good zero_uid small
          (idles {c = before} load idle_us r reached e) =
        let k = Reach-IsCounted first before last n is me empty good zero_uid small reached in
        subst
          (λ x.
            IsCounted (sent first.store.queue) last n is
              (after_next try_enqueue net ipv4 r before x))
          (sym e) (record { good = k.good; used = k.used; uid = k.uid; counted = k.counted })
    Reach-IsCounted first c last n is me empty good zero_uid small
          (pings {last = was} {n = m} {is = was_is} {c = before} load idle_us r {scheduler = new}
            {dst = dst} reached e h) =
        let k =
          Reach-IsCounted first before was m was_is me empty good zero_uid (omega arith) reached in
        subst
          (λ x.
            IsCounted (sent first.store.queue) r.steady_now (suc m)
              (ping_of m dst r.system_ns ∷ was_is) (after_next try_enqueue net ipv4 r before x))
          (sym e)
          (send_one-IsCounted (sent first.store.queue) m was_is r dst
            (record before { scheduler = new }) me (omega arith) h
            (record { good = k.good; used = k.used; uid = k.uid; counted = k.counted }))
    Reach-IsCounted first c last n is me empty good zero_uid small
          (receives interval rs recv reached) =
        rx_round-IsCounted (sent first.store.queue) n interval is rs recv _
          (Reach-IsCounted first _ last n is me empty good zero_uid small reached)
