-- ===== src/Results/Tally.antt =====
-- What the collector knows of each destination: the results that came in for it.
use pingweave.Base.{
  ℕ, suc, ◌+◌, ◌-◌, ◌/◌, ◌^◌, ◌<◌, ◌≡◌, refl, ap, ◌⊎◌, inl, inr, true, false, ◌&&◌, some, List, [],
  ◌∷◌, map, arith, u32, ◌==◌, if◌then◌else◌, ==_iff, Bool-cases, length, length-append,
}
use pingweave.Base.Int.{pos, negsuc, ℤ, ◌==ℤ◌}
use pingweave.Messages.{TcpUdpResultMsg, result_success, result_failure, result_weird}
use pingweave.Results.{
  TcpUdpResultInfo, tcpudp_empty, tcpudp_account, lookup, store, Collector, report, result_round,
  tcpudp_line,
}

pub lookup-store :
    {I : Type 0} (empty : I) (d x : ℕ) (i : I) (m : List (ℕ × I))
    → lookup empty x (store empty d i m) ≡ (if d == x then i else lookup empty x m)
unfolding lookup store
lookup-store empty d x i [] = refl
lookup-store empty d x i ((k, j) ∷ m) = ground (arith, lookup-store empty d x i m)

-- How many of the results are for the destination and have the code.
abbrev pub count : ℕ → ℤ → List TcpUdpResultMsg → ℕ
count x code [] = 0
count x code (m ∷ ms) =
    if (m.dstip == x) && (m.result ==ℤ code) then suc (count x code ms) else count x code ms

-- The rounds that take these results, each at its time.
unfoldable pub rounds :
    List (TcpUdpResultMsg × ℕ) → Collector TcpUdpResultInfo → Collector TcpUdpResultInfo
rounds [] c = c
rounds ((m, now) ∷ ms) c =
    rounds ms (result_round tcpudp_empty tcpudp_line (some (m.dstip, tcpudp_account m)) now c).0

-- No report is due at any of the times.
abbrev pub Quiet : ℕ → ℕ → List (TcpUdpResultMsg × ℕ) → Type 0
Quiet last interval [] = Unit
Quiet last interval ((m, now) ∷ ms) = ((now - last) / 10 ^ 6 < interval) × Quiet last interval ms

pub quiet_round :
    (m : TcpUdpResultMsg) (now : ℕ) (c : Collector TcpUdpResultInfo)
    → (now - c.last_report_time) / 10 ^ 6 < c.report_interval_ms
    → (result_round tcpudp_empty tcpudp_line (some (m.dstip, tcpudp_account m)) now c).0
      ≡ record c {
        dstip2result =
            store tcpudp_empty m.dstip
              (tcpudp_account m (lookup tcpudp_empty m.dstip c.dstip2result)).0
              c.dstip2result;
      }
unfolding result_round report
quiet_round m now c h = ground (arith, h)

-- What an information has counted, with `counted` further results in it.
abbrev pub Holds : (TcpUdpResultInfo → TcpUdpResultInfo → (ℤ → ℕ) → Type 0)
Holds before after counted =
    (after.n_success ≡ u32 (before.n_success + counted result_success))
    × (after.n_failure ≡ u32 (before.n_failure + counted result_failure))
    × (after.n_weird ≡ u32 (before.n_weird + counted result_weird))
    × (length after.network_delays ≡ length before.network_delays + counted result_success)

abbrev pub IsWord : TcpUdpResultInfo → Type 0
IsWord i = (i.n_success < 2 ^ 32) × (i.n_failure < 2 ^ 32) × (i.n_weird < 2 ^ 32)

-- A result has one code at most.
codes :
    (r : ℤ)
    → let s = r ==ℤ result_success in
      let f = r ==ℤ result_failure in
      let w = r ==ℤ result_weird in
      ((s ≡ true) × (f ≡ false) × (w ≡ false))
      ⊎ ((s ≡ false) × (f ≡ true) × (w ≡ false))
      ⊎ ((s ≡ false) × (f ≡ false))
codes (pos n) = ground arith
codes (negsuc n) = ground arith

account_lem :
    (m : TcpUdpResultMsg) (i : TcpUdpResultInfo)
    → IsWord i
    → Holds i (tcpudp_account m i).0 (λ code. if m.result ==ℤ code then 1 else 0)
      × IsWord (tcpudp_account m i).0
unfolding tcpudp_account
account_lem m i h =
    ground (arith, h, codes m.result, length-append i.network_delays (m.network_delay ∷ []))

-- The information of `x` after a result has been stored.
abbrev one : ℕ → TcpUdpResultMsg → ℤ → ℕ
one x m code = if (m.dstip == x) && (m.result ==ℤ code) then 1 else 0

store_lem :
    (x : ℕ) (m : TcpUdpResultMsg) (r : List (ℕ × TcpUdpResultInfo))
    → IsWord (lookup tcpudp_empty x r)
    → let after =
        lookup tcpudp_empty x
          (store tcpudp_empty m.dstip (tcpudp_account m (lookup tcpudp_empty m.dstip r)).0 r) in
      Holds (lookup tcpudp_empty x r) after (one x m) × IsWord after
store_lem x m r h =
    let i = (tcpudp_account m (lookup tcpudp_empty m.dstip r)).0 in
    elim (Bool-cases (m.dstip == x)) [
      | inl e ↦
          let d : m.dstip ≡ x = (==_iff m.dstip x).0 e in
          let a = account_lem m (lookup tcpudp_empty x r) h in
          let same : i ≡ (tcpudp_account m (lookup tcpudp_empty x r)).0 =
            ap (λ k. (tcpudp_account m (lookup tcpudp_empty k r)).0) d in
          rw (lookup-store tcpudp_empty m.dstip x i r, e, same) a
      | inr e ↦ rw (lookup-store tcpudp_empty m.dstip x i r, e) (ground (arith, h), h)
    ]

tally_from :
    (x : ℕ) (ms : List (TcpUdpResultMsg × ℕ)) (c : Collector TcpUdpResultInfo)
    → Quiet c.last_report_time c.report_interval_ms ms
    → IsWord (lookup tcpudp_empty x c.dstip2result)
    → Holds
        (lookup tcpudp_empty x c.dstip2result)
        (lookup tcpudp_empty x (rounds ms c).dstip2result)
        (λ code. count x code (map (λ p. p.0) ms))
unfolding rounds
tally_from x [] c q h = ground (arith, h)
tally_from x ((m, now) ∷ ms) c (due, q) h =
    let c1 = record c {
      dstip2result =
          store tcpudp_empty m.dstip
            (tcpudp_account m (lookup tcpudp_empty m.dstip c.dstip2result)).0 c.dstip2result;
    } in
    let (here, w) = store_lem x m c.dstip2result h in
    let rest = tally_from x ms c1 q w in
    rw (rounds, quiet_round m now c due) (ground (arith, here, rest))

-- While no report is due, the collector has for each destination exactly the number of results
-- that came in for it, by their codes (on 32 bits), and one delay for each success.
pub tally :
    (x last interval : ℕ) (ms : List (TcpUdpResultMsg × ℕ))
    → Quiet last interval ms
    → let c =
        rounds ms
          (record { dstip2result = []; last_report_time = last; report_interval_ms = interval }) in
      Holds tcpudp_empty
        (lookup tcpudp_empty x c.dstip2result)
        (λ code. count x code (map (λ p. p.0) ms))
unfolding lookup
tally x last interval ms q =
    tally_from x ms
      (record { dstip2result = []; last_report_time = last; report_interval_ms = interval }) q
      (omega arith, omega arith, omega arith)
