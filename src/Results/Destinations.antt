-- ===== src/Results/Destinations.antt =====
-- Each destination of a report has one line: the entries of `dstip2result` and their keys.
use pingweave.Base.{
  ℕ, ◌+◌, ◌≤◌, ◌≡◌, refl, sym, subst, ap, ◌∙◌, inl, inr, Bool, true, false, ◌||◌, ◌&&◌, ◌++◌, ◌⊎◌,
  List, [], ◌∷◌, map, arith, ◌==◌, if◌then◌else◌, ==_iff, ==_self, Bool-cases, All,
}
use pingweave.Messages.{TcpUdpResultMsg, result_success}
use pingweave.Base.Int.{◌==ℤ◌}
use pingweave.Results.{TcpUdpResultInfo, tcpudp_empty, tcpudp_account, lookup, store, Collector}
use pingweave.Results.Tally.{rounds, Quiet, quiet_round, lookup-store}

-- How many of the entries are for a destination.
unfoldable pub times : {I : Type 0} → ℕ → List (ℕ × I) → ℕ
times x [] = 0
times x ((k, i) ∷ m) = (if k == x then 1 else 0) + times x m

times-store :
    {I : Type 0} (empty : I) (d x : ℕ) (i : I) (m : List (ℕ × I))
    → times d m ≤ 1
    → times x (store empty d i m) ≡ (if d == x then 1 else times x m)
unfolding times store
times-store empty d x i [] h = ground arith
times-store empty d x i ((k, j) ∷ m) h = elim (Bool-cases (k == d)) [
  | inl b ↦
      let same : k ≡ d = (==_iff k d).0 b in
      let once : (if k == d then 1 else 0) + times d m ≤ 1 = h in
      let none_left : times d m ≡ 0 = omega (arith, rw b at once) in
      rw b (elim (Bool-cases (d == x)) [
        | inl e ↦
            let at : d ≡ x = (==_iff d x).0 e in
            let gone : times x m ≡ 0 = ap (λ y. times y m) (sym at) ∙ none_left in
            rw (same, e, gone) refl
        | inr e ↦ rw (same, e) refl
      ])
  | inr b ↦
      let once : (if k == d then 1 else 0) + times d m ≤ 1 = h in
      let few : times d m ≤ 1 = omega (arith, rw b at once) in
      let rest = times-store empty d x i m few in
      let apart : (d == x) ≡ true → (k == x) ≡ false =
        λ e. subst (λ y. (k == y) ≡ false) ((==_iff d x).0 e) b in
      rw b (ground (arith, rest, apart))
]

-- Whether a result for the destination is among these.
unfoldable pub has_result : ℕ → List TcpUdpResultMsg → Bool
has_result x [] = false
has_result x (m ∷ ms) = (m.dstip == x) || has_result x ms

times_from :
    (ms : List (TcpUdpResultMsg × ℕ)) (c : Collector TcpUdpResultInfo)
    → Quiet c.last_report_time c.report_interval_ms ms
    → ((y : ℕ) → times y c.dstip2result ≤ 1)
    → (x : ℕ)
    → times x (rounds ms c).dstip2result
      ≡ (if has_result x (map (λ p. p.0) ms) then 1 else times x c.dstip2result)
unfolding rounds has_result
times_from [] c q h x = refl
times_from ((m, now) ∷ ms) c (due, q) h x =
    let i = (tcpudp_account m (lookup tcpudp_empty m.dstip c.dstip2result)).0 in
    let stored : (y : ℕ)
        → times y (store tcpudp_empty m.dstip i c.dstip2result)
          ≡ (if m.dstip == y then 1 else times y c.dstip2result) =
      λ y. times-store tcpudp_empty m.dstip y i c.dstip2result (h m.dstip) in
    let c1 = record c { dstip2result = store tcpudp_empty m.dstip i c.dstip2result } in
    let few : (y : ℕ) → times y c1.dstip2result ≤ 1 = λ y. ground (arith, stored y, h y) in
    let rest = times_from ms c1 q few x in
    rw (rounds, quiet_round m now c due) (ground (arith, rest, stored x))

-- While no report is due, a destination has one entry if a result came in for it, and else none.
pub times-rounds :
    (x last interval : ℕ) (ms : List (TcpUdpResultMsg × ℕ))
    → Quiet last interval ms
    → let c =
        rounds ms
          (record { dstip2result = []; last_report_time = last; report_interval_ms = interval }) in
      times x c.dstip2result ≡ (if has_result x (map (λ p. p.0) ms) then 1 else 0)
unfolding times
times-rounds x last interval ms q =
    times_from ms
      (record { dstip2result = []; last_report_time = last; report_interval_ms = interval }) q
      (λ y. omega arith) x

-- Where no destination has two entries, what `lookup` finds is in every entry.
pub All-lookup :
    {I : Type 0} (empty : I) (P : ℕ → I → Type 0) (m : List (ℕ × I))
    → ((x : ℕ) → times x m ≤ 1)
    → ((x : ℕ) → 1 ≤ times x m → P x (lookup empty x m))
    → All (λ (p : ℕ × I). P p.0 p.1) m
unfolding times lookup
All-lookup empty P [] h p = tt
All-lookup empty P ((k, i) ∷ m) h p =
    let here : 1 ≤ times k ((k, i) ∷ m) = rw (==_self k) (omega arith) in
    let found : lookup empty k ((k, i) ∷ m) ≡ i = rw (==_self k) refl in
    (
      subst (P k) found (p k here),
      All-lookup empty P m (λ x. omega (arith, h x))
          (λ x there. later x there (Bool-cases (k == x))),
    )
  where
    later :
        (x : ℕ) → 1 ≤ times x m → ((k == x) ≡ true) ⊎ ((k == x) ≡ false) → P x (lookup empty x m)
    later x there (inl b) =
        let once : (if k == x then 1 else 0) + times x m ≤ 1 = h x in
        absurd (omega (arith, rw b at once, there))
    later x there (inr b) =
        let apart : lookup empty x ((k, i) ∷ m) ≡ lookup empty x m = rw b refl in
        let more : 1 ≤ times x ((k, i) ∷ m) = rw b (omega (arith, there)) in
        subst (P x) apart (p x more)

-- The delays of the successes for a destination, in order.
unfoldable pub delays_for : ℕ → List TcpUdpResultMsg → List ℕ
delays_for x [] = []
delays_for x (m ∷ ms) =
    let rest = delays_for x ms in
    if (m.dstip == x) && (m.result ==ℤ result_success) then m.network_delay ∷ rest else rest

account-delays :
    (m : TcpUdpResultMsg) (i : TcpUdpResultInfo)
    → (tcpudp_account m i).0.network_delays ≡ (
        if m.result ==ℤ result_success
        then i.network_delays ++ (m.network_delay ∷ [])
        else i.network_delays)
unfolding tcpudp_account
account-delays m i = ground arith

move_delay :
    (b : Bool) (d : ℕ) (xs ds : List ℕ)
    → (if b then xs ++ (d ∷ []) else xs) ++ ds ≡ xs ++ (if b then d ∷ ds else ds)
move_delay false d xs ds = refl
move_delay true d [] ds = refl
move_delay true d (x ∷ xs) ds = ap (◌∷◌ x) (move_delay true d xs ds)

store-delays :
    (x : ℕ) (m : TcpUdpResultMsg) (r : List (ℕ × TcpUdpResultInfo))
    → let i = (tcpudp_account m (lookup tcpudp_empty m.dstip r)).0 in
      let old = (lookup tcpudp_empty x r).network_delays in
      (lookup tcpudp_empty x (store tcpudp_empty m.dstip i r)).network_delays ≡ (
        if (m.dstip == x) && (m.result ==ℤ result_success)
        then old ++ (m.network_delay ∷ [])
        else old)
store-delays x m r =
    let i = (tcpudp_account m (lookup tcpudp_empty m.dstip r)).0 in
    elim (Bool-cases (m.dstip == x)) [
      | inl e ↦
          let d : m.dstip ≡ x = (==_iff m.dstip x).0 e in
          let same : i ≡ (tcpudp_account m (lookup tcpudp_empty x r)).0 =
            ap (λ k. (tcpudp_account m (lookup tcpudp_empty k r)).0) d in
          rw (lookup-store tcpudp_empty m.dstip x i r, e, same)
            (account-delays m (lookup tcpudp_empty x r))
      | inr e ↦ rw (lookup-store tcpudp_empty m.dstip x i r, e) refl
    ]

append_nil : (xs : List ℕ) → xs ++ [] ≡ xs
append_nil [] = refl
append_nil (x ∷ xs) = ap (◌∷◌ x) (append_nil xs)

delays_from :
    (x : ℕ) (ms : List (TcpUdpResultMsg × ℕ)) (c : Collector TcpUdpResultInfo)
    → Quiet c.last_report_time c.report_interval_ms ms
    → (lookup tcpudp_empty x (rounds ms c).dstip2result).network_delays
      ≡ (lookup tcpudp_empty x c.dstip2result).network_delays ++ delays_for x (map (λ p. p.0) ms)
unfolding rounds delays_for
delays_from x [] c q = sym (append_nil (lookup tcpudp_empty x c.dstip2result).network_delays)
delays_from x ((m, now) ∷ ms) c (due, q) =
    let i = (tcpudp_account m (lookup tcpudp_empty m.dstip c.dstip2result)).0 in
    let c1 = record c { dstip2result = store tcpudp_empty m.dstip i c.dstip2result } in
    let rest = delays_for x (map (λ p. p.0) ms) in
    rw (rounds, quiet_round m now c due)
      (delays_from x ms c1 q
        ∙ ap (λ ds. ds ++ rest) (store-delays x m c.dstip2result)
        ∙ move_delay ((m.dstip == x) && (m.result ==ℤ result_success)) m.network_delay
            (lookup tcpudp_empty x c.dstip2result).network_delays rest)

-- While no report is due, a destination has the delays of its successes, in order.
pub delays-rounds :
    (x last interval : ℕ) (ms : List (TcpUdpResultMsg × ℕ))
    → Quiet last interval ms
    → let c =
        rounds ms
          (record { dstip2result = []; last_report_time = last; report_interval_ms = interval }) in
      (lookup tcpudp_empty x c.dstip2result).network_delays ≡ delays_for x (map (λ p. p.0) ms)
unfolding lookup
delays-rounds x last interval ms q =
    delays_from x ms
      (record { dstip2result = []; last_report_time = last; report_interval_ms = interval }) q
