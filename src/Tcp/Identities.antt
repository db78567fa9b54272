-- ===== src/Tcp/Identities.antt =====
-- The identities of the pings that `tcp_client_tx_thread` starts threads for.
use pingweave.Base.{
  ℕ, zero, suc, ◌+◌, ◌≤◌, ◌<◌, ◌^◌, ◌≡◌, ◌≢◌, refl, sym, ap, subst, ◌∙◌, ◌⊎◌, inl, inr, true, false,
  Option, none, some, List, [], ◌∷◌, ◌++◌, map, arith, u32, length, All, Bool-cases, length-append,
}
use Prim.Native.String.{String}
use pingweave.Common.{Net, ip2uint, make_pingid}
use pingweave.Common.PingId.{make_pingid_eq}
use pingweave.RdmaServer.{Exit, done, thrown}
use pingweave.Scheduler.{Scheduler, next}
use pingweave.Tcp.Threads.{
  TcpClient, TxRound, start_ping, after_next, tx_round, tcp_client_tx_thread,
}
use pingweave.Threads.{Outcome, escaped, thread_loop}

-- The identities of n pings, the first with the number k.
abbrev pub identities : ℕ → ℕ → ℕ → List ℕ
identities me k zero = []
identities me k (suc n) = make_pingid me k ∷ identities me (k + 1) n

abbrev pub AllDifferent : List ℕ → Type 0
AllDifferent [] = Unit
AllDifferent (x ∷ xs) = All (λ y. x ≢ y) xs × AllDifferent xs

identities-snoc :
    (me k n : ℕ) → identities me k n ++ (make_pingid me (k + n) ∷ []) ≡ identities me k (suc n)
identities-snoc me k zero = let e : k + 0 ≡ k = omega arith in rw e refl
identities-snoc me k (suc n) =
    let e : k + suc n ≡ k + 1 + n = omega arith in
    ap (◌∷◌ (make_pingid me k)) (
      ap (λ j. identities me (k + 1) n ++ (make_pingid me j ∷ [])) e ∙ identities-snoc me (k + 1) n)

identities_above :
    (me j k n : ℕ)
    → me < 2 ^ 32
    → j < k
    → k + n ≤ 2 ^ 32
    → All (λ y. make_pingid me j ≢ y) (identities me k n)
identities_above me j k zero h l small = tt
identities_above me j k (suc n) h l small = (
  λ e.
      absurd (
        omega (arith, e, make_pingid_eq me j h (omega arith), make_pingid_eq me k h (omega arith))),
  identities_above me j (k + 1) n h (omega arith) (omega arith),
)

identities_different :
    (me k n : ℕ) → me < 2 ^ 32 → k + n ≤ 2 ^ 32 → AllDifferent (identities me k n)
identities_different me k zero h small = tt
identities_different me k (suc n) h small = (
  identities_above me k (k + 1) n h (omega arith) (omega arith),
  identities_different me (k + 1) n h (omega arith),
)

module _ (net : Net) (ipv4 : String) where
  -- The client has started as many threads as it has given numbers, or one less where it could not.
  pub record IsNumbered (n : ℕ) (c : TcpClient) : Type 0 where
    pub uid : c.ping_uid ≡ u32 n
    pub count : length c.started ≡ n
    pub given : map (λ p. p.1) c.started ≡ identities (ip2uint net ipv4) 0 n

  map-append_one :
      (xs : List (String × ℕ)) (x : String × ℕ)
      → map (λ p. p.1) (xs ++ (x ∷ [])) ≡ map (λ p. p.1) xs ++ (x.1 ∷ [])
  map-append_one [] x = refl
  map-append_one (y ∷ xs) x = ap (◌∷◌ y.1) (map-append_one xs x)

  start_ping-IsNumbered :
      (n : ℕ) (dst : String) (r : TxRound) (c : TcpClient)
      → n < 2 ^ 32
      → r.thread_ok ≡ true
      → IsNumbered n c
      → IsNumbered (suc n) (start_ping net ipv4 r dst c).0
  start_ping-IsNumbered n dst r c small okay k =
      let at : c.ping_uid ≡ 0 + n = omega (arith, k.uid) in
      let id = make_pingid (ip2uint net ipv4) c.ping_uid in
      rw okay (record {
        uid = omega (arith, at);
        count = length-append c.started ((dst, id) ∷ []) ∙ rw k.count (omega arith);
        given =
            map-append_one c.started (dst, id)
            ∙ ap (λ l. l ++ (id ∷ [])) k.given
            ∙ ap (λ j. identities (ip2uint net ipv4) 0 n ++ (make_pingid (ip2uint net ipv4) j ∷ []))
                at
            ∙ identities-snoc (ip2uint net ipv4) 0 n;
      })

  abbrev IsGiven : TcpClient → Type 0
  IsGiven c = map (λ p. p.1) c.started ≡ identities (ip2uint net ipv4) 0 (length c.started)

  IsGiven-all : (n : ℕ) (c : TcpClient) → IsNumbered n c → IsGiven c
  IsGiven-all n c k = rw k.count k.given

  -- A round that goes on starts one thread at most; one that ends the loop starts none.
  abbrev RoundEnds : ℕ → TcpClient × Exit → Type 0
  RoundEnds n p =
      ((m : ℕ) × (m ≤ n + 1) × (p.1 ≡ done) × IsNumbered m p.0)
      ⊎ ((p.1 ≡ thrown) × IsGiven p.0 × (length p.0.started ≤ n))

  after_next-RoundEnds :
      (n : ℕ) (r : TxRound) (c : TcpClient) (x : Scheduler String × Option String × ℕ)
      → n < 2 ^ 32
      → IsNumbered n c
      → RoundEnds n (after_next net ipv4 r c x)
  after_next-RoundEnds n r c (scheduler, none, sleep_us) small k =
      inl (n, omega arith, refl, record { uid = k.uid; count = k.count; given = k.given })
  after_next-RoundEnds n r c (scheduler, some dst, sleep_us) small k =
      let c1 = record c { scheduler = scheduler } in
      let k1 : IsNumbered n c1 = record { uid = k.uid; count = k.count; given = k.given } in
      elim (Bool-cases r.thread_ok) [
        | inl e ↦ inl (suc n, omega arith, rw e refl, start_ping-IsNumbered n dst r c1 small e k1)
        | inr e ↦ rw e (inr (refl, IsGiven-all n c k, omega (arith, k.count)))
      ]

  module _ (load : Scheduler String → Scheduler String) (idle_us : ℕ) where
    abbrev loop : List TxRound → TcpClient → Outcome TcpClient
    loop rounds c = thread_loop (tx_round net ipv4 load idle_us) rounds c

    loop_lem :
        (rounds : List TxRound) (n : ℕ) (c : TcpClient)
        → n + length rounds ≤ 2 ^ 32
        → IsNumbered n c
        → IsGiven (loop rounds c).state × (length (loop rounds c).state.started ≤ n + length rounds)
    unfolding thread_loop tx_round
    loop_lem [] n c small k = (IsGiven-all n c k, omega (arith, k.count))
    loop_lem (r ∷ rounds) n c small k =
        let p = after_next net ipv4 r c (next load idle_us r.load_now r.ping_now c.scheduler) in
        elim (after_next-RoundEnds n r c (next load idle_us r.load_now r.ping_now c.scheduler)
          (omega arith) k) [
            | inl (m, l, e, k') ↦
                let (given, count) = loop_lem rounds m p.0 (omega arith) k' in
                on_exit p rounds e (given, omega (arith, count))
            | inr (e, given, count) ↦ on_throw p rounds e (given, omega (arith, count))
          ]
      where
        end : TcpClient × Exit → List TxRound → Outcome TcpClient
        end q rest = elim q.1 [
          | done ↦ thread_loop (tx_round net ipv4 load idle_us) rest q.0
          | thrown ↦ record { state = q.0; thread_alive = false; ending = escaped }
        ]

        on_exit :
            (q : TcpClient × Exit) (rest : List TxRound)
            → q.1 ≡ done
            → (let s = (thread_loop (tx_round net ipv4 load idle_us) rest q.0).state in
                IsGiven s × (length s.started ≤ n + length (r ∷ rounds)))
            → IsGiven (end q rest).state
              × (length (end q rest).state.started ≤ n + length (r ∷ rounds))
        on_exit (q, done) rest e h = h
        on_exit (q, thrown) rest e h = absurd (cc)

        on_throw :
            (q : TcpClient × Exit) (rest : List TxRound)
            → q.1 ≡ thrown
            → IsGiven q.0 × (length q.0.started ≤ n + length (r ∷ rounds))
            → IsGiven (end q rest).state
              × (length (end q rest).state.started ≤ n + length (r ∷ rounds))
        on_throw (q, thrown) rest e h = h
        on_throw (q, done) rest e h = absurd (cc)

    -- The TX thread starts its threads with the identities of its address and the numbers 0, 1, 2 and
    -- so on, in this order and without a gap, at most one in each round; over at most 2^32 rounds no
    -- two are the same. This holds whatever the scheduler names, and also where the loop ends because
    -- a thread could not be started.
    pub tcp_client_tx_thread_lem :
        (scheduler : Scheduler String) (rounds : List TxRound)
        → ip2uint net ipv4 < 2 ^ 32
        → length rounds ≤ 2 ^ 32
        → let started =
            (tcp_client_tx_thread net ipv4 load idle_us scheduler rounds).state.started in
          (map (λ p. p.1) started ≡ identities (ip2uint net ipv4) 0 (length started))
          × AllDifferent (map (λ p. p.1) started)
          × (length started ≤ length rounds)
    unfolding tcp_client_tx_thread
    tcp_client_tx_thread_lem scheduler rounds me small =
        let first : TcpClient = record { scheduler = scheduler; ping_uid = 0; started = [] } in
        let (given, count) =
          loop_lem rounds 0 first (omega arith)
            (record { uid = refl; count = refl; given = refl }) in
        (
          given,
          subst AllDifferent (sym given)
              (identities_different (ip2uint net ipv4) 0 _ me (omega (arith, count))),
          omega (arith, count),
        )
