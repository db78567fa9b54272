-- ===== src/TcpUdpPinginfoMap/Account.antt =====
-- A ping that is taken in is reported by its PONG, or when it expires, under its own identity.
use pingweave.Base.{
  ℕ, ◌+◌, ◌≤◌, ◌≡◌, refl, sym, ap, subst, ◌∙◌, ◌++◌, inl, inr, Bool, List, [], ◌∷◌, arith,
  if◌then◌else◌, Option-cases, All,
}
use pingweave.Common.{Net, ip2uint}
use pingweave.Common.Identity.{Identity, weighed, weighed-if, weighed-append}
use pingweave.Messages.{TcpUdpResultMsg}
use pingweave.Table.{Store, Entry, find, remove}
use pingweave.Table.Linked.{IsValid, remove-IsValid}
use pingweave.Table.Expire.{expire_entries-IsValid, insert-IsValid}
use pingweave.Table.Count.{
  weights, weights-erase, All-erase, All-find, total-expire, total-insert, All-expire, All-insert,
}
use pingweave.TcpUdpPinginfoMap.{
  TcpUdpPinginfo, answered, failed, evict, insert, update_pong_info, size, is_empty,
}
use Prim.Native.String.{String}

-- The entry of `key` has that ping as its value.
abbrev pub HasKey : ℕ × Entry TcpUdpPinginfo → Type 0
HasKey p = p.1.value.pingid ≡ p.0

pub record IsGood {Q : Type 0} (now : ℕ) (s : Store TcpUdpPinginfo Q) : Type 0 where
  pub valid : IsValid now s.table
  pub keyed : All HasKey s.table.map

-- The calls of the clients. A ping is inserted under its own identity.
pub data Call : Type 0 where
  sends : ℕ → String → ℕ → ℕ → ℕ → Call
  pong : ℕ → ℕ → Call
  asks_size : ℕ → Call
  asks_empty : ℕ → Call

-- The steady clock of the insertions does not go back.
abbrev pub Timed : ℕ → List Call → Type 0
Timed last [] = Unit
Timed last (sends id dstip now steady system ∷ cs) = (last ≤ steady) × Timed steady cs
Timed last (pong id recv ∷ cs) = Timed last cs
Timed last (asks_size now ∷ cs) = Timed last cs
Timed last (asks_empty now ∷ cs) = Timed last cs

-- The ping that a report is about, and that an entry waits for.
abbrev pub named_in : TcpUdpResultMsg → Identity
named_in m = record { pingid = m.pingid; dstip = m.dstip; time_ping_send = m.time_ping_send }

abbrev pub waited_for : Net → TcpUdpPinginfo → Identity
waited_for net v = record {
  pingid = v.pingid;
  dstip = ip2uint net v.dstip;
  time_ping_send = v.time_ping_send;
}

module _ {Q : Type 0} (try_enqueue : Q → TcpUdpResultMsg → Q × Bool) (net : Net) where
  -- A call's new store, and the ping that it took in.
  abbrev pub step : Store TcpUdpPinginfo Q → Call → Store TcpUdpPinginfo Q × List Identity
  step s (sends id dstip now steady system) =
      let (s', done) = insert try_enqueue net id id dstip now steady system s in
      let ping : Identity = record {
        pingid = id;
        dstip = ip2uint net dstip;
        time_ping_send = system;
      } in
      (s', if done then ping ∷ [] else [])
  step s (pong id recv) = ((update_pong_info try_enqueue net id recv s).0, [])
  step s (asks_size now) = ((size try_enqueue net now s).0, [])
  step s (asks_empty now) = ((is_empty try_enqueue net now s).0, [])

  unfoldable pub run : Store TcpUdpPinginfo Q → List Call → Store TcpUdpPinginfo Q × List Identity
  run s [] = (s, [])
  run s (c ∷ cs) = let (s', is) = step s c in let (s'', js) = run s' cs in (s'', is ++ js)

  pub pong-IsGood :
      (id recv : ℕ) {last : ℕ} (s : Store TcpUdpPinginfo Q)
      → IsGood last s
      → IsGood last (update_pong_info try_enqueue net id recv s).0
  unfolding update_pong_info remove
  pong-IsGood id recv {last} s g = elim (Option-cases (find id s.table.map)) [
    | inl h ↦ rw (h, update_pong_info) g
    | inr (e, h) ↦
        let k : e.value.pingid ≡ id = All-find HasKey id s.table.map e g.keyed h in
        rw (h, update_pong_info)
          (record {
            valid = remove-IsValid e.value.pingid s.table g.valid;
            keyed = rw k (rw (h, remove) (All-erase HasKey id s.table.map g.keyed));
          })
  ]

  pub insert-IsGood :
      (id : ℕ) (dstip : String) (now steady system : ℕ) {last : ℕ} (s : Store TcpUdpPinginfo Q)
      → last ≤ steady
      → IsGood last s
      → IsGood steady (insert try_enqueue net id id dstip now steady system s).0
  unfolding insert
  insert-IsGood id dstip now steady system s h g = record {
    valid = insert-IsValid (evict try_enqueue net) id _ now steady s h g.valid;
    keyed =
        All-insert (evict try_enqueue net) HasKey id _ now steady s (λ _ _. refl) g.valid g.keyed;
  }

  step-IsGood :
      (c : Call) (cs : List Call) {last : ℕ} (s : Store TcpUdpPinginfo Q)
      → Timed last (c ∷ cs)
      → IsGood last s
      → (last' : ℕ) × IsGood last' (step s c).0 × Timed last' cs
  unfolding insert size is_empty
  step-IsGood (sends id dstip now steady system) cs s t g =
      (steady, insert-IsGood id dstip now steady system s t.0 g, t.1)
  step-IsGood (pong id recv) cs {last} s t g = (last, pong-IsGood id recv s g, t)
  step-IsGood (asks_size now) cs {last} s t g = (
    last,
    record {
      valid = expire_entries-IsValid (evict try_enqueue net) now s g.valid;
      keyed = All-expire (evict try_enqueue net) HasKey now s g.valid g.keyed;
    },
    t,
  )
  step-IsGood (asks_empty now) cs {last} s t g = (
    last,
    record {
      valid = expire_entries-IsValid (evict try_enqueue net) now s g.valid;
      keyed = All-expire (evict try_enqueue net) HasKey now s g.valid g.keyed;
    },
    t,
  )

  -- `sent` weighs the reports that a queue has been offered, each by the ping that it names.
  module _ (w : Identity → ℕ) (sent : Q → ℕ)
      (counts : (q : Q) (m : TcpUdpResultMsg)
        → sent (try_enqueue q m).0 ≡ sent q + w (named_in m)) where
    abbrev pub total : Store TcpUdpPinginfo Q → ℕ
    total s = sent s.queue + weights (λ v. w (waited_for net v)) s.table.map

    counts_evict :
        (q : Q) (p : ℕ × Entry TcpUdpPinginfo)
        → HasKey p
        → sent (evict try_enqueue net q p.1.value) ≡ sent q + w (waited_for net p.1.value)
    unfolding evict failed
    counts_evict q p _ = counts q _

    total-pong :
        (id recv : ℕ) {last : ℕ} (s : Store TcpUdpPinginfo Q)
        → IsGood last s
        → total (update_pong_info try_enqueue net id recv s).0 ≡ total s
    unfolding update_pong_info remove answered
    total-pong id recv {last} s g = elim (Option-cases (find id s.table.map)) [
      | inl h ↦ rw (h, update_pong_info) refl
      | inr (e, h) ↦
          let k : e.value.pingid ≡ id = All-find HasKey id s.table.map e g.keyed h in
          let offered : sent (try_enqueue s.queue (answered net e.value recv)).0
              ≡ sent s.queue + w (waited_for net e.value) =
            counts s.queue (answered net e.value recv) in
          let left = weights-erase (λ v. w (waited_for net v)) id s.table.map e h in
          rw (h, update_pong_info)
            (subst
              (λ j.
                total (record {
                  table = (remove j s.table).0;
                  queue = (try_enqueue s.queue (answered net e.value recv)).0;
                })
                ≡ total s)
              (sym k) (rw (h, remove) (omega (arith, offered, left))))
    ]

    pub total-step :
        (c : Call) {last : ℕ} (s : Store TcpUdpPinginfo Q)
        → IsGood last s
        → total (step s c).0 ≡ total s + weighed w (step s c).1
    unfolding insert size is_empty weighed
    total-step (sends id dstip now steady system) s g =
        total-insert (evict try_enqueue net) sent (λ v. w (waited_for net v)) HasKey counts_evict id
          _ now steady s g.valid g.keyed
        ∙ ap (λ n. total s + n)
            (sym (weighed-if w (insert try_enqueue net id id dstip now steady system s).1 _))
    total-step (pong id recv) s g = total-pong id recv s g ∙ omega arith
    total-step (asks_size now) s g =
        total-expire (evict try_enqueue net) sent (λ v. w (waited_for net v)) HasKey counts_evict
          now s g.valid g.keyed
        ∙ omega arith
    total-step (asks_empty now) s g =
        total-expire (evict try_enqueue net) sent (λ v. w (waited_for net v)) HasKey counts_evict
          now s g.valid g.keyed
        ∙ omega arith

    -- Over any calls in the order of the clock, on a good table, for any weight on the identities of
    -- pings (number, address, time of sending): the pings that the offered reports name and those in
    -- the table weigh together what they did at the start and what the pings weigh that were taken
    -- in. With the weight that is 1 on one ping only: it is reported or in the table as often as it
    -- was taken in.
    pub total-run :
        (cs : List Call) {last : ℕ} (s : Store TcpUdpPinginfo Q)
        → Timed last cs
        → IsGood last s
        → total (run s cs).0 ≡ total s + weighed w (run s cs).1
    unfolding run weighed
    total-run [] s t g = omega arith
    total-run (c ∷ cs) s t g =
        let (last', g', t') = step-IsGood c cs s t g in
        omega (
          arith,
          total-run cs (step s c).0 t' g',
          total-step c s g,
          weighed-append w (step s c).1 (run (step s c).0 cs).1,
        )
