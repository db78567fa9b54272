-- ===== src/RdmaPinginfoMap/Account.antt =====
-- A ping is reported under its own identity, if each of its three events comes in once at most.
use pingweave.RdmaPinginfoMap.Waiting.{bits, IsWaiting, mask_of, Unseen, write-Stage, pingid-write}
use pingweave.Base.{
  ℕ, ◌+◌, ◌≤◌, ◌<◌, bit_and, ◌≡◌, refl, sym, ap, subst, ◌∙◌, List, ◌∷◌, ◌++◌, inl, inr, Bool, false,
  some, [], arith, leb, if◌then◌else◌, Option-cases, All,
}
use pingweave.Common.{Net, ip2uint}
use pingweave.Common.Identity.{Identity, weighed, weighed-if, weighed-append}
use pingweave.Messages.{RdmaPingMsg, RdmaResultMsg}
use pingweave.Table.{Store, Entry, find, expire_entries}
use pingweave.Table.Linked.{IsValid}
use pingweave.Table.Maps.{edit}
use pingweave.Table.Expire.{expire_entries-IsValid, insert-IsValid}
use pingweave.Table.Count.{
  weights, weights-erase, weights-modify, All-erase, All-find, All-modify, All-expire, All-insert,
  total-expire, total-insert,
}
use pingweave.RdmaPinginfoMap.{
  RdmaPinginfo, initial, evict, insert, size, is_empty, completed, failed, on_ping_cqe, on_pong,
  on_ack,
}
use pingweave.RdmaPinginfoMap.Events.{Event, ping_cqe, pong, ack, write, handle, handle_lem}
use pingweave.RdmaPinginfoMap.Updates.{
  edited, update_missing, update_waits, update_reports, update-IsValid,
}
use Prim.Native.String.{String}

-- The ping that a report is about, and that an entry waits for.
abbrev pub named_in : RdmaResultMsg → Identity
named_in m = record { pingid = m.pingid; dstip = m.dstip; time_ping_send = m.time_ping_send }

abbrev pub waited_for : Net → RdmaPinginfo → Identity
waited_for net v = record {
  pingid = v.pingid;
  dstip = ip2uint net v.dstip;
  time_ping_send = v.time_ping_send;
}

waited_for-write :
    (net : Net) (ev : Event) (v : RdmaPinginfo) → waited_for net (write ev v) ≡ waited_for net v
unfolding on_ping_cqe on_pong on_ack
waited_for-write net (ping_cqe x) v = refl
waited_for-write net (pong recv_time cqe_time) v = refl
waited_for-write net (ack server_delay) v = refl

named_in-completed :
    (net : Net) (ev : Event) (v : RdmaPinginfo)
    → named_in (completed net (write ev v)) ≡ waited_for net v
unfolding completed
named_in-completed net ev v = waited_for-write net ev v

module _ {Q : Type 0} (try_enqueue : Q → RdmaResultMsg → Q × Bool) (net : Net) where
  pub record IsGood (last : ℕ) (s : Store RdmaPinginfo Q) : Type 0 where
    pub valid : IsValid last s.table
    pub waiting : All IsWaiting s.table.map

  edited-IsWaiting :
      (ev : Event) (key : ℕ) (s : Store RdmaPinginfo Q) (e : Entry RdmaPinginfo)
      → find key s.table.map ≡ some e
      → (write ev e.value).recv_cnt ≡ bits (write ev e.value).recv_bitmap
      → (write ev e.value).recv_bitmap < 7
      → All IsWaiting s.table.map
      → All IsWaiting (edited (write ev) key s).table.map
  edited-IsWaiting ev key s e h c b a =
      let k = (All-find IsWaiting key s.table.map e a h).0 in
      All-modify IsWaiting key (write ev) s.table.map
        (λ d g p.
          let same : some e ≡ some d = sym h ∙ g in
          let at : e ≡ d = cc in
          subst (λ x. IsWaiting (key, edit (write ev) x)) at (pingid-write ev e.value ∙ k, c, b))
        a

  module _ (w : Identity → ℕ) (sent : Q → ℕ)
      (counts : (q : Q) (m : RdmaResultMsg)
        → sent (try_enqueue q m).0 ≡ sent q + w (named_in m)) where
    abbrev pub total : Store RdmaPinginfo Q → ℕ
    total s = sent s.queue + weights (λ v. w (waited_for net v)) s.table.map

    counts_evict :
        (q : Q) (p : ℕ × Entry RdmaPinginfo)
        → IsWaiting p
        → sent (evict try_enqueue net q p.1.value) ≡ sent q + w (waited_for net p.1.value)
    unfolding evict failed
    counts_evict q p (k, c, b) =
        let few : leb 3 p.1.value.recv_cnt ≡ false = ground (arith) in rw few (counts q _)

    -- An event that is new to its ping keeps the entries as they should be, and the total.
    handle_keeps :
        (ev : Event) (key : ℕ) (s : Store RdmaPinginfo Q)
        → Unseen ev (find key s.table.map)
        → All IsWaiting s.table.map
        → let s' = (handle try_enqueue net key ev s).0 in
          All IsWaiting s'.table.map × (total s' ≡ total s)
    handle_keeps ev key s new a = elim (Option-cases (find key s.table.map)) [
      | inl h ↦
          rw
            (handle_lem try_enqueue net key ev s, update_missing try_enqueue net (write ev) key s h)
            (a, refl)
      | inr (e, h) ↦
          let k : IsWaiting (key, e) = All-find IsWaiting key s.table.map e a h in
          let bit : bit_and e.value.recv_bitmap (mask_of ev) ≡ 0 = subst (Unseen ev) h new in
          elim (write-Stage ev e.value k.1 k.2 bit) [
            | inl (b, c) ↦
                rw
                  (
                    handle_lem try_enqueue net key ev s,
                    update_reports try_enqueue net (write ev) key s h b c
                        (pingid-write ev e.value ∙ k.0),
                  )
                  (
                    All-erase IsWaiting key s.table.map a,
                    omega (
                      arith,
                      counts s.queue (completed net (write ev e.value)),
                      ap w (named_in-completed net ev e.value),
                      weights-erase (λ v. w (waited_for net v)) key s.table.map e h,
                    ),
                  )
            | inr (b, c, l) ↦
                rw
                  (
                    handle_lem try_enqueue net key ev s,
                    update_waits try_enqueue net (write ev) key s h b,
                  )
                  (
                    edited-IsWaiting ev key s e h c l a,
                    omega (
                      arith,
                      weights-modify (λ v. w (waited_for net v)) key (write ev) s.table.map
                          (λ v. ap w (waited_for-write net ev v)),
                    ),
                  )
          ]
    ]

  -- Tables reached from one by the calls of the client's threads: the clock of the last insertion,
  -- and the pings taken in. The client inserts a ping under its own identity.
  pub data Reach (first : Store RdmaPinginfo Q)
      : ℕ → List Identity → Store RdmaPinginfo Q → Type 0 where
    start : Reach first 0 [] first
    inserts :
        {last : ℕ} {is : List Identity} {s : Store RdmaPinginfo Q} (msg : RdmaPingMsg)
        (dstip : String) (now steady system : ℕ)
        → Reach first last is s
        → last ≤ steady
        → Reach first steady
            (is
              ++ (if (insert try_enqueue net msg.pingid msg dstip now steady system s).1
                  then record {
                    pingid = msg.pingid;
                    dstip = ip2uint net dstip;
                    time_ping_send = system;
                  }
                    ∷ []
                  else []))
            (insert try_enqueue net msg.pingid msg dstip now steady system s).0
    comes_in :
        {last : ℕ} {is : List Identity} {s : Store RdmaPinginfo Q} (key : ℕ) (ev : Event)
        → Reach first last is s
        → Unseen ev (find key s.table.map)
        → Reach first last is (handle try_enqueue net key ev s).0
    asks_size :
        {last : ℕ} {is : List Identity} {s : Store RdmaPinginfo Q} (now : ℕ)
        → Reach first last is s
        → Reach first last is (size try_enqueue net now s).0
    asks_empty :
        {last : ℕ} {is : List Identity} {s : Store RdmaPinginfo Q} (now : ℕ)
        → Reach first last is s
        → Reach first last is (is_empty try_enqueue net now s).0

  module _ (w : Identity → ℕ) (sent : Q → ℕ)
      (counts : (q : Q) (m : RdmaResultMsg)
        → sent (try_enqueue q m).0 ≡ sent q + w (named_in m)) where
    pub record IsAccounted (base last : ℕ) (is : List Identity) (s : Store RdmaPinginfo Q)
        : Type 0 where
      pub good : IsGood last s
      pub accounted : total w sent counts s ≡ base + weighed w is

    expire-IsAccounted :
        (base : ℕ) (is : List Identity) (now : ℕ) {last : ℕ} (s : Store RdmaPinginfo Q)
        → IsAccounted base last is s
        → IsAccounted base last is (expire_entries (evict try_enqueue net) now s).0
    expire-IsAccounted base is now s k = record {
      good = record {
        valid = expire_entries-IsValid (evict try_enqueue net) now s k.good.valid;
        waiting = All-expire (evict try_enqueue net) IsWaiting now s k.good.valid k.good.waiting;
      };
      accounted =
          total-expire (evict try_enqueue net) sent (λ v. w (waited_for net v)) IsWaiting
            (counts_evict w sent counts) now s k.good.valid k.good.waiting
          ∙ k.accounted;
    }

    insert-IsAccounted :
        (base : ℕ) (is : List Identity) (msg : RdmaPingMsg) (dstip : String) (now steady system : ℕ)
        {last : ℕ} (s : Store RdmaPinginfo Q)
        → last ≤ steady
        → IsAccounted base last is s
        → let (s', done) = insert try_enqueue net msg.pingid msg dstip now steady system s in
          IsAccounted base steady
            (is
              ++ (if done
                  then record {
                    pingid = msg.pingid;
                    dstip = ip2uint net dstip;
                    time_ping_send = system;
                  }
                    ∷ []
                  else []))
            s'
    unfolding insert initial
    insert-IsAccounted base is msg dstip now steady system s h k = record {
      good = record {
        valid = insert-IsValid (evict try_enqueue net) msg.pingid _ now steady s h k.good.valid;
        waiting =
            All-insert (evict try_enqueue net) IsWaiting msg.pingid _ now steady s
              (λ _ _. (refl, refl, omega arith)) k.good.valid k.good.waiting;
      };
      accounted =
          total-insert (evict try_enqueue net) sent (λ v. w (waited_for net v)) IsWaiting
            (counts_evict w sent counts) msg.pingid (initial msg dstip system steady) now steady s
            k.good.valid k.good.waiting
          ∙ omega (
            arith,
            k.accounted,
            weighed-append w is _,
            weighed-if w (insert try_enqueue net msg.pingid msg dstip now steady system s).1 _,
          );
    }

    handle-IsAccounted :
        (base : ℕ) (is : List Identity) (key : ℕ) (ev : Event) {last : ℕ} (s : Store RdmaPinginfo Q)
        → Unseen ev (find key s.table.map)
        → IsAccounted base last is s
        → IsAccounted base last is (handle try_enqueue net key ev s).0
    handle-IsAccounted base is key ev {last} s h k =
        let (a, t) = handle_keeps w sent counts ev key s h k.good.waiting in
        record {
          good = record {
            valid =
                subst (λ (r : Store RdmaPinginfo Q × Bool). IsValid last r.0.table)
                  (sym (handle_lem try_enqueue net key ev s))
                  (update-IsValid try_enqueue net (write ev) key s k.good.valid);
            waiting = a;
          };
          accounted = t ∙ k.accounted;
        }

    -- Over any calls of the client's threads from an empty table, in any order in which each of
    -- the three events comes in at most once for a ping that waits, and the clock of the
    -- insertions does not go back: the table stays valid, what has come in is counted in each
    -- entry, and for any weight on the identities of pings (number, address, time of sending) the
    -- pings that the offered reports name, less those at the start, and the pings in the table weigh
    -- together what the pings weigh that were taken in. With the weight that is 1 on one ping only:
    -- it is reported or waits as often as it was taken in.
    pub Reach-IsAccounted :
        (first s : Store RdmaPinginfo Q) (last : ℕ) (is : List Identity)
        → first.table.map ≡ []
        → IsValid 0 first.table
        → Reach first last is s
        → IsAccounted (sent first.queue) last is s
    unfolding size is_empty weighed weights
    Reach-IsAccounted first s last is empty valid start = record {
      good = record { valid = valid; waiting = rw empty tt };
      accounted = rw empty refl;
    }
    Reach-IsAccounted first s last is empty valid
          (inserts {last = was} {is = was_is} {s = before} msg dstip now steady system reached h) =
        insert-IsAccounted (sent first.queue) was_is msg dstip now steady system before h
          (Reach-IsAccounted first before was was_is empty valid reached)
    Reach-IsAccounted first s last is empty valid (comes_in {s = before} key ev reached h) =
        handle-IsAccounted (sent first.queue) is key ev before h
          (Reach-IsAccounted first before last is empty valid reached)
    Reach-IsAccounted first s last is empty valid (asks_size {s = before} now reached) =
        expire-IsAccounted (sent first.queue) is now before
          (Reach-IsAccounted first before last is empty valid reached)
    Reach-IsAccounted first s last is empty valid (asks_empty {s = before} now reached) =
        expire-IsAccounted (sent first.queue) is now before
          (Reach-IsAccounted first before last is empty valid reached)
