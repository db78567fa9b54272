-- ===== src/Table/Expire.antt =====
-- What `expireEntries` and `insert` do to a valid table.
use pingweave.Base.{
  ℕ, suc, ◌+◌, ◌≤◌, ◌<◌, ◌≡◌, refl, Bool, Option, none, some, List, [], ◌∷◌, map, foldl, filter,
  arith, dec_lt, dec_le, success, failure, ◌==◌, if◌then◌else◌, length,
}
use pingweave.Table.{
  Entry, Map, Store, find, erase, elapsed_ms, expire_loop, expire_entries, emplace, insert,
  insert_at,
}
use pingweave.Table.Maps.{find-assign}
use pingweave.Table.Linked.{node_of, Linked, IsValid, Linked-mono, emplace-IsValid, IsValid-later}

module _ {ℓ} {V : Type ℓ} where
  -- The entries that are younger than the threshold, and the others.
  abbrev pub live : ℕ → ℕ → Map V → Map V
  live thr now = filter λ p. dec_lt (elapsed_ms now p.1.timestamp) thr

  abbrev pub stale : ℕ → ℕ → Map V → Map V
  stale thr now = filter λ p. dec_le thr (elapsed_ms now p.1.timestamp)

  abbrev pub values : Map V → List V
  values = map λ p. p.1.value

  -- The stamps do not fall, so behind a young entry all are young.
  live_all :
      (thr now n last i ts : ℕ) (m : Map V)
      → elapsed_ms now ts < thr
      → Linked n last i ts m
      → (live thr now m ≡ m) × (stale thr now m ≡ [])
  live_all thr now n last i ts [] y h = (refl, refl)
  live_all thr now n last i ts ((k, e) ∷ m) y h =
      ground (arith, live_all thr now n last (suc e.list_iter) e.timestamp m)

  pub find-live-none :
      (thr now k : ℕ) (m : Map V) → find k m ≡ none → find k (live thr now m) ≡ none
  unfolding find
  find-live-none thr now k [] h = refl
  find-live-none thr now k ((j, e) ∷ m) h = ground (arith, find-live-none thr now k m)

  Linked-live :
      (thr now n last i ts : ℕ) (m : Map V)
      → Linked n last i ts m
      → Linked n last i ts (live thr now m)
  Linked-live thr now n last i ts [] h = tt
  Linked-live thr now n last i ts ((k, e) ∷ m) h = ground (
    arith,
    find-live-none thr now k m,
    Linked-live thr now n last (suc e.list_iter) e.timestamp m h.5,
    Linked-mono n n last last (suc e.list_iter) i e.timestamp ts (live thr now m),
  )

  -- An entry, if it is young.
  abbrev pub young : ℕ → ℕ → Option (Entry V) → Option (Entry V)
  young thr now none = none
  young thr now (some e) = elim (dec_lt (elapsed_ms now e.timestamp) thr) [
    | yes _ ↦ some e
    | no _ ↦ none
  ]

  -- Lookup after expiry: an entry is found exactly if it was there and is young.
  pub find-live :
      (thr now n last i ts k : ℕ) (m : Map V)
      → Linked n last i ts m
      → find k (live thr now m) ≡ young thr now (find k m)
  unfolding find
  find-live thr now n last i ts k [] h = refl
  find-live thr now n last i ts k ((j, e) ∷ m) h = ground (
    arith,
    find-live thr now n last (suc e.list_iter) e.timestamp k m h.5,
    find-live-none thr now k m,
  )

module _ {V : Type 0} where
  -- What `insert` answers and leaves, by the entry that expiry leaves under the key, seen by a
  -- lookup of `j`.
  abbrev pub Inserted : Option (Entry V) → Map V → ℕ → ℕ → Entry V → Bool → Map V → Type 0
  Inserted (some _) m key j e done m' = (done ≡ failure) × (m' ≡ m)
  Inserted none m key j e done m' =
      (done ≡ success) × (find j m' ≡ (if key == j then some e else find j m))

module _ {V Q : Type 0} (evict : Q → V → Q) where
  expire_loop_lem :
      (thr now n last i ts : ℕ) (m : Map V) (q : Q) (c : ℕ)
      → Linked n last i ts m
      → expire_loop evict thr now (map node_of m) m q c ≡ record {
        map = live thr now m;
        key_list = map node_of (live thr now m);
        queue = foldl evict q (values (stale thr now m));
        n_remove = c + length (stale thr now m);
      }
  unfolding expire_loop find erase
  expire_loop_lem thr now n last i ts [] q c h = ground arith
  expire_loop_lem thr now n last i ts ((k, e) ∷ m) q c h = ground (
    arith,
    live_all thr now n last (suc e.list_iter) e.timestamp m,
    expire_loop_lem thr now n last (suc e.list_iter) e.timestamp m (evict q e.value) (c + 1) h.5,
  )

  -- What is left, whom it reports, and how many it counts, if exactly the stale entries go.
  abbrev pub expired : ℕ → Store V Q → Store V Q × ℕ
  expired now s = (
    record {
      table = record (s.table) {
        map = live s.table.threshold_ms now s.table.map;
        key_list = map node_of (live s.table.threshold_ms now s.table.map);
      };
      queue = foldl evict s.queue (values (stale s.table.threshold_ms now s.table.map));
    },
    length (stale s.table.threshold_ms now s.table.map),
  )

  -- On a valid table `expireEntries`, which stops at the first young entry, removes exactly the
  -- stale entries, evicts each once in order of insertion, and returns their number.
  pub expire_entries_lem :
      (now : ℕ) {last : ℕ} (s : Store V Q)
      → IsValid last s.table
      → expire_entries evict now s ≡ expired now s
  unfolding expire_entries
  expire_entries_lem now {last} s v =
      rw
        (
          v.aligned,
          expire_loop_lem s.table.threshold_ms now s.table.next_iter last 0 0 s.table.map s.queue 0
              v.linked,
        )
        (ground arith)

  expired-IsValid :
      (now : ℕ) {last : ℕ} (s : Store V Q)
      → IsValid last s.table
      → IsValid last (expired now s).0.table
  expired-IsValid now {last} s v = record {
    aligned = refl;
    linked = Linked-live s.table.threshold_ms now s.table.next_iter last 0 0 s.table.map v.linked;
  }

  pub expire_entries-IsValid :
      (now : ℕ) {last : ℕ} (s : Store V Q)
      → IsValid last s.table
      → IsValid last (expire_entries evict now s).0.table
  expire_entries-IsValid now s v = rw (expire_entries_lem now s v) (expired-IsValid now s v)

  -- `insert` keeps the invariant, if the clock has not gone back since the last insertion.
  pub insert-IsValid :
      (key : ℕ) (x : V) (now steady_now : ℕ) {last : ℕ} (s : Store V Q)
      → last ≤ steady_now
      → IsValid last s.table
      → IsValid steady_now (insert evict key x now steady_now s).0.table
  unfolding insert
  insert-IsValid key x now steady_now s h v =
      rw (expire_entries_lem now s v) (after (find key (expired now s).0.table.map) refl)
    where
      after :
          (o : Option (Entry V))
          → find key (expired now s).0.table.map ≡ o
          → IsValid steady_now (insert_at key x steady_now (expired now s).0 o).0.table
      after none e =
          emplace-IsValid key x steady_now (expired now s).0.table h e (expired-IsValid now s v)
      after (some d) e = IsValid-later h (expired-IsValid now s v)

  -- `insert` answers by whether the key is in use after expiry. A refusal changes nothing more; a
  -- new key is found with its value and stamp, and every other key as after expiry.
  pub find-insert :
      (key j : ℕ) (x : V) (now steady_now : ℕ) {last : ℕ} (s : Store V Q)
      → IsValid last s.table
      → let m = live s.table.threshold_ms now s.table.map in
        let (s', done) = insert evict key x now steady_now s in
        (s'.queue ≡ (expired now s).0.queue)
        × Inserted
            (find key m)
            m
            key
            j
            (record { value = x; timestamp = steady_now; list_iter = s.table.next_iter })
            done
            s'.table.map
  unfolding insert emplace
  find-insert key j x now steady_now {last} s v =
      rw (expire_entries_lem now s v) (cases (find key m))
    where
      m : Map V
      m = live s.table.threshold_ms now s.table.map

      cases :
          (o : Option (Entry V))
          → let (s', done) = insert_at key x steady_now (expired now s).0 o in
            (s'.queue ≡ (expired now s).0.queue)
            × Inserted o m key j
                (record { value = x; timestamp = steady_now; list_iter = s.table.next_iter })
                done
                s'.table.map
      cases none = (refl, (refl, find-assign key j _ m))
      cases (some d) = (refl, (refl, refl))
