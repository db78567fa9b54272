-- ===== src/Table/Count.antt =====
-- What the entries that the operations leave weigh together, and predicates on them.
use pingweave.Base.{
  ℕ, ◌+◌, ◌≡◌, refl, ap₂, subst, inl, inr, Option, none, some, [], ◌∷◌, foldl, arith, sym, ◌==◌,
  if◌then◌else◌, ==_iff, Bool-cases, Option-cases, All,
}
use pingweave.Table.{
  Entry, Map, Table, Store, remove, find, erase, assign, emplace, insert, insert_at, expire_entries,
  modify,
}
use pingweave.Table.Expire.{live, stale, values, expire_entries_lem}
use pingweave.Table.Maps.{edit}
use pingweave.Table.Linked.{IsValid}

module _ {ℓ} {V : Type ℓ} where
  -- The weights of the entries' values together.
  module _ (weight : V → ℕ) where
    unfoldable pub weights : Map V → ℕ
    weights [] = 0
    weights ((k, e) ∷ m) = weight e.value + weights m

    pub weights-live-stale :
        (thr now : ℕ) (m : Map V) → weights (live thr now m) + weights (stale thr now m) ≡ weights m
    unfolding weights
    weights-live-stale thr now [] = refl
    weights-live-stale thr now ((k, e) ∷ m) = ground (arith, weights-live-stale thr now m)

    pub weights-erase :
        (k : ℕ) (m : Map V) (e : Entry V)
        → find k m ≡ some e
        → weights (erase k m) + weight e.value ≡ weights m
    unfolding find erase weights
    weights-erase k [] e h = ground arith
    weights-erase k ((j, d) ∷ m) e h = ground (arith, weights-erase k m e)

    pub weights-modify :
        (k : ℕ) (f : V → V) (m : Map V)
        → ((v : V) → weight (f v) ≡ weight v)
        → weights (modify k f m) ≡ weights m
    unfolding modify weights
    weights-modify k f [] h = refl
    weights-modify k f ((j, d) ∷ m) h = ground (arith, weights-modify k f m h, h d.value)

    pub weights-assign_new :
        (k : ℕ) (e : Entry V) (m : Map V)
        → find k m ≡ none
        → weights (assign k e m) ≡ weights m + weight e.value
    unfolding find assign weights
    weights-assign_new k e [] h = ground arith
    weights-assign_new k e ((j, d) ∷ m) h = ground (arith, weights-assign_new k e m)

  -- Predicates on the entries survive whatever removes entries.
  module _ (P : ℕ × Entry V → Type 0) where
    pub All-live : (thr now : ℕ) (m : Map V) → All P m → All P (live thr now m)
    All-live thr now [] h = tt
    All-live thr now ((k, e) ∷ m) h = ground (arith, All-live thr now m h.1)

    pub All-stale : (thr now : ℕ) (m : Map V) → All P m → All P (stale thr now m)
    All-stale thr now [] h = tt
    All-stale thr now ((k, e) ∷ m) h = ground (arith, All-stale thr now m h.1)

    pub All-modify :
        (k : ℕ) (f : V → V) (m : Map V)
        → ((e : Entry V) → find k m ≡ some e → P (k, e) → P (k, edit f e))
        → All P m
        → All P (modify k f m)
    unfolding find modify
    All-modify k f [] p h = tt
    All-modify k f ((j, d) ∷ m) p h = elim (Bool-cases (j == k)) [
      | inl b ↦
          let i : j ≡ k = (==_iff j k).0 b in
          rw b (
            subst (λ x. P (x, edit f d)) (sym i) (p d (rw b refl) (subst (λ x. P (x, d)) i h.0)),
            h.1,
          )
      | inr b ↦ rw b (h.0, All-modify k f m (λ e g. p e (rw b g)) h.1)
    ]

    pub All-erase : (k : ℕ) (m : Map V) → All P m → All P (erase k m)
    unfolding erase
    All-erase k [] h = tt
    All-erase k ((j, e) ∷ m) h = ground (arith, All-erase k m h.1)

    pub All-remove : (k : ℕ) (t : Table V) → All P t.map → All P (remove k t).0.map
    unfolding remove
    All-remove k t h = elim (Option-cases (find k t.map)) [
      | inl e ↦ rw (e, remove) h
      | inr (d, e) ↦ rw (e, remove) (All-erase k t.map h)
    ]

    pub All-assign : (k : ℕ) (e : Entry V) (m : Map V) → P (k, e) → All P m → All P (assign k e m)
    unfolding assign
    All-assign k e [] p h = (p, tt)
    All-assign k e ((j, d) ∷ m) p h = ground (arith, All-assign k e m p h.1)

    pub All-find : (k : ℕ) (m : Map V) (e : Entry V) → All P m → find k m ≡ some e → P (k, e)
    unfolding find
    All-find k [] e h f = absurd (ground arith)
    All-find k ((j, d) ∷ m) e h f = elim (Bool-cases (j == k)) [
      | inl b ↦
          let i : j ≡ k = (==_iff j k).0 b in
          let g : some d ≡ some e = rw b at f in
          subst (λ (x : ℕ × Entry V). P x) (ap₂ (λ (x : ℕ) (y : Entry V). (x, y)) i (cc)) h.0
      | inr b ↦ All-find k m e h.1 (rw b at f)
    ]

-- Where each eviction of an entry in which `P` holds adds its weight to what the queue has, expiry
-- moves the weights of what it takes from the table to the queue.
module _ {V Q : Type 0} (evict : Q → V → Q) (sent : Q → ℕ) (weight : V → ℕ)
    (P : ℕ × Entry V → Type 0)
    (counts : (q : Q) (p : ℕ × Entry V)
      → P p
      → sent (evict q p.1.value) ≡ sent q + weight p.1.value) where
  sent-foldl :
      (q : Q) (m : Map V) → All P m → sent (foldl evict q (values m)) ≡ sent q + weights weight m
  unfolding weights
  sent-foldl q [] h = omega arith
  sent-foldl q (p ∷ m) h = omega (arith, sent-foldl (evict q p.1.value) m h.1, counts q p h.0)

  pub total-expire :
      (now : ℕ) {last : ℕ} (s : Store V Q)
      → IsValid last s.table
      → All P s.table.map
      → let s' = (expire_entries evict now s).0 in
        sent s'.queue + weights weight s'.table.map ≡ sent s.queue + weights weight s.table.map
  total-expire now s v h =
      let thr = s.table.threshold_ms in
      let m = s.table.map in
      rw (expire_entries_lem evict now s v) (
        omega (
          arith,
          sent-foldl s.queue (stale thr now m) (All-stale P thr now m h),
          weights-live-stale weight thr now m,
        ))

  pub total-insert :
      (key : ℕ) (x : V) (now steady_now : ℕ) {last : ℕ} (s : Store V Q)
      → IsValid last s.table
      → All P s.table.map
      → let (s', done) = insert evict key x now steady_now s in
        sent s'.queue + weights weight s'.table.map
        ≡ sent s.queue + weights weight s.table.map + (if done then weight x else 0)
  unfolding insert emplace
  total-insert key x now steady_now s v h =
      at (expire_entries evict now s).0 (total-expire now s v h) _ refl
    where
      at :
          (s1 : Store V Q)
          → sent s1.queue + weights weight s1.table.map ≡ sent s.queue + weights weight s.table.map
          → (o : Option (Entry V)) → find key s1.table.map ≡ o
          → let (s', done) = insert_at key x steady_now s1 o in
            sent s'.queue + weights weight s'.table.map
            ≡ sent s.queue + weights weight s.table.map + (if done then weight x else 0)
      at s1 e none h = omega (arith, weights-assign_new weight key _ s1.table.map h, e)
      at s1 e (some d) h = omega arith

module _ {V Q : Type 0} (evict : Q → V → Q) (P : ℕ × Entry V → Type 0) where
  pub All-expire :
      (now : ℕ) {last : ℕ} (s : Store V Q)
      → IsValid last s.table
      → All P s.table.map
      → All P (expire_entries evict now s).0.table.map
  All-expire now s v a =
      rw (expire_entries_lem evict now s v) (All-live P s.table.threshold_ms now s.table.map a)

  pub All-insert :
      (key : ℕ) (x : V) (now steady_now : ℕ) {last : ℕ} (s : Store V Q)
      → ((ts iter : ℕ) → P (key, record { value = x; timestamp = ts; list_iter = iter }))
      → IsValid last s.table
      → All P s.table.map
      → All P (insert evict key x now steady_now s).0.table.map
  unfolding insert emplace
  All-insert key x now steady_now s p v a =
      at (expire_entries evict now s).0 (All-expire now s v a) _
    where
      at :
          (s1 : Store V Q)
          → All P s1.table.map
          → (o : Option (Entry V)) → All P (insert_at key x steady_now s1 o).0.table.map
      at s1 h none = All-assign P key _ s1.table.map (p steady_now s1.table.next_iter) h
      at s1 h (some d) = h
