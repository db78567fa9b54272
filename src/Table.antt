-- ===== src/Table.antt =====
-- The container that three classes share, each in a copy of its own: `PingMsgMap`
-- (src/rdma_ping_msg.hpp), `RdmaPinginfoMap` (src/rdma_ping_info.hpp) and `TcpUdpPinginfoMap`
-- (src/tcpudp_ping_info.hpp). An `unordered_map` from keys to entries, and a `std::list` of the
-- keys in order of insertion, whose nodes the entries point to by `listIter`.
--
-- A node of the list has an identity, the number `iter`, which is what `listIter` holds.
-- The order of the map's entries is that of insertion; nothing below depends on it but proofs.
-- Times are nanoseconds of the steady clock, which does not go back.
pub mod Maps
pub mod Linked
pub mod Expire
pub mod Count
mod Tests
use pingweave.Base.{
  ℕ, suc, ◌+◌, ◌-◌, ◌/◌, Bool, Option, none, some, List, [], ◌∷◌, ◌++◌, if◌then◌else◌, ◌==◌, dec_lt,
  success, failure,
}

pub record Node : Type 0 where
  pub iter : ℕ
  pub key : ℕ

pub record Entry {ℓ} (V : Type ℓ) : Type ℓ where
  pub value : V
  pub timestamp : ℕ
  pub list_iter : ℕ

abbrev pub Map {ℓ} : Type ℓ → Type ℓ
Map V = List (ℕ × Entry V)

pub record Table {ℓ} (V : Type ℓ) : Type ℓ where
  pub map : Map V
  pub key_list : List Node
  pub next_iter : ℕ
  pub threshold_ms : ℕ

-- `map.find(key)`, `map.erase(it)`, `map[key] = entry`, and a write through `it->second.value`.
module _ {ℓ} {V : Type ℓ} where
  unfoldable pub find : ℕ → Map V → Option (Entry V)
  find k [] = none
  find k ((j, e) ∷ m) = if j == k then some e else find k m

  unfoldable pub erase : ℕ → Map V → Map V
  erase k [] = []
  erase k ((j, e) ∷ m) = if j == k then m else (j, e) ∷ erase k m

  unfoldable pub assign : ℕ → Entry V → Map V → Map V
  assign k e [] = (k, e) ∷ []
  assign k e ((j, d) ∷ m) = if j == k then (k, e) ∷ m else (j, d) ∷ assign k e m

  unfoldable pub modify : ℕ → (V → V) → Map V → Map V
  modify k f [] = []
  modify k f ((j, e) ∷ m) =
      if j == k then (j, record e { value = f e.value }) ∷ m else (j, e) ∷ modify k f m

-- `keyList.erase(iter)`
unfoldable pub erase_node : ℕ → List Node → List Node
erase_node i [] = []
erase_node i (n ∷ ns) = if n.iter == i then ns else n ∷ erase_node i ns

-- `duration_cast<milliseconds>(now - timestamp).count()`
abbrev pub elapsed_ms : ℕ → ℕ → ℕ
elapsed_ms now timestamp = (now - timestamp) / 1_000_000

-- A table beside the queue that its owner reports to.
pub record Store {ℓ κ} (V : Type ℓ) (Q : Type κ) : Type (ℓ ⊔ κ) where
  pub table : Table V
  pub queue : Q

pub record Expired {ℓ κ} (V : Type ℓ) (Q : Type κ) : Type (ℓ ⊔ κ) where
  pub map : Map V
  pub key_list : List Node
  pub queue : Q
  pub n_remove : ℕ

module _ {ℓ} {V : Type ℓ} where
  -- The part of `insert` that adds a new key, at the end of the list.
  unfoldable pub emplace : ℕ → V → ℕ → Table V → Table V
  emplace key v now t = record t {
    map = assign key (record { value = v; timestamp = now; list_iter = t.next_iter }) t.map;
    key_list = t.key_list ++ (record { iter = t.next_iter; key = key } ∷ []);
    next_iter = suc t.next_iter;
  }

  unfoldable pub remove : ℕ → Table V → Table V × Bool
  remove key t = elim (find key t.map) [
    | none ↦ (t, failure)
    | some e ↦
        (record t { map = erase key t.map; key_list = erase_node e.list_iter t.key_list }, success)
  ]

module _ {ℓ κ} {V : Type ℓ} {Q : Type κ} where
  -- The loop of `expireEntries`, on the list of keys. What the class does with a stale entry
  -- before it removes it is `evict`.
  unfoldable pub expire_loop : (Q → V → Q) → ℕ → ℕ → List Node → Map V → Q → ℕ → Expired V Q
  expire_loop evict threshold now [] m q n = record {
    map = m;
    key_list = [];
    queue = q;
    n_remove = n;
  }
  expire_loop evict threshold now (k ∷ ks) m q n = elim (find k.key m) [
    | none ↦ expire_loop evict threshold now ks m q n
    | some e ↦ elim (dec_lt (elapsed_ms now e.timestamp) threshold) [
      | yes young ↦ record { map = m; key_list = k ∷ ks; queue = q; n_remove = n }
      | no old ↦ expire_loop evict threshold now ks (erase k.key m) (evict q e.value) (n + 1)
    ]
  ]

  unfoldable pub expire_entries : (Q → V → Q) → ℕ → Store V Q → Store V Q × ℕ
  unfolding expire_loop
  expire_entries evict now s =
      let r = expire_loop evict s.table.threshold_ms now s.table.key_list s.table.map s.queue 0 in
      (
        record { table = record (s.table) { map = r.map; key_list = r.key_list }; queue = r.queue },
        r.n_remove,
      )

  insert_at : ℕ → V → ℕ → Store V Q → Option (Entry V) → Store V Q × Bool
  insert_at key v steady_now s (some _) = (s, failure)
  insert_at key v steady_now s none =
      (record s { table = emplace key v steady_now s.table }, success)

  unfoldable pub insert : (Q → V → Q) → ℕ → V → ℕ → ℕ → Store V Q → Store V Q × Bool
  unfolding insert_at
  insert evict key v now steady_now s =
      let s' = (expire_entries evict now s).0 in
      insert_at key v steady_now s' (find key s'.table.map)
