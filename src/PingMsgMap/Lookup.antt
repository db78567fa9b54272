-- ===== src/PingMsgMap/Lookup.antt =====
-- `get` after the other methods of `PingMsgMap`.
use pingweave.Base.{
  ℕ, ◌≡◌, refl, ◌∙◌, inl, inr, Bool, true, false, Option, none, some, arith, success, ◌==◌,
  if◌then◌else◌, ==_iff, Bool-cases, Option-cases,
}
use pingweave.Messages.{RdmaPingMsg}
use pingweave.Table.{Entry, find, remove}
use pingweave.Table.Maps.{find-erase_ne}
use pingweave.Table.Linked.{IsValid, find-erase_self}
use pingweave.Table.Expire.{live, young, find-live, find-insert, Inserted}
use pingweave.PingMsgMap.{Pings, evict, value_of, insert, get, remove_key}

-- What `get` finds at a time, if entries of a threshold's age are gone.
abbrev pub get_young : ℕ → ℕ → Pings → Option RdmaPingMsg
get_young now key s = value_of (young s.table.threshold_ms now (find key s.table.map))

value_of-none : (o : Option (Entry RdmaPingMsg)) → value_of o ≡ none → o ≡ none
value_of-none none h = refl
value_of-none (some e) h = absurd (ground arith)

-- On a valid table a ping is accepted if no young ping has its key; then it is found, and under
-- every other key what is found is what was there and is young.
pub get-insert :
    (key j : ℕ) (x : RdmaPingMsg) (now_expire now : ℕ) {last : ℕ} (s : Pings)
    → IsValid last s.table
    → get_young now_expire key s ≡ none
    → let (s', done) = insert key x now_expire now s in
      (done ≡ success) × (get j s' ≡ (if key == j then some x else get_young now_expire j s))
unfolding insert get
get-insert key j x now_expire now {last} s v h =
    let thr = s.table.threshold_ms in
    let n = s.table.next_iter in
    let gone : find key (live thr now_expire s.table.map) ≡ none =
      find-live thr now_expire n last 0 0 key s.table.map v.linked ∙ value_of-none _ h in
    let r = find-insert evict key j x now_expire now s v in
    let r' : Inserted none (live thr now_expire s.table.map) key j
        (record { value = x; timestamp = now; list_iter = n }) _ _ =
      rw gone at r.1 in
    (
      r'.0,
      rw (r'.1, find-live thr now_expire n last 0 0 j s.table.map v.linked) (pick (key == j) _ _),
    )
  where
    pick :
        (b : Bool) (e : Entry RdmaPingMsg) (o : Option (Entry RdmaPingMsg))
        → value_of (if b then some e else o) ≡ (if b then some e.value else value_of o)
    pick true e o = refl
    pick false e o = refl

-- A key that is removed is no longer found, and the others stay as they were.
pub get-remove_key :
    (key j : ℕ) {now : ℕ} (s : Pings)
    → IsValid now s.table
    → get j (remove_key key s).0 ≡ (if key == j then none else get j s)
unfolding remove_key remove get
get-remove_key key j {now} s v = elim (Option-cases (find key s.table.map)) [
  | inl h ↦
      rw (h, remove)
        (elim (Bool-cases (key == j)) [
          | inl b ↦ let k : key ≡ j = (==_iff key j).0 b in rw b (rw (← k, h))
          | inr b ↦ rw b
        ])
  | inr (e, h) ↦
      rw (h, remove)
        (elim (Bool-cases (key == j)) [
          | inl b ↦
              let k : key ≡ j = (==_iff key j).0 b in
              rw b (rw (← k, find-erase_self key s.table.next_iter now 0 0 s.table.map v.linked))
          | inr b ↦ rw (b, find-erase_ne key j s.table.map b)
        ])
]
