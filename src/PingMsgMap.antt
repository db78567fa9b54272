-- ===== src/PingMsgMap.antt =====
-- `PingMsgMap` of src/rdma_ping_msg.hpp: the pings that an RDMA server is answering. A stale
-- entry is removed without a report, so the queue of the shared container is the unit type.
pub mod Lookup
mod Tests
use pingweave.Base.{
  ℕ, zero, suc, ◌+◌, ◌-◌, ◌*◌, ◌/◌, ◌%◌, ◌^◌, ◌≤◌, ◌<◌, bit_or, bit_and, ◌≡◌, refl, sym, ap, ap₂,
  subst, ◌∙◌, ◌≢◌, ◌↔◌, ◌⊎◌, inl, inr, ite, if_pos, if_neg, Bool, true, false, not, ◌&&◌, ◌||◌,
  Option, none, some, List, [], ◌∷◌, ◌++◌, map, foldl, filter, Mem, Nodup, Perm, arith, dec_lt,
  dec_le, ℕ_discrete, u64, u32, success, failure, ltb, leb, ◌==◌, if◌then◌else◌, ltb→lt, lt→ltb,
  leb→le, ==_iff, ==_self, Bool-cases, Option-cases, length, get_elem?, get_or, set, All,
  length-append, length-set, get_or-set_self, get_or-set_ne,
}
use pingweave.Messages.{RdmaPingMsg}
use pingweave.Table
use pingweave.Table.{Store, Table, Entry, find, remove}

abbrev pub Pings : Type 0
Pings = Store RdmaPingMsg (Unit {0})

abbrev pub evict : Unit {0} → RdmaPingMsg → Unit {0}
evict q v = q

abbrev pub value_of : Option (Entry RdmaPingMsg) → Option RdmaPingMsg
value_of none = none
value_of (some e) = some e.value

unfoldable pub insert : ℕ → RdmaPingMsg → ℕ → ℕ → Pings → Pings × Bool
insert key value now_expire now = Table.insert evict key value now_expire now

unfoldable pub get : ℕ → Pings → Option RdmaPingMsg
get key s = value_of (find key s.table.map)

unfoldable pub remove_key : ℕ → Pings → Pings × Bool
remove_key key s = let (t, done) = remove key s.table in (record s { table = t }, done)

unfoldable pub is_empty : Pings → Bool
is_empty s = length s.table.map == 0

unfoldable pub size : Pings → ℕ
size s = length s.table.map
