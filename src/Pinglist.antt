-- ===== src/Pinglist.antt =====
-- What src/tcpudp_scheduler.hpp and src/rdma_scheduler.hpp read from pinglist.yaml and
-- address_store.yaml: the addresses to ping. What fkyaml makes of the files is the input.
pub mod Targets
pub mod Exact
pub mod Rdma
mod Tests
use pingweave.Base.{
  ℕ, zero, suc, ◌+◌, ◌-◌, ◌*◌, ◌/◌, ◌%◌, ◌^◌, ◌≤◌, ◌<◌, bit_or, bit_and, ◌≡◌, refl, sym, ap, ap₂,
  subst, ◌∙◌, ◌≢◌, ◌↔◌, ◌⊎◌, inl, inr, ite, if_pos, if_neg, Bool, true, false, not, ◌&&◌, ◌||◌,
  Option, none, some, List, [], ◌∷◌, ◌++◌, map, foldl, filter, Mem, Nodup, Perm, arith, dec_lt,
  dec_le, ℕ_discrete, u64, u32, success, failure, ltb, leb, ◌==◌, if◌then◌else◌, ltb→lt, lt→ltb,
  leb→le, ==_iff, ==_self, Bool-cases, Option-cases, length, get_elem?, get_or, set, All,
  length-append, length-set, get_or-set_self, get_or-set_ne,
}
use text.Mathlib.Text.{◌==◌ as str_eq}
use Prim.Native.String.{String}

-- A node of a group: `none` where reading it as text throws. A node that cannot be walked through
-- is a list of one such node.
abbrev pub Texts : Type 0
Texts = List (Option String)

-- A group of the category `arrow`: one that lacks `src` or `dst`, or both lists.
pub data ArrowGroup : Type 0 where
  incomplete : ArrowGroup
  pair : Texts → Texts → ArrowGroup

-- The groups of the scheduler's protocol; `none` where category or protocol is missing or null.
pub record Pinglist : Type 0 where
  pub mesh : Option (List Texts)
  pub arrow : Option (List ArrowGroup)

-- One line of address_store.yaml: IP, and GID, LID and QPN; `none` where reading it throws.
pub record StoreEntry : Type 0 where
  pub ip : Option String
  pub fields : Option (String × ℕ × ℕ)

abbrev pub RdmaAddress : Type 0
RdmaAddress = String × String × ℕ × ℕ

unfoldable pub contains : String → List String → Bool
contains ip [] = false
contains ip (x ∷ xs) = str_eq x ip || contains ip xs

-- Is the address in the list? `none` where reading throws before it is found.
unfoldable pub search_ip : String → Texts → Option Bool
search_ip me [] = some false
search_ip me (none ∷ g) = none
search_ip me (some ip ∷ g) = if str_eq ip me then some true else search_ip me g

-- What follows, unless reading has thrown.
abbrev pub and_then : {S : Type 0} → S × Bool → (S → S × Bool) → S × Bool
and_then (s, true) next = (s, true)
and_then (s, false) next = next s

-- The walk through the groups, with what is done to each target. The flag is set where reading
-- throws: what was done by then stays.
module _ {S : Type 0} (add : String → S → S) where
  unfoldable pub add_group : Texts → S → S × Bool
  add_group [] s = (s, false)
  add_group (none ∷ g) s = (s, true)
  add_group (some ip ∷ g) s = add_group g (add ip s)

  unfoldable pub mesh_group : String → Texts → S → S × Bool
  mesh_group me g s = elim (search_ip me g) [
    | none ↦ (s, true)
    | some true ↦ add_group g s
    | some false ↦ (s, false)
  ]

  unfoldable pub mesh_loop : String → List Texts → S → S × Bool
  mesh_loop me [] s = (s, false)
  mesh_loop me (g ∷ gs) s = and_then (mesh_group me g s) (mesh_loop me gs)

  unfoldable pub arrow_group : String → ArrowGroup → S → S × Bool
  arrow_group me incomplete s = (s, false)
  arrow_group me (pair src dst) s = elim (search_ip me src) [
    | none ↦ (s, true)
    | some true ↦ add_group dst s
    | some false ↦ (s, false)
  ]

  unfoldable pub arrow_loop : String → List ArrowGroup → S → S × Bool
  arrow_loop me [] s = (s, false)
  arrow_loop me (g ∷ gs) s = and_then (arrow_group me g s) (arrow_loop me gs)

  unfoldable pub mesh_targets : String → Option (List Texts) → S → S × Bool
  mesh_targets me none s = (s, false)
  mesh_targets me (some gs) s = mesh_loop me gs s

  unfoldable pub arrow_targets : String → Option (List ArrowGroup) → S → S × Bool
  arrow_targets me none s = (s, false)
  arrow_targets me (some gs) s = arrow_loop me gs s

-- `addressIpNew` and `addressInfoNew` hold the same addresses.
unfoldable pub add_new : String → List String → List String
add_new ip xs = if contains ip xs then xs else xs ++ (ip ∷ [])

-- `relevantIps` keeps duplicates.
unfoldable pub add_relevant : String → List String → List String
add_relevant ip xs = xs ++ (ip ∷ [])

-- `addressIpNew` and `addressInfoNew` of the RDMA scheduler.
abbrev pub Found : Type 0
Found = List String × List RdmaAddress

-- The address is marked as known before the rest of its entry is read.
unfoldable pub add_entry : String → Option (String × ℕ × ℕ) → Found → Found × Bool
add_entry ip none (known, found) = ((known ++ (ip ∷ []), found), true)
add_entry ip (some (gid, lid, qpn)) (known, found) =
    ((known ++ (ip ∷ []), found ++ ((ip, gid, u32 lid, u32 qpn) ∷ [])), false)

unfoldable pub read_store : List String → List StoreEntry → Found → Found × Bool
read_store relevant [] f = (f, false)
read_store relevant (e ∷ es) f = elim e.ip [
  | none ↦ (f, true)
  | some ip ↦
      let skip = read_store relevant es f in
      if contains ip relevant && not (contains ip f.0)
      then and_then (add_entry ip e.fields f) (read_store relevant es)
      else skip
]

-- What the two sections of the pinglist give, one after the other: the second is read whether or
-- not the first has thrown.
unfoldable pub tcpudp_addresses : String → Pinglist → List String × Bool
tcpudp_addresses me p =
    let (found, threw) = mesh_targets add_new me p.mesh [] in
    let (found', threw') = arrow_targets add_new me p.arrow found in (found', threw || threw')

-- One section for RDMA: the entries of the store are read unless finding the relevant IPs threw.
unfoldable pub rdma_section : List String × Bool → List StoreEntry → Found → Found × Bool
rdma_section (relevant, true) store f = (f, true)
rdma_section (relevant, false) store f = read_store relevant store f

unfoldable pub rdma_addresses : String → Pinglist → List StoreEntry → List RdmaAddress × Bool
rdma_addresses me p store =
    let (f1, threw) = rdma_section (mesh_targets add_relevant me p.mesh []) store ([], []) in
    let (f2, threw') = rdma_section (arrow_targets add_relevant me p.arrow []) store f1 in
    (f2.1, threw || threw')
