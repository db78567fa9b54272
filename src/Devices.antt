-- ===== src/Devices.antt =====
-- Finding the RDMA device, port and GID of an address: `get_all_local_ips` of src/common.cpp, and
-- `get_context_by_ifname`, `get_context_by_ip`, `find_active_port`, `get_gid_table_index`,
-- `get_traffic_class`, `prepare_ctx` and `wait_for_cq_event` of src/rdma_common.cpp. What the
-- system and the verbs library answer is an argument; a device is its position in the list, an
-- open one a number. `none` stands for -1 and for a null pointer.
pub mod Choice
pub mod Port
pub mod Info
pub mod TrafficClass
mod Tests
use pingweave.Base.{
  ℕ, zero, suc, ◌+◌, ◌-◌, ◌*◌, ◌/◌, ◌%◌, ◌^◌, ◌≤◌, ◌<◌, bit_or, bit_and, ◌≡◌, refl, sym, ap, ap₂,
  subst, ◌∙◌, ◌≢◌, ◌↔◌, ◌⊎◌, inl, inr, ite, if_pos, if_neg, Bool, true, false, not, ◌&&◌, ◌||◌,
  Option, none, some, List, [], ◌∷◌, ◌++◌, map, foldl, filter, Mem, Nodup, Perm, arith, dec_lt,
  dec_le, ℕ_discrete, u64, u32, success, failure, ltb, leb, ◌==◌, if◌then◌else◌, ltb→lt, lt→ltb,
  leb→le, ==_iff, ==_self, Bool-cases, Option-cases, length, get_elem?, get_or, set, All,
  length-append, length-set, get_or-set_self, get_or-set_ne,
}
use pingweave.Base.Text.{Text, codes, text_eq}
use pingweave.Base.Int.{ℤ, pos}
use pingweave.Ini.{get_int_param_from_ini}

abbrev pub starts_with : Text → Text → Bool
starts_with [] s = true
starts_with (c ∷ cs) [] = false
starts_with (c ∷ cs) (d ∷ ds) = (c == d) && starts_with cs ds

-- An entry of `getifaddrs`: `none` without an address. `host` is the address as text, which
-- `getnameinfo` may fail to give.
pub record Address : Type 0 where
  pub is_inet : Bool
  pub host : Option Text

pub record Interface : Type 0 where
  pub name : Text
  pub addr : Option Address

abbrev is_ignored : Text → Bool
is_ignored name =
    text_eq name (codes "lo")
    || starts_with (codes "virbr") name
    || starts_with (codes "docker") name

abbrev pub contains : Text → List Text → Bool
contains s [] = false
contains s (t ∷ ts) = text_eq t s || contains s ts

-- `std::set::insert`, the set being a list with each text once.
abbrev pub insert_new : Text → List Text → List Text
insert_new s ts = if contains s ts then ts else ts ++ (s ∷ [])

abbrev pub local_ip : Interface → Option Text
local_ip i = elim i.addr [
  | none ↦ none
  | some a ↦ if is_ignored i.name || not a.is_inet then none else a.host
]

abbrev pub add_local_ip : Option Text → List Text → List Text
add_local_ip none ips = ips
add_local_ip (some ip) ips = insert_new ip ips

pub collect_ips : List Interface → List Text → List Text
collect_ips [] ips = ips
collect_ips (i ∷ is) ips = collect_ips is (add_local_ip (local_ip i) ips)

-- `none` is a failure of `getifaddrs`.
pub get_all_local_ips : Option (List Interface) → List Text
get_all_local_ips none = []
get_all_local_ips (some is) = collect_ips is []

abbrev pub is_hidden : Text → Bool
is_hidden name = get_or name 0 0 == b'.'

abbrev pub position_of : Text → List Text → Option ℕ
position_of name [] = none
position_of name (d ∷ ds) =
    if text_eq name d
    then some 0
    else elim (position_of name ds) [ none ↦ none | some i ↦ some (suc i) ]

-- What `get_context_by_ifname` does: it opens a device, it finds none, or it goes on reading a
-- directory that it has closed, and a device list that it has freed.
pub data Found : Type 0 where
  opened : ℕ → Found
  absent : Found
  use_after_free : Found

-- The loop over the directory's entries. The first entry that is not hidden closes the directory.
pub read_entries : List Text → List Text → Found
read_entries devices [] = absent
read_entries devices (name ∷ names) =
    let rest = read_entries devices names in
    if is_hidden name
    then rest
    else elim (position_of name devices) [ none ↦ use_after_free | some i ↦ opened i ]

-- `entries` is the directory of the interface, `none` if it does not open.
pub get_context_by_ifname : Option (List Text) → Option (List Text) → Found
get_context_by_ifname none devices = absent
get_context_by_ifname (some entries) none = absent
get_context_by_ifname (some entries) (some devices) = read_entries devices entries

-- `device` is none for a null pointer; the programs leave the pointer of a new context uninitialised.
pub record Context : Type 0 where
  pub ipv4 : Text
  pub iface : Text
  pub device : Option ℕ

-- `undefined` is a run with undefined behaviour.
pub data Outcome : Type 0 where
  returns : Context → Bool → Outcome
  undefined : Outcome

abbrev pub is_open : Option ℕ → Bool
is_open none = false
is_open (some d) = true

-- The end of `get_context_by_ip`.
abbrev pub check_device : Context → Outcome
check_device ctx = returns ctx (is_open ctx.device)

module _ (open_device : ℕ → Option ℕ) (of_interface : Text → Found) where
  abbrev pub use_found : Context → Found → Outcome
  use_found ctx (opened i) = check_device (record ctx { device = open_device i })
  use_found ctx absent = returns ctx failure
  use_found ctx use_after_free = undefined

  -- An address of the list, an entry of it, and the loop over the entries behind it.
  abbrev pub try_address : (Context → Outcome) → Context → Text → Bool → Option Text → Outcome
  try_address next ctx name false host = next ctx
  try_address next ctx name true none = returns ctx failure
  try_address next ctx name true (some host) =
      let ctx' = record ctx { iface = name } in
      if text_eq host ctx.ipv4 then use_found ctx' (of_interface name) else next ctx'

  abbrev pub try_interface : (Context → Outcome) → Context → Text → Option Address → Outcome
  try_interface next ctx name none = next ctx
  try_interface next ctx name (some a) = try_address next ctx name a.is_inet a.host

  unfoldable pub try_interfaces : List Interface → Context → Outcome
  try_interfaces [] ctx = check_device ctx
  try_interfaces (i ∷ is) ctx = try_interface (try_interfaces is) ctx i.name i.addr

  pub get_context_by_ip : Option (List Interface) → Context → Outcome
  get_context_by_ip none ctx = returns ctx failure
  get_context_by_ip (some is) ctx = try_interfaces is ctx

-- What `ibv_query_port` fills in.
pub record PortInfo : Type 0 where
  pub lid : ℕ
  pub is_active : Bool

abbrev pub is_active_port : Option PortInfo → Bool
is_active_port none = false
is_active_port (some p) = p.is_active

abbrev pub kept : PortInfo → Option PortInfo → PortInfo
kept before none = before
kept before (some p) = p

module _ (query_port : ℕ → Option PortInfo) where
  abbrev pub active_at : ℕ → Bool
  active_at port = is_active_port (query_port port)

  -- n ports are left, from `port` on.
  unfoldable pub port_loop : ℕ → ℕ → PortInfo → PortInfo × Option ℕ
  port_loop zero port info = (info, none)
  port_loop (suc n) port info =
      let info' = kept info (query_port port) in
      let rest = port_loop n (port + 1) info' in if active_at port then (info', some port) else rest

  -- `phys_port_cnt` is `none` if the device cannot be queried. The first result is `ctx->portinfo`.
  pub find_active_port : Option ℕ → PortInfo → PortInfo × Option ℕ
  find_active_port none info = (info, none)
  find_active_port (some phys_port_cnt) info = port_loop phys_port_cnt 1 info

pub record Indices : Type 0 where
  pub gid_index : Option ℕ
  pub preferred_gid_index : Option ℕ

abbrev pub or_else : Option ℕ → Option ℕ → Option ℕ
or_else none o = o
or_else (some i) o = some i

abbrev pub is_preferred : Text → Bool
is_preferred gid_str = starts_with (codes "::ffff:") gid_str

abbrev pub see_gid : ℕ → Text → Indices → Indices
see_gid i gid_str f =
    if text_eq gid_str [] || text_eq gid_str (codes "::")
    then f
    else (let f' =
          (if is_preferred gid_str
            then record f { preferred_gid_index = or_else f.preferred_gid_index (some i) }
            else f) in
        if text_eq gid_str (codes "fe80::")
        then f'
        else record f' { gid_index = or_else f'.gid_index (some i) })

module _ (gid_at : ℕ → Option Text) where
  abbrev pub see_index : ℕ → Option Text → Indices → Indices
  see_index i none f = f
  see_index i (some gid_str) f = see_gid i gid_str f

  -- The loop from index n - 1 down to 0. `gid_at` is the text of the GID at an index, `none` if
  -- `ibv_query_gid` fails there.
  unfoldable pub gid_loop : ℕ → Indices → Indices
  gid_loop zero f = f
  gid_loop (suc i) f = gid_loop i (see_index i (gid_at i) f)

  -- `gid_tbl_len` is `none` if the port cannot be queried, and zero for no GIDs.
  pub get_gid_table_index : Option ℕ → Option ℕ
  get_gid_table_index none = none
  get_gid_table_index (some gid_table_size) =
      let f = gid_loop gid_table_size (record { gid_index = none; preferred_gid_index = none }) in
      or_else f.preferred_gid_index f.gid_index

abbrev pub traffic_class_or_zero : ℤ × Bool → ℤ × Bool
traffic_class_or_zero (value, done) = if done then (value, success) else (pos 0, failure)

-- `none` is the exception for another protocol.
pub get_traffic_class : Option Text → Text → ℤ → Option (ℤ × Bool)
get_traffic_class file protocol traffic_class =
    if text_eq protocol (codes "ib")
    then some (
        traffic_class_or_zero
          (get_int_param_from_ini file traffic_class (codes "traffic_class_ib")))
    else (if text_eq protocol (codes "roce")
        then some (
            traffic_class_or_zero
              (get_int_param_from_ini file traffic_class (codes "traffic_class_roce")))
        else none)

-- The state of a queue pair, and the two moves of `prepare_ctx`.
pub data QpState : Type 0 where
  reset init rtr rts : QpState

pub prepare_ctx : (QpState → Bool) → QpState → QpState × Bool
prepare_ctx modify_qp s =
    if modify_qp rtr
    then (if modify_qp rts then (rts, success) else (rtr, failure))
    else (s, failure)

-- `ev_cq` is the queue that the event names, `none` if there is no event.
unfoldable pub wait_for_cq_event : ℕ → Option ℕ → Bool
wait_for_cq_event cq none = failure
wait_for_cq_event cq (some ev_cq) = ev_cq == cq
