-- ===== src/RdmaContext.antt =====
-- Sending and receiving on an RDMA context: `get_or_create_ah`, `post_send`, `post_recv` and
-- `initialize_contexts` of src/rdma_common.cpp.
--
-- The verbs library is not modelled: its state `Nic` and its calls are the parameter `Verbs`.
-- An address handle is a number. The key of the map of handles is the text of the LID, `_` and
-- the text of the GID that `inet_ntop` gives; here it is the pair of LID and text, which it
-- determines, as the digits of a LID hold no `_`. A buffer holds the last message written to it.
pub mod Handles
pub mod Setup
pub mod Timestamps
pub mod Posted
mod Tests
use pingweave.Base.{
  ℕ, zero, suc, ◌+◌, ◌-◌, ◌*◌, ◌/◌, ◌%◌, ◌^◌, ◌≤◌, ◌<◌, bit_or, bit_and, ◌≡◌, refl, sym, ap, ap₂,
  subst, ◌∙◌, ◌≢◌, ◌↔◌, ◌⊎◌, inl, inr, ite, if_pos, if_neg, Bool, true, false, not, ◌&&◌, ◌||◌,
  Option, none, some, List, [], ◌∷◌, ◌++◌, map, foldl, filter, Mem, Nodup, Perm, arith, dec_lt,
  dec_le, ℕ_discrete, u64, u32, success, failure, ltb, leb, ◌==◌, if◌then◌else◌, ltb→lt, lt→ltb,
  leb→le, ==_iff, ==_self, Bool-cases, Option-cases, length, get_elem?, get_or, set, All,
  length-append, length-set, get_or-set_self, get_or-set_ne,
}
use pingweave.Messages.{RdmaAddr}
use Prim.Native.String.{String}
use text.Mathlib.Text.{◌==◌ as str_eq}

-- `MAX_NUM_HOSTS_IN_PINGLIST` and `PINGWEAVE_REMOTE_QKEY` of macro.hpp
abbrev pub max_num_hosts_in_pinglist : ℕ
max_num_hosts_in_pinglist = 10000

abbrev pub remote_qkey : ℕ
remote_qkey = 0x72276001

pub record AhAttr : Type 0 where
  pub dlid : ℕ
  pub sl : ℕ
  pub port_num : ℕ
  pub is_global : Bool
  pub hop_limit : ℕ
  pub dgid : List ℕ
  pub sgid_index : ℕ
  pub traffic_class : ℕ

pub record SendWr (M : Type 0) : Type 0 where
  pub wr_id : ℕ
  pub payload : M
  pub ah : ℕ
  pub remote_qpn : ℕ
  pub remote_qkey : ℕ

-- `ibv_create_ah` gives `none` where it fails, `ibv_post_send` and `ibv_post_recv` say whether
-- they succeed; `inet_ntop` writes a GID, of which `interface_id` reads the last eight bytes.
pub record Verbs (Nic M : Type 0) : Type 0 where
  pub create_ah : Nic → AhAttr → Nic × Option ℕ
  pub destroy_ah : Nic → ℕ → Nic
  pub post_send_wr : Nic → SendWr M → Nic × Bool
  pub post_recv_wr : Nic → ℕ → Nic × Bool
  pub ntop : List ℕ → String
  pub interface_id : List ℕ → ℕ

pub record Handle : Type 0 where
  pub lid : ℕ
  pub gid_text : String
  pub ah : ℕ

pub record Context (Nic M : Type 0) : Type 0 where
  pub nic : Nic
  pub buf : List M
  pub ah_map : List Handle
  pub active_port : ℕ
  pub gid_index : ℕ
  pub traffic_class : ℕ
  pub rnic_hw_ts : Bool

unfoldable pub lookup_ah : ℕ → String → List Handle → Option ℕ
lookup_ah lid text [] = none
lookup_ah lid text (h ∷ hs) =
    if h.lid == lid && str_eq h.gid_text text then some h.ah else lookup_ah lid text hs

module _ {Nic M : Type 0} (verbs : Verbs Nic M) where
  pub destroy_all : Nic → List Handle → Nic
  destroy_all nic [] = nic
  destroy_all nic (h ∷ hs) = destroy_all (verbs.destroy_ah nic h.ah) hs

  -- The map is cleared once it has grown past the limit.
  unfoldable pub clear_large : Context Nic M → Context Nic M
  unfolding destroy_all
  clear_large ctx =
      if ltb max_num_hosts_in_pinglist (length ctx.ah_map)
      then record ctx { nic = destroy_all ctx.nic ctx.ah_map; ah_map = [] }
      else ctx

  pub ah_attr : Context Nic M → RdmaAddr → AhAttr
  ah_attr ctx dest =
      if verbs.interface_id dest.gid == 0
      then record {
        dlid = dest.lid % 2 ^ 16;
        sl = 0;
        port_num = ctx.active_port % 2 ^ 8;
        is_global = false;
        hop_limit = 0;
        dgid = [];
        sgid_index = 0;
        traffic_class = 0;
      }
      else record {
        dlid = dest.lid % 2 ^ 16;
        sl = 0;
        port_num = ctx.active_port % 2 ^ 8;
        is_global = true;
        hop_limit = 255;
        dgid = dest.gid;
        sgid_index = ctx.gid_index % 2 ^ 8;
        traffic_class = ctx.traffic_class % 2 ^ 8;
      }

  store_ah : Context Nic M → RdmaAddr → Nic → Option ℕ → Context Nic M × Option ℕ
  store_ah ctx dest nic' none = (record ctx { nic = nic' }, none)
  store_ah ctx dest nic' (some ah) = (
    record ctx {
      nic = nic';
      ah_map =
          ctx.ah_map ++ (record { lid = dest.lid; gid_text = verbs.ntop dest.gid; ah = ah } ∷ []);
    },
    some ah,
  )

  -- The end of `get_or_create_ah`, by what the map holds for the destination.
  reuse_or_create : Context Nic M → RdmaAddr → Option ℕ → Context Nic M × Option ℕ
  unfolding ah_attr store_ah
  reuse_or_create ctx dest (some ah) = (ctx, some ah)
  reuse_or_create ctx dest none =
      let (nic', created) = verbs.create_ah ctx.nic (ah_attr ctx dest) in
      store_ah ctx dest nic' created

  unfoldable pub get_or_create_ah : Context Nic M → RdmaAddr → Context Nic M × Option ℕ
  unfolding reuse_or_create
  get_or_create_ah ctx dest =
      let ctx' = clear_large ctx in
      reuse_or_create ctx' dest (lookup_ah dest.lid (verbs.ntop dest.gid) ctx'.ah_map)

  unfoldable pub post_send : Context Nic M → RdmaAddr → M → ℕ → ℕ → Context Nic M × Bool
  post_send ctx dest msg buf_idx wr_id =
      let (ctx', found) = get_or_create_ah ctx dest in
      elim found [
        | none ↦ (ctx', failure)
        | some ah ↦
            let (nic', done) = verbs.post_send_wr ctx'.nic (record {
              wr_id = wr_id;
              payload = msg;
              ah = ah;
              remote_qpn = dest.qpn;
              remote_qkey = remote_qkey;
            }) in
            (record ctx' { nic = nic'; buf = set ctx'.buf buf_idx msg }, done)
      ]

  -- Posts until a post fails, and returns how many did not.
  unfoldable pub post_recv : Context Nic M → ℕ → ℕ → Context Nic M × ℕ
  post_recv ctx wr_id zero = (ctx, 0)
  post_recv ctx wr_id (suc n) =
      let (nic', done) = verbs.post_recv_wr ctx.nic wr_id in
      let rest = post_recv (record ctx { nic = nic' }) wr_id n in
      if done then (rest.0, suc rest.1) else (record ctx { nic = nic' }, 0)
