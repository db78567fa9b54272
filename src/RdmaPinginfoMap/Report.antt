-- ===== src/RdmaPinginfoMap/Report.antt =====
-- What a report says of a complete ping.
use pingweave.Base.{ℕ, refl, ◌+◌, ◌^◌, ◌≤◌, ◌<◌, ◌≡◌, ◌⊎◌, inl, inr, arith, dec_le}
use pingweave.Common.{Net, ip2uint}
use Prim.Native.String.{String}
use pingweave.Common.Delta.{IsElapsed}
use pingweave.Messages.{RdmaPingMsg, RdmaResultMsg, result_success, result_weird}
use pingweave.RdmaPinginfoMap.{RdmaPinginfo, completed}

-- With 64-bit delays, of which the network delay does not exceed the client delay: a report is
-- marked as weird exactly if the network delay does not exceed the server delay, and then it has
-- the network delay as measured. Otherwise it is a success, and its three parts add up to the
-- client delay.
pub completed_parts :
    (net : Net) (v : RdmaPinginfo)
    → v.client_delay < 2 ^ 64
    → v.network_delay ≤ v.client_delay
    → let r = completed net v in
      ((v.network_delay ≤ v.server_delay)
        × (r.result ≡ result_weird)
        × (r.network_delay ≡ v.network_delay)
        × (r.client_delay + r.network_delay ≡ v.client_delay))
      ⊎ ((v.server_delay < v.network_delay)
          × (r.result ≡ result_success)
          × (r.client_delay + r.network_delay + r.server_delay ≡ v.client_delay))
unfolding completed
completed_parts net v h k = elim (dec_le v.network_delay v.server_delay) [
  | yes w ↦ inl (w, ground arith, ground arith, ground arith)
  | no n ↦ inr (omega arith, ground arith, ground arith)
]

-- Where the client delay is below the network delay, both being differences modulo 2 ^ 32, the
-- reported client time has wrapped: it is the (negative) difference plus 2 ^ 64, more than
-- 2 ^ 63.
pub completed_wraps :
    (net : Net) (v : RdmaPinginfo)
    → v.client_delay < v.network_delay
    → v.network_delay < 2 ^ 32
    → ((completed net v).client_delay + v.network_delay ≡ v.client_delay + 2 ^ 64)
      × (2 ^ 63 < (completed net v).client_delay)
unfolding completed
completed_wraps net v h k = omega arith

-- What a report says of a ping: its identity, destination and time of sending; `total`, `measured`
-- and `server` are the time at the client, the time from the completion of the send to the PONG, and
-- the server's time. Where the server's time is below the measured one, the network has the difference
-- and the report is a success; otherwise the network has the measured time and the report is weird.
-- The client's own part is what is left of `total` besides `measured`, modulo 2 ^ 64.
pub record Says (id dst sent_ns total measured server : ℕ) (r : RdmaResultMsg) : Type 0 where
  pub id_is : r.pingid ≡ id
  pub dst_is : r.dstip ≡ dst
  pub sent_is : r.time_ping_send ≡ sent_ns
  pub server_is : r.server_delay ≡ server
  pub network_is :
      ((server < measured) × (r.result ≡ result_success) × (r.network_delay + server ≡ measured))
      ⊎ ((measured ≤ server) × (r.result ≡ result_weird) × (r.network_delay ≡ measured))
  pub client_is :
      ((measured ≤ total) × (r.client_delay + measured ≡ total))
      ⊎ ((total < measured) × (r.client_delay + measured ≡ total + 2 ^ 64))

pub completed-Says :
    (net : Net) (v : RdmaPinginfo)
    → v.client_delay < 2 ^ 32
    → v.network_delay < 2 ^ 32
    → Says v.pingid
        (ip2uint net v.dstip)
        v.time_ping_send
        v.client_delay
        v.network_delay
        v.server_delay
        (completed net v)
unfolding completed
completed-Says net v h k = record {
  id_is = refl;
  dst_is = refl;
  sent_is = refl;
  server_is = refl;
  network_is = ground arith;
  client_is = ground (arith, h, k);
}

-- The report of a ping that was sent at `steady_ns`: the completion of its send has the time `x`, its
-- PONG the time `cqe` and is handled at `recv`, and its ACK says `d`.
abbrev pub IsReport : Net → RdmaPingMsg → String → ℕ → ℕ → ℕ → ℕ → ℕ → ℕ → RdmaResultMsg → Type 0
IsReport net msg dstip system_ns steady_ns x recv cqe d r =
    (total : ℕ) × (measured : ℕ) × IsElapsed steady_ns recv total
    × IsElapsed x cqe measured
    × Says msg.pingid (ip2uint net dstip) system_ns total measured d r
