-- ===== src/Devices/Port.antt =====
-- Which port is chosen.
use pingweave.Base.{
  ℕ, zero, suc, ◌+◌, ◌≤◌, ◌<◌, ◌≡◌, refl, ap, ◌∙◌, ◌⊎◌, inl, inr, Bool, true, false, Option, none,
  some, arith, dec_lt, Bool-cases,
}
use pingweave.Devices.{PortInfo, kept, active_at, port_loop, find_active_port, is_active_port}

known :
    (o : Option PortInfo) (info : PortInfo)
    → is_active_port o ≡ true
    → (o ≡ some (kept info o)) × ((kept info o).is_active ≡ true)
known none info h = absurd (cc)
known (some p) info h = (refl, h)

active_at-some :
    (query_port : ℕ → Option PortInfo) (port : ℕ) (info : PortInfo)
    → active_at query_port port ≡ true
    → (query_port port ≡ some (kept info (query_port port)))
      × ((kept info (query_port port)).is_active ≡ true)
active_at-some query_port port info h = known (query_port port) info h

from_next :
    (p : ℕ → Bool) (first q : ℕ)
    → p first ≡ false
    → first ≤ q
    → (first + 1 ≤ q → p q ≡ false)
    → p q ≡ false
from_next p first q b l later = elim (dec_lt first q) [
  | yes k ↦ later (omega arith)
  | no k ↦ let e : q ≡ first = omega arith in ap p e ∙ b
]

port_loop_lem :
    (query_port : ℕ → Option PortInfo) (n first : ℕ) (info : PortInfo)
    → let (info', r) = port_loop query_port n first info in
      ((port : ℕ) × (r ≡ some port)
        × (first ≤ port)
        × (port < first + n)
        × (query_port port ≡ some info')
        × (info'.is_active ≡ true)
        × ((q : ℕ) → first ≤ q → q < port → active_at query_port q ≡ false))
      ⊎ ((r ≡ none) × ((q : ℕ) → first ≤ q → q < first + n → active_at query_port q ≡ false))
unfolding port_loop
port_loop_lem query_port zero first info = inr (refl, λ q l h. absurd (omega arith))
port_loop_lem query_port (suc n) first info = elim (Bool-cases (active_at query_port first)) [
  | inl b ↦
      let (there, good) = active_at-some query_port first info b in
      rw b (inl (first, refl, omega arith, omega arith, there, good, λ q l h. absurd (omega arith)))
  | inr b ↦ elim (port_loop_lem query_port n (first + 1) (kept info (query_port first))) [
    | inl (port, e, low, high, there, good, before) ↦ rw b (
        inl (
          port,
          e,
          omega arith,
          omega arith,
          there,
          good,
          λ q l h. from_next (active_at query_port) first q b l (λ k. before q k h),
        ))
    | inr (nowhere, h) ↦ rw b (
        inr (
          nowhere,
          λ q l k. from_next (active_at query_port) first q b l (λ m. h q m (omega arith)),
        ))
  ]
]

-- The port found is the lowest active one from 1 on, and what is known of the port is what its query
-- gave; without an active port among those of the device there is no result.
pub find_active_port_lem :
    (query_port : ℕ → Option PortInfo) (count : ℕ) (info : PortInfo)
    → let (info', r) = find_active_port query_port (some count) info in
      ((port : ℕ) × (r ≡ some port)
        × (1 ≤ port)
        × (port ≤ count)
        × (query_port port ≡ some info')
        × (info'.is_active ≡ true)
        × ((q : ℕ) → 1 ≤ q → q < port → active_at query_port q ≡ false))
      ⊎ ((r ≡ none) × ((q : ℕ) → 1 ≤ q → q ≤ count → active_at query_port q ≡ false))
unfolding find_active_port
find_active_port_lem query_port count info = elim (port_loop_lem query_port count 1 info) [
  | inl (port, e, low, high, there, good, before) ↦
      inl (port, e, low, omega arith, there, good, before)
  | inr (nowhere, h) ↦ inr (nowhere, λ q low high. h q low (omega arith))
]
