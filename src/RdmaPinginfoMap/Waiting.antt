-- ===== src/RdmaPinginfoMap/Waiting.antt =====
-- What has come in for a ping that waits: the bitmap and the count of its entry.
use pingweave.Base.{
  ℕ, zero, suc, ◌+◌, ◌/◌, ◌%◌, ◌<◌, bit_or, bit_and, ◌≡◌, refl, ◌⊎◌, inl, inr, true, false, Option,
  none, some, arith, u32, ◌==◌,
}
use pingweave.Table.{Entry}
use pingweave.RdmaPinginfoMap.{
  RdmaPinginfo, mask_ping_cqe, mask_pong, mask_ack, mask_recv, on_ping_cqe, on_pong, on_ack,
}
use pingweave.RdmaPinginfoMap.Events.{Event, ping_cqe, pong, ack, write}

-- The number of bits set, of three.
abbrev pub bits : ℕ → ℕ
bits b = b % 2 + b / 2 % 2 + b / 4

-- Of a waiting entry: it stands under its own identity, not all has come in, and what has is
-- counted.
abbrev pub IsWaiting : ℕ × Entry RdmaPinginfo → Type 0
IsWaiting p =
    (p.1.value.pingid ≡ p.0)
    × (p.1.value.recv_cnt ≡ bits p.1.value.recv_bitmap)
    × (p.1.value.recv_bitmap < 7)

abbrev pub mask_of : Event → ℕ
mask_of (ping_cqe x) = mask_ping_cqe
mask_of (pong recv cqe) = mask_pong
mask_of (ack d) = mask_ack

-- The event has not come in yet for the entry, if there is one.
abbrev pub Unseen : Event → Option (Entry RdmaPinginfo) → Type 0
Unseen ev none = Unit
Unseen ev (some e) = bit_and e.value.recv_bitmap (mask_of ev) ≡ 0

below_7 : (P : ℕ → Type 0) → P 0 → P 1 → P 2 → P 3 → P 4 → P 5 → P 6 → (b : ℕ) → b < 7 → P b
below_7 P p0 p1 p2 p3 p4 p5 p6 zero h = p0
below_7 P p0 p1 p2 p3 p4 p5 p6 (suc zero) h = p1
below_7 P p0 p1 p2 p3 p4 p5 p6 (suc (suc zero)) h = p2
below_7 P p0 p1 p2 p3 p4 p5 p6 (suc (suc (suc zero))) h = p3
below_7 P p0 p1 p2 p3 p4 p5 p6 (suc (suc (suc (suc zero)))) h = p4
below_7 P p0 p1 p2 p3 p4 p5 p6 (suc (suc (suc (suc (suc zero))))) h = p5
below_7 P p0 p1 p2 p3 p4 p5 p6 (suc (suc (suc (suc (suc (suc zero)))))) h = p6
below_7 P p0 p1 p2 p3 p4 p5 p6 (suc (suc (suc (suc (suc (suc (suc b))))))) h = absurd (omega arith)

-- Of a bitmap and a count: either all is in, in three events, or the entry still waits.
abbrev Stage : ℕ → ℕ → Type 0
Stage b c =
    (((b == mask_recv) ≡ true) × ((c == 3) ≡ true))
    ⊎ (((b == mask_recv) ≡ false) × (c ≡ bits b) × (b < 7))

-- What the arrival of the bit `m` makes of the bitmap `b`.
abbrev Arrives : ℕ → ℕ → Type 0
Arrives m b = bit_and b m ≡ 0 → Stage (bit_or b m) (u32 (bits b + 1))

arrives : (ev : Event) (b : ℕ) → b < 7 → Arrives (mask_of ev) b
arrives (ping_cqe x) =
    below_7 (Arrives mask_ping_cqe) (λ _. inr (refl, refl, omega arith)) (λ h. absurd (omega arith))
      (λ _. inr (refl, refl, omega arith)) (λ h. absurd (omega arith))
      (λ _. inr (refl, refl, omega arith)) (λ h. absurd (omega arith)) (λ h. inl (refl, refl))
arrives (pong recv cqe) =
    below_7 (Arrives mask_pong) (λ _. inr (refl, refl, omega arith))
      (λ _. inr (refl, refl, omega arith)) (λ h. absurd (omega arith)) (λ h. absurd (omega arith))
      (λ _. inr (refl, refl, omega arith)) (λ h. inl (refl, refl)) (λ h. absurd (omega arith))
arrives (ack d) =
    below_7 (Arrives mask_ack) (λ _. inr (refl, refl, omega arith))
      (λ _. inr (refl, refl, omega arith)) (λ _. inr (refl, refl, omega arith))
      (λ h. inl (refl, refl)) (λ h. absurd (omega arith)) (λ h. absurd (omega arith))
      (λ h. absurd (omega arith))

pub write-Stage :
    (ev : Event) (v : RdmaPinginfo)
    → v.recv_cnt ≡ bits v.recv_bitmap
    → v.recv_bitmap < 7
    → bit_and v.recv_bitmap (mask_of ev) ≡ 0
    → Stage (write ev v).recv_bitmap (write ev v).recv_cnt
unfolding on_ping_cqe on_pong on_ack
write-Stage (ping_cqe x) v k b h = rw k (arrives (ping_cqe x) v.recv_bitmap b h)
write-Stage (pong recv cqe) v k b h = rw k (arrives (pong recv cqe) v.recv_bitmap b h)
write-Stage (ack d) v k b h = rw k (arrives (ack d) v.recv_bitmap b h)

pub pingid-write : (ev : Event) (v : RdmaPinginfo) → (write ev v).pingid ≡ v.pingid
unfolding on_ping_cqe on_pong on_ack
pingid-write (ping_cqe x) v = refl
pingid-write (pong recv cqe) v = refl
pingid-write (ack d) v = refl
