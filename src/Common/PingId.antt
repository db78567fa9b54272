-- ===== src/Common/PingId.antt =====
-- `make_pingid` and `parse_pingid` of src/common.cpp.
use pingweave.Base.{ℕ, ◌+◌, ◌*◌, ◌/◌, ◌%◌, ◌^◌, ◌<◌, ◌≡◌, arith}
use pingweave.Base.Bits.{bit_or_disjoint, bit_and-ones}
use pingweave.Messages.{wrid_pong_ack}
use pingweave.Common.{make_pingid, parse_pingid}

pub make_pingid_eq :
    (high low : ℕ) → high < 2 ^ 32 → low < 2 ^ 32 → make_pingid high low ≡ high * 2 ^ 32 + low
unfolding make_pingid
make_pingid_eq high low h l =
    let e : high * 2 ^ 32 % 2 ^ 64 ≡ high * 2 ^ 32 = omega arith in
    rw e (bit_or_disjoint 32 high low l)

parse_pingid_eq :
    (value : ℕ) → value < 2 ^ 64 → parse_pingid value ≡ (value / 2 ^ 32, value % 2 ^ 32)
unfolding parse_pingid
parse_pingid_eq value h = let (q, e, l) = bit_and-ones 32 value in ground (arith, e, l)

-- Address and counter come back from the identity made of them, which fits 64 bits.
pub parse_pingid-make_pingid :
    (high low : ℕ)
    → high < 2 ^ 32
    → low < 2 ^ 32
    → (parse_pingid (make_pingid high low) ≡ (high, low)) × (make_pingid high low < 2 ^ 64)
parse_pingid-make_pingid high low h l =
    rw (make_pingid_eq high low h l)
      (rw (parse_pingid_eq (high * 2 ^ 32 + low) (omega arith)) (ground arith), omega arith)

-- Every 64-bit identity is the one made of the two numbers that it parses to.
pub make_pingid-parse_pingid :
    (value : ℕ)
    → value < 2 ^ 64
    → let (high, low) = parse_pingid value in make_pingid high low ≡ value
make_pingid-parse_pingid value h = rw (parse_pingid_eq value h) (
    rw (make_pingid_eq (value / 2 ^ 32) (value % 2 ^ 32) (omega arith) (omega arith)) (omega arith))

-- The identities of a source with a non-zero address lie above the reserved work request
-- `PINGWEAVE_WRID_PONG_ACK`, which marks the completion of an ACK.
pub wrid_pong_ack-lt-make_pingid :
    (high low : ℕ) → 0 < high → high < 2 ^ 32 → low < 2 ^ 32 → wrid_pong_ack < make_pingid high low
wrid_pong_ack-lt-make_pingid high low p h l = rw (make_pingid_eq high low h l) (omega arith)
