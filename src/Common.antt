-- ===== src/Common.antt =====
-- src/common.cpp and src/common.hpp: ping identities, time differences, addresses.
pub mod PingId
pub mod Delta
pub mod Identity
mod Tests
use pingweave.Base.{
  ℕ, ◌+◌, ◌-◌, ◌*◌, ◌/◌, ◌%◌, ◌^◌, Option, none, some, if◌then◌else◌, leb, u64, u32, bit_or,
  bit_and,
}
use Prim.Native.String.{String}

-- `inet_pton` on IPv4 (`none` where it fails), and the number that an uninitialised `uint32_t`
-- happens to hold.
pub record Net : Type 0 where
  pub inet_pton : String → Option ℕ
  pub undef : ℕ

-- The result of `inet_pton` is not tested.
unfoldable pub ip2uint : Net → String → ℕ
ip2uint net ip = elim (net.inet_pton ip) [ none ↦ net.undef | some n ↦ n ]

unfoldable pub make_pingid : ℕ → ℕ → ℕ
make_pingid high low = bit_or (u64 (high * 2 ^ 32)) low

pub parse_pingid : ℕ → ℕ × ℕ
parse_pingid value = (u32 (value / 2 ^ 32), u32 (bit_and value 0xFFFF_FFFF))

pub calc_time_delta_with_bitwrap : ℕ → ℕ → ℕ → ℕ
calc_time_delta_with_bitwrap t1 t2 mask =
    if leb t1 t2 then t2 - t1 else u64 (u64 (u64 (mask + 2 ^ 64 - t1) + 1) + t2)

unfoldable pub calc_time_delta_with_modulo : ℕ → ℕ → ℕ → ℕ
calc_time_delta_with_modulo t1 t2 modulo =
    let t1_modulo = t1 % modulo in
    let t2_modulo = t2 % modulo in u64 (u64 (t2_modulo + modulo) + 2 ^ 64 - t1_modulo) % modulo

-- `PINGWEAVE_TIME_CALC_MODULO` and `UINT64_MAX`
abbrev pub time_calc_modulo : ℕ
time_calc_modulo = 2 ^ 32

abbrev pub uint64_max : ℕ
uint64_max = 2 ^ 64 - 1
