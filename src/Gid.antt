-- ===== src/Gid.antt =====
-- GIDs as the text that goes into messages: `gid_to_wire_gid`, `wire_gid_to_gid` and `parsed_gid` of
-- src/rdma_common.cpp. A GID is its 16 bytes in memory; the host is little-endian.
pub mod Wire
mod Tests
use pingweave.Base.{
  ℕ, zero, suc, ◌+◌, ◌-◌, ◌*◌, ◌/◌, ◌%◌, ◌^◌, ◌≤◌, ◌<◌, bit_or, bit_and, ◌≡◌, refl, sym, ap, ap₂,
  subst, ◌∙◌, ◌≢◌, ◌↔◌, ◌⊎◌, inl, inr, ite, if_pos, if_neg, Bool, true, false, not, ◌&&◌, ◌||◌,
  Option, none, some, List, [], ◌∷◌, ◌++◌, map, foldl, filter, Mem, Nodup, Perm, arith, dec_lt,
  dec_le, ℕ_discrete, u64, u32, success, failure, ltb, leb, ◌==◌, if◌then◌else◌, ltb→lt, lt→ltb,
  leb→le, ==_iff, ==_self, Bool-cases, Option-cases, length, get_elem?, get_or, set, All,
  length-append, length-set, get_or-set_self, get_or-set_ne,
}
use pingweave.Base.Text.{Text, take, drop}

-- `memcpy` of bytes into 32-bit words, and back.
abbrev pub words : List ℕ → List ℕ
words (a ∷ b ∷ c ∷ d ∷ rest) = (a + b * 2 ^ 8 + c * 2 ^ 16 + d * 2 ^ 24) ∷ words rest
words short = []

abbrev pub bytes : List ℕ → List ℕ
bytes [] = []
bytes (w ∷ ws) =
    (w % 2 ^ 8) ∷ (w / 2 ^ 8 % 2 ^ 8) ∷ (w / 2 ^ 16 % 2 ^ 8) ∷ (w / 2 ^ 24 % 2 ^ 8) ∷ bytes ws

-- `htobe32`, and `be32toh`: the bytes of a word the other way round.
abbrev pub htobe32 : ℕ → ℕ
htobe32 w =
    w % 2 ^ 8 * 2 ^ 24
    + w / 2 ^ 8 % 2 ^ 8 * 2 ^ 16
    + w / 2 ^ 16 % 2 ^ 8 * 2 ^ 8
    + w / 2 ^ 24 % 2 ^ 8

abbrev pub hex_digit : ℕ → ℕ
hex_digit d = if ltb d 10 then b'0' + d else b'a' + (d - 10)

-- The k low hexadecimal digits: `%08x` prints 8 of them for a 32-bit word.
abbrev pub print_hex : ℕ → ℕ → Text
print_hex zero n = []
print_hex (suc k) n = print_hex k (n / 16) ++ (hex_digit (n % 16) ∷ [])

abbrev pub print_words : List ℕ → Text
print_words [] = []
print_words (w ∷ ws) = print_hex 8 (htobe32 w) ++ print_words ws

unfoldable pub gid_to_wire_gid : List ℕ → Text
gid_to_wire_gid gid = print_words (words gid)

abbrev pub hex_value : ℕ → Option ℕ
hex_value c =
    if leb b'0' c && leb c b'9'
    then some (c - b'0')
    else (if leb b'a' c && leb c b'f'
        then some (c - b'a' + 10)
        else (if leb b'A' c && leb c b'F' then some (c - b'A' + 10) else none))

-- The number that the hexadecimal digits at the front spell behind n.
abbrev pub scan_hex : Text → ℕ → ℕ
scan_hex [] n = n
scan_hex (c ∷ cs) n = elim (hex_value c) [ none ↦ n | some d ↦ scan_hex cs (n * 16 + d) ]

abbrev pub unsigned_hex : Text → Option ℕ
unsigned_hex [] = none
unsigned_hex (c ∷ cs) = elim (hex_value c) [ none ↦ none | some d ↦ some (scan_hex cs d) ]

-- An optional `0x` before the digits.
abbrev pub prefixed_hex : Text → Option ℕ
prefixed_hex (c ∷ x ∷ cs) =
    if (c == b'0') && ((x == b'x') || (x == b'X'))
    then unsigned_hex cs
    else unsigned_hex (c ∷ x ∷ cs)
prefixed_hex short = unsigned_hex short

abbrev pub negated : Option ℕ → Option ℕ
negated none = none
negated (some n) = some ((2 ^ 32 - n) % 2 ^ 32)

abbrev pub signed_hex : Text → Option ℕ
signed_hex [] = none
signed_hex (c ∷ cs) =
    if c == b'-'
    then negated (prefixed_hex cs)
    else (if c == b'+' then prefixed_hex cs else prefixed_hex (c ∷ cs))

-- `sscanf(tmp, "%x", &v32)`, `none` if it stores nothing.
abbrev pub sscanf_x : Text → Option ℕ
sscanf_x [] = none
sscanf_x (c ∷ cs) =
    let rest = sscanf_x cs in
    if (c == 32) || (leb 9 c && leb c 13) then rest else signed_hex (c ∷ cs)

abbrev pub stored : ℕ → Option ℕ → ℕ
stored v32 none = v32
stored v32 (some v) = v

-- The loop over n words; `v32` is what the variable holds before.
abbrev pub read_words : ℕ → ℕ → Text → List ℕ
read_words zero v32 wgid = []
read_words (suc n) v32 wgid =
    let v = stored v32 (sscanf_x (take 8 wgid)) in htobe32 v ∷ read_words n v (drop 8 wgid)

-- `v32` is what the uninitialised variable holds.
pub wire_gid_to_gid : ℕ → Text → List ℕ
wire_gid_to_gid v32 wgid = bytes (read_words 4 v32 wgid)

-- The buffer of `parsed_gid` has 33 characters, with the terminator: `inet_ntop` leaves it as it was
-- if its text does not fit, here `before`.
pub parsed_gid : (List ℕ → Text) → Text → List ℕ → Text
parsed_gid inet_ntop before gid =
    let text = inet_ntop gid in if ltb (length text) 33 then text else before
