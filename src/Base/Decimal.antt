-- ===== src/Base/Decimal.antt =====
-- Decimal numbers as text: how `std::to_string` prints them, and how `std::stoi` reads an `int`.
use pingweave.Base.{
  ℕ, zero, suc, ◌+◌, ◌-◌, ◌*◌, ◌/◌, ◌%◌, ◌^◌, ◌≤◌, ◌<◌, ◌≡◌, refl, Bool, true, false, ◌&&◌, ◌||◌,
  Option, none, some, [], ◌∷◌, arith, ltb, leb, ◌==◌, if◌then◌else◌,
}
use pingweave.Base.Int.{ℤ, pos, negsuc}
use pingweave.Base.Text.{Text}

-- `std::isspace` in the C locale.
abbrev pub is_space : ℕ → Bool
is_space c = (c == 32) || (leb 9 c && leb c 13)

abbrev pub is_digit : ℕ → Bool
is_digit c = leb b'0' c && leb c b'9'

abbrev pub print_loop : ℕ → ℕ → Text → Text
print_loop zero n out = out
print_loop (suc fuel) n out =
    let rest = print_loop fuel (n / 10) ((b'0' + n % 10) ∷ out) in if n == 0 then out else rest

-- A number below 10 ^ n has at most n digits, so fuel n is enough.
unfoldable pub print : ℕ → Text
print n = if n == 0 then b'0' ∷ [] else print_loop n n []

-- The number that the digits at the front of the text spell behind n.
abbrev pub scan : Text → ℕ → ℕ
scan [] n = n
scan (c ∷ cs) n = let more = scan cs (n * 10 + (c - b'0')) in if is_digit c then more else n

abbrev pub starts_with_digit : Text → Bool
starts_with_digit [] = false
starts_with_digit (c ∷ cs) = is_digit c

abbrev pub negate : ℕ → ℤ
negate zero = pos 0
negate (suc n) = negsuc n

-- `std::out_of_range` if the number is no `int`.
abbrev pub to_int : Bool → ℕ → Option ℤ
to_int negative n =
    if negative
    then (if leb n (2 ^ 31) then some (negate n) else none)
    else (if ltb n (2 ^ 31) then some (pos n) else none)

-- `std::invalid_argument` if there is no digit.
abbrev pub unsigned : Bool → Text → Option ℤ
unsigned negative s = if starts_with_digit s then to_int negative (scan s 0) else none

abbrev pub signed : Text → Option ℤ
signed [] = none
signed (c ∷ cs) =
    if c == b'-'
    then unsigned true cs
    else (if c == b'+' then unsigned false cs else unsigned false (c ∷ cs))

-- `std::stoi`: `none` is an exception.
unfoldable pub stoi : Text → Option ℤ
stoi [] = none
stoi (c ∷ cs) = let rest = stoi cs in if is_space c then rest else signed (c ∷ cs)

scan-print_loop : (fuel n : ℕ) (out : Text) → n ≤ fuel → scan (print_loop fuel n out) 0 ≡ scan out n
scan-print_loop zero n out h = let e : n ≡ 0 = omega arith in rw e refl
scan-print_loop (suc fuel) n out h =
    ground (arith, scan-print_loop fuel (n / 10) ((b'0' + n % 10) ∷ out))

starts_with_digit-print_loop :
    (fuel n : ℕ) (out : Text)
    → starts_with_digit out ≡ true
    → starts_with_digit (print_loop fuel n out) ≡ true
starts_with_digit-print_loop zero n out h = h
starts_with_digit-print_loop (suc fuel) n out h =
    ground (arith, starts_with_digit-print_loop fuel (n / 10) ((b'0' + n % 10) ∷ out))

-- A printed number is read back, whatever stands in front of it.
pub scan-print : (n : ℕ) → scan (print n) 0 ≡ n
unfolding print
scan-print n = ground (arith, scan-print_loop n n [])

starts_with_digit-print : (n : ℕ) → starts_with_digit (print n) ≡ true
unfolding print
starts_with_digit-print zero = refl
starts_with_digit-print (suc n) =
    ground (arith, starts_with_digit-print_loop n (suc n / 10) ((b'0' + suc n % 10) ∷ []))

stoi_digits : (s : Text) → starts_with_digit s ≡ true → stoi s ≡ to_int false (scan s 0)
unfolding stoi
stoi_digits [] h = ground arith
stoi_digits (c ∷ cs) h = ground arith

stoi_minus : (s : Text) → starts_with_digit s ≡ true → stoi (b'-' ∷ s) ≡ to_int true (scan s 0)
unfolding stoi
stoi_minus s h = rw h refl

pub stoi-print : (n : ℕ) → n < 2 ^ 31 → stoi (print n) ≡ some (pos n)
stoi-print n h = rw (stoi_digits (print n) (starts_with_digit-print n), scan-print n) (ground arith)

pub stoi-print_negative : (n : ℕ) → n ≤ 2 ^ 31 → stoi (b'-' ∷ print n) ≡ some (negate n)
stoi-print_negative n h =
    rw (stoi_minus (print n) (starts_with_digit-print n), scan-print n) (ground arith)

-- A number beyond the range of `int` is refused.
pub stoi_large : (n : ℕ) → 2 ^ 31 ≤ n → stoi (print n) ≡ none
stoi_large n h = rw (stoi_digits (print n) (starts_with_digit-print n), scan-print n) (ground arith)
