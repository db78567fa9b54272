-- ===== src/Base/Bits.antt =====
-- `bit_or` puts words with no bit in common side by side, and `bit_and` with a mask of ones cuts
-- a word in two: what packing and unpacking identities needs.
use Prim.Native.Nat.{
  ℕ, zero, suc, ◌+◌, ◌*◌, ◌/◌, ◌%◌, ◌≤◌, ◌<◌, min, max, bit_and, bit_or, digits, bit_and-bitwise,
  bit_or-bitwise,
}
use mathlib.Core.Path.{◌≡◌, refl, sym, ◌∙◌}
use native.Mathlib.Omega.{arith}

-- The recursion on binary digits that both operations stand for.
module _ (rest : ℕ → ℕ) (digit : ℕ → ℕ → ℕ) where
  digits_out : (n b : ℕ) → digits rest digit n 0 b ≡ rest b
  digits_out zero b = refl
  digits_out (suc n) b = refl

  -- Fuel beyond the number itself is not used.
  digits_spare : (n m a b : ℕ) → a ≤ n → n ≤ m → digits rest digit m a b ≡ digits rest digit n a b
  digits_spare n m zero b below more = digits_out m b ∙ sym (digits_out n b)
  digits_spare zero m (suc a) b below more = absurd (omega arith)
  digits_spare (suc n) zero (suc a) b below more = absurd (omega arith)
  digits_spare (suc n) (suc m) (suc a) b below more =
      omega (arith, digits_spare n m (suc a / 2) (b / 2) (omega arith) (omega arith))

  -- One digit is taken off.
  digits_half :
      (a b : ℕ)
      → (rest b ≡ rest (b / 2) * 2 + digit 0 (b % 2))
      → digits rest digit a a b
        ≡ digits rest digit (a / 2) (a / 2) (b / 2) * 2 + digit (a % 2) (b % 2)
  digits_half zero b step = step
  digits_half (suc a) b step =
      omega (arith, digits_spare (suc a / 2) a (suc a / 2) (b / 2) (omega arith) (omega arith))

bit_or_half : (a b : ℕ) → bit_or a b ≡ bit_or (a / 2) (b / 2) * 2 + max (a % 2) (b % 2)
bit_or_half a b = omega (
  arith,
  bit_or-bitwise a b,
  bit_or-bitwise (a / 2) (b / 2),
  digits_half (λ b. b) max a b (omega arith),
)

bit_and_half : (a b : ℕ) → bit_and a b ≡ bit_and (a / 2) (b / 2) * 2 + min (a % 2) (b % 2)
bit_and_half a b = omega (
  arith,
  bit_and-bitwise a b,
  bit_and-bitwise (a / 2) (b / 2),
  digits_half (λ b. 0) min a b (omega arith),
)

-- With no second word: `n` bounds the first one.
alone : (n a : ℕ) → a ≤ n → (bit_or a 0 ≡ a) × (bit_and a 0 ≡ 0)
alone n zero h = (bit_or-bitwise 0 0, bit_and-bitwise 0 0)
alone zero (suc a) h = absurd (omega arith)
alone (suc n) (suc a) h =
    let (o, e) = alone n (suc a / 2) (omega arith) in
    (omega (arith, bit_or_half (suc a) 0, o), omega (arith, bit_and_half (suc a) 0, e))

-- 2 ^ k, and a word of k ones.
abbrev pub pow2 : ℕ → ℕ
pow2 zero = 1
pow2 (suc k) = pow2 k + pow2 k

abbrev pub ones : ℕ → ℕ
ones zero = 0
ones (suc k) = ones k + ones k + 1

-- Words with no bit in common are added.
pub bit_or_disjoint : (k h l : ℕ) → l < pow2 k → bit_or (h * pow2 k) l ≡ h * pow2 k + l
bit_or_disjoint zero h l p =
    let e : l ≡ 0 = omega arith in rw e (omega (arith, alone (h * 1) (h * 1) (omega arith)))
bit_or_disjoint (suc k) h l p =
    let half : h * (pow2 k + pow2 k) / 2 ≡ h * pow2 k = omega arith in
    rw (bit_or_half (h * pow2 (suc k)) l, half, bit_or_disjoint k h (l / 2) (omega arith))
      (omega arith)

-- A mask of k ones keeps the k low bits.
pub bit_and-ones :
    (k a : ℕ) → (q : ℕ) × (a ≡ bit_and a (ones k) + q * pow2 k) × (bit_and a (ones k) < pow2 k)
bit_and-ones zero a =
    let (o, e) = alone a a (omega arith) in (a, omega (arith, e), omega (arith, e))
bit_and-ones (suc k) a =
    let (q, e, l) = bit_and-ones k (a / 2) in
    let half : (ones k + ones k + 1) / 2 ≡ ones k = omega arith in
    let s : bit_and a (ones (suc k)) ≡ bit_and (a / 2) (ones k) * 2 + a % 2 =
      rw (bit_and_half a (ones (suc k)), half) (omega arith) in
    (q, omega (arith, s), omega (arith, s))
