-- ===== src/ReportText/Times.antt =====
-- A printed time keeps its nanoseconds.
use pingweave.Base.{
  ℕ, zero, suc, ◌+◌, ◌*◌, ◌/◌, ◌%◌, ◌^◌, ◌<◌, ◌≡◌, refl, sym, ap, ◌∙◌, true, [], ◌∷◌, ◌++◌, arith,
  length, length-append,
}
use pingweave.Base.Text.{Text}
use pingweave.Base.Decimal.{scan, is_digit}
use pingweave.ReportText.{print_padded, timestamp_ns_to_string}
use mathlib.Core.List.{append_assoc, append-nil}

abbrev pow10 : ℕ → ℕ
pow10 zero = 1
pow10 (suc k) = pow10 k * 10

scan_digit : (d n : ℕ) (rest : Text) → d < 10 → scan ((b'0' + d) ∷ rest) n ≡ scan rest (n * 10 + d)
scan_digit d n rest h =
    let digit : is_digit (b'0' + d) ≡ true = ground arith in rw digit (ap (scan rest) (omega arith))

scan-print_padded :
    (k n a : ℕ) (rest : Text)
    → n < pow10 k
    → scan (print_padded k n ++ rest) a ≡ scan rest (a * pow10 k + n)
scan-print_padded zero n a rest h = ap (scan rest) (omega arith)
scan-print_padded (suc k) n a rest h =
    let low : n % 10 < 10 = omega arith in
    ap (λ t. scan t a) (append_assoc (print_padded k (n / 10)) ((b'0' + n % 10) ∷ []) rest)
    ∙ scan-print_padded k (n / 10) a ((b'0' + n % 10) ∷ rest) (omega arith)
    ∙ scan_digit (n % 10) (a * pow10 k + n / 10) rest low
    ∙ ap (scan rest) (omega arith)

length-print_padded : (k n : ℕ) → length (print_padded k n) ≡ k
length-print_padded zero n = refl
length-print_padded (suc k) n = omega (
  arith,
  length-append (print_padded k (n / 10)) ((b'0' + n % 10) ∷ []),
  length-print_padded k (n / 10),
)

-- A time is printed as that of its whole seconds, a point and nine digits, which read back as its
-- nanoseconds.
pub timestamp_ns_to_string_lem :
    (local_time : ℕ → Text) (t : ℕ)
    → (digits : Text) × (timestamp_ns_to_string local_time t
        ≡ local_time (t / 10 ^ 9) ++ (b'.' ∷ digits))
      × (length digits ≡ 9)
      × (t ≡ t / 10 ^ 9 * 10 ^ 9 + scan digits 0)
unfolding timestamp_ns_to_string
timestamp_ns_to_string_lem local_time t =
    let nanos = t % 10 ^ 9 in
    let read : scan (print_padded 9 nanos) 0 ≡ nanos =
      ap (λ s. scan s 0) (sym (append-nil (print_padded 9 nanos)))
      ∙ scan-print_padded 9 nanos 0 [] (omega arith)
      ∙ omega arith in
    (print_padded 9 nanos, refl, length-print_padded 9 nanos, omega (arith, read))
