-- ===== src/Gid/Wire.antt =====
-- A GID survives its way over the wire.
use pingweave.Base.{
  ℕ, zero, suc, ◌+◌, ◌*◌, ◌/◌, ◌%◌, ◌^◌, ◌≤◌, ◌<◌, ◌≡◌, refl, sym, ap, ap₂, ◌∙◌, ◌⊎◌, inl, inr,
  false, ◌&&◌, ◌||◌, Option, none, some, List, [], ◌∷◌, ◌++◌, arith, ltb, leb, ◌==◌, Bool-cases,
  length, All, length-append,
}
use pingweave.Base.Text.{Text, take, drop, take_append, drop_append}
use mathlib.Core.List.{append_assoc, append-nil}
use pingweave.Gid.{
  words, bytes, htobe32, hex_digit, print_hex, gid_to_wire_gid, hex_value, scan_hex, unsigned_hex,
  sscanf_x, stored, wire_gid_to_gid, print_words, read_words,
}

hex_value-hex_digit : (d : ℕ) → d < 16 → hex_value (hex_digit d) ≡ some d
hex_value-hex_digit d h = ground arith

abbrev pow16 : ℕ → ℕ
pow16 zero = 1
pow16 (suc k) = pow16 k * 16

scan_hex_digit :
    (d n : ℕ) (rest : Text) → d < 16 → scan_hex (hex_digit d ∷ rest) n ≡ scan_hex rest (n * 16 + d)
scan_hex_digit d n rest h =
    ap (λ (o : Option ℕ). elim o [ none ↦ n | some e ↦ scan_hex rest (n * 16 + e) ])
      (hex_value-hex_digit d h)

scan_hex-print_hex :
    (k n a : ℕ) (rest : Text)
    → n < pow16 k
    → scan_hex (print_hex k n ++ rest) a ≡ scan_hex rest (a * pow16 k + n)
scan_hex-print_hex zero n a rest h = ap (scan_hex rest) (omega arith)
scan_hex-print_hex (suc k) n a rest h =
    let low : n % 16 < 16 = omega arith in
    ap (λ t. scan_hex t a) (append_assoc (print_hex k (n / 16)) (hex_digit (n % 16) ∷ []) rest)
    ∙ scan_hex-print_hex k (n / 16) a (hex_digit (n % 16) ∷ rest) (omega arith)
    ∙ scan_hex_digit (n % 16) (a * pow16 k + n / 16) rest low
    ∙ ap (scan_hex rest) (omega arith)

abbrev IsHexChar : ℕ → Type 0
IsHexChar c = ((b'0' ≤ c) × (c ≤ b'9')) ⊎ ((b'a' ≤ c) × (c ≤ b'f'))

hex_digit-IsHexChar : (d : ℕ) → d < 16 → IsHexChar (hex_digit d)
hex_digit-IsHexChar d h = elim (Bool-cases (ltb d 10)) [
  | inl b ↦ rw b (inl (ground arith))
  | inr b ↦ rw b (inr (ground arith))
]

-- A text of two such digits or more has no sign, no prefix and no space for `%x` to skip.
sscanf_x_digits :
    (c d : ℕ) (s : Text)
    → IsHexChar c
    → IsHexChar d
    → sscanf_x (c ∷ d ∷ s) ≡ unsigned_hex (c ∷ d ∷ s)
sscanf_x_digits c d s h k =
    let no_space : ((c == 32) || (leb 9 c && leb c 13)) ≡ false = ground arith in
    let no_minus : (c == b'-') ≡ false = ground arith in
    let no_plus : (c == b'+') ≡ false = ground arith in
    let no_x : ((c == b'0') && ((d == b'x') || (d == b'X'))) ≡ false = ground arith in
    rw (no_space, no_minus, no_plus, no_x) refl

unsigned_hex_digit :
    (d : ℕ) (rest : Text) → d < 16 → unsigned_hex (hex_digit d ∷ rest) ≡ some (scan_hex rest d)
unsigned_hex_digit d rest h =
    ap (λ (o : Option ℕ). elim o [ none ↦ none | some e ↦ some (scan_hex rest e) ])
      (hex_value-hex_digit d h)

length-print_hex : (k n : ℕ) → length (print_hex k n) ≡ k
length-print_hex zero n = refl
length-print_hex (suc k) n = omega (
  arith,
  length-append (print_hex k (n / 16)) (hex_digit (n % 16) ∷ []),
  length-print_hex k (n / 16),
)

-- The digits behind the first two are still to be read.
print_hex_front :
    (k n : ℕ)
    → (c : ℕ) × (d : ℕ) × (s : Text) × (print_hex (suc (suc k)) n ≡ hex_digit c ∷ hex_digit d ∷ s)
      × (c < 16)
      × (d < 16)
print_hex_front zero n = (n / 16 % 16, n % 16, [], refl, omega arith, omega arith)
print_hex_front (suc k) n =
    let (c, d, s, e, h, h') = print_hex_front k (n / 16) in
    (c, d, s ++ (hex_digit (n % 16) ∷ []), ap (λ t. t ++ (hex_digit (n % 16) ∷ [])) e, h, h')

-- `%x` reads what `%08x` printed.
pub sscanf_x-print_hex : (n : ℕ) → n < 2 ^ 32 → sscanf_x (print_hex 8 n) ≡ some n
sscanf_x-print_hex n h =
    let (c, d, s, e, hc, hd) = print_hex_front 6 n in
    ap sscanf_x e
    ∙ sscanf_x_digits (hex_digit c) (hex_digit d) s (hex_digit-IsHexChar c hc)
        (hex_digit-IsHexChar d hd)
    ∙ unsigned_hex_digit c (hex_digit d ∷ s) hc
    ∙ ap some (
        ap (scan_hex (hex_digit d ∷ s)) (omega arith)
        ∙ sym (scan_hex_digit c 0 (hex_digit d ∷ s) hc)
        ∙ ap (λ t. scan_hex t 0) (sym e ∙ sym (append-nil (print_hex 8 n)))
        ∙ scan_hex-print_hex 8 n 0 [] (omega arith)
        ∙ omega arith)

abbrev pub IsByte : ℕ → Type 0
IsByte b = b < 2 ^ 8

abbrev word : ℕ → ℕ → ℕ → ℕ → ℕ
word a b c d = a + b * 2 ^ 8 + c * 2 ^ 16 + d * 2 ^ 24

htobe32-word :
    (a b c d : ℕ)
    → IsByte a
    → IsByte b
    → IsByte c
    → IsByte d
    → (htobe32 (word a b c d) ≡ word d c b a) × (word d c b a < 2 ^ 32)
htobe32-word a b c d ha hb hc hd = (omega arith, omega arith)

-- One word of the loop.
read_words_step :
    (n v32 x : ℕ) (rest : Text)
    → x < 2 ^ 32
    → read_words (suc n) v32 (print_hex 8 x ++ rest) ≡ htobe32 x ∷ read_words n x rest
read_words_step n v32 x rest h =
    let eight = length-print_hex 8 x in
    let front : take 8 (print_hex 8 x ++ rest) ≡ print_hex 8 x =
      ap (λ k. take k (print_hex 8 x ++ rest)) (sym eight) ∙ take_append (print_hex 8 x) rest in
    let back : drop 8 (print_hex 8 x ++ rest) ≡ rest =
      ap (λ k. drop k (print_hex 8 x ++ rest)) (sym eight) ∙ drop_append (print_hex 8 x) rest in
    let value : stored v32 (sscanf_x (take 8 (print_hex 8 x ++ rest))) ≡ x =
      ap (λ t. stored v32 (sscanf_x t)) front ∙ ap (stored v32) (sscanf_x-print_hex x h) in
    ap₂ (λ v t. htobe32 v ∷ read_words n v t) value back

front_bytes :
    (a b c d : ℕ) (ws : List ℕ)
    → IsByte a
    → IsByte b
    → IsByte c
    → IsByte d
    → bytes (word a b c d ∷ ws) ≡ a ∷ b ∷ c ∷ d ∷ bytes ws
front_bytes a b c d ws ha hb hc hd =
    let first : word a b c d % 2 ^ 8 ≡ a = omega arith in
    let second : word a b c d / 2 ^ 8 % 2 ^ 8 ≡ b = omega arith in
    let third : word a b c d / 2 ^ 16 % 2 ^ 8 ≡ c = omega arith in
    let fourth : word a b c d / 2 ^ 24 % 2 ^ 8 ≡ d = omega arith in
    rw (first, second, third, fourth) refl

words_kept :
    (n v32 : ℕ) (gid : List ℕ)
    → length gid ≡ n * 4
    → All IsByte gid
    → bytes (read_words n v32 (print_words (words gid))) ≡ gid
words_kept zero v32 [] l h = refl
words_kept zero v32 (a ∷ gid) l h = absurd (omega arith)
words_kept (suc n) v32 [] l h = absurd (omega arith)
words_kept (suc n) v32 (a ∷ []) l h = absurd (omega arith)
words_kept (suc n) v32 (a ∷ b ∷ []) l h = absurd (omega arith)
words_kept (suc n) v32 (a ∷ b ∷ c ∷ []) l h = absurd (omega arith)
words_kept (suc n) v32 (a ∷ b ∷ c ∷ d ∷ gid) l (ha, (hb, (hc, (hd, h)))) =
    let (swapped, small) = htobe32-word a b c d ha hb hc hd in
    let rest = print_words (words gid) in
    ap (λ x. bytes (read_words (suc n) v32 (print_hex 8 x ++ rest))) swapped
    ∙ ap bytes (read_words_step n v32 (word d c b a) rest small)
    ∙ ap (λ x. bytes (x ∷ read_words n (word d c b a) rest)) (htobe32-word d c b a hd hc hb ha).0
    ∙ front_bytes a b c d _ ha hb hc hd
    ∙ ap (λ t. a ∷ b ∷ c ∷ d ∷ t) (words_kept n (word d c b a) gid (omega arith) h)

-- What `gid_to_wire_gid` writes for a GID of 16 bytes is read back as that GID, whatever the
-- variable that `sscanf` fills held before.
pub wire_gid_to_gid-gid_to_wire_gid :
    (v32 : ℕ) (gid : List ℕ)
    → length gid ≡ 16
    → All IsByte gid
    → wire_gid_to_gid v32 (gid_to_wire_gid gid) ≡ gid
unfolding wire_gid_to_gid gid_to_wire_gid
wire_gid_to_gid-gid_to_wire_gid v32 gid l h = words_kept 4 v32 gid l h
