-- ===== src/Base/Text.antt =====
-- Text as the numbers of its characters, with the parts of `std::string` that the program calls.
-- `npos` is `none`.
use Prim.Native.Char.{code}
use Prim.Native.String.{String}
use pingweave.Base.{
  ℕ, zero, suc, ◌≡◌, refl, ap, ◌↔◌, Bool, true, false, ◌&&◌, Option, none, some, List, [], ◌∷◌,
  ◌++◌, arith, ◌==◌, if◌then◌else◌, length, All,
}

abbrev pub Text : Type 0
Text = List ℕ

-- A literal as text.
abbrev pub codes : String → Text
codes String.[] = []
codes (String.◌∷◌ c s) = code c ∷ codes s

abbrev pub text_eq : Text → Text → Bool
text_eq [] [] = true
text_eq [] (d ∷ ds) = false
text_eq (c ∷ cs) [] = false
text_eq (c ∷ cs) (d ∷ ds) = (c == d) && text_eq cs ds

pub text_eq_self : (s : Text) → text_eq s s ≡ true
text_eq_self [] = refl
text_eq_self (c ∷ cs) = ground (arith, text_eq_self cs)

pub text_eq_iff : (s t : Text) → (text_eq s t ≡ true) ↔ (s ≡ t)
text_eq_iff [] [] = ground arith
text_eq_iff [] (d ∷ ds) = ground arith
text_eq_iff (c ∷ cs) [] = ground arith
text_eq_iff (c ∷ cs) (d ∷ ds) = ground (arith, text_eq_iff cs ds)

abbrev pub after : Option ℕ → Option ℕ
after none = none
after (some i) = some (suc i)

-- The first and the last position where the test holds.
abbrev pub find_first : (ℕ → Bool) → Text → Option ℕ
find_first p [] = none
find_first p (c ∷ cs) = if p c then some 0 else after (find_first p cs)

abbrev pub or_here : Bool → Option ℕ → Option ℕ
or_here b (some i) = some (suc i)
or_here b none = if b then some 0 else none

abbrev pub find_last : (ℕ → Bool) → Text → Option ℕ
find_last p [] = none
find_last p (c ∷ cs) = or_here (p c) (find_last p cs)

abbrev pub drop : ℕ → Text → Text
drop zero s = s
drop (suc n) [] = []
drop (suc n) (c ∷ cs) = drop n cs

abbrev pub take : ℕ → Text → Text
take zero s = []
take (suc n) [] = []
take (suc n) (c ∷ cs) = c ∷ take n cs

abbrev pub substr : Text → ℕ → ℕ → Text
substr s start count = take count (drop start s)

-- `std::getline` until the end of the file.
abbrev pub cons_first : ℕ → List Text → List Text
cons_first c [] = (c ∷ []) ∷ []
cons_first c (l ∷ ls) = (c ∷ l) ∷ ls

abbrev pub lines : Text → List Text
lines [] = []
lines (c ∷ cs) = let rest = lines cs in if c == 10 then [] ∷ rest else cons_first c rest

pub drop_append : (s t : Text) → drop (length s) (s ++ t) ≡ t
drop_append [] t = refl
drop_append (c ∷ s) t = drop_append s t

pub take_append : (s t : Text) → take (length s) (s ++ t) ≡ s
take_append [] t = refl
take_append (c ∷ s) t = ap (◌∷◌ c) (take_append s t)

-- The text before the first character that passes the test is what is found before it.
pub find_first_append :
    (p : ℕ → Bool) (s : Text) (c : ℕ) (t : Text)
    → All (λ d. p d ≡ false) s
    → p c ≡ true
    → find_first p (s ++ (c ∷ t)) ≡ some (length s)
find_first_append p [] c t h e = rw e refl
find_first_append p (d ∷ s) c t (h, hs) e = rw (h, find_first_append p s c t hs e) refl

pub find_first-none : (p : ℕ → Bool) (s : Text) → All (λ d. p d ≡ false) s → find_first p s ≡ none
find_first-none p [] h = refl
find_first-none p (d ∷ s) (h, hs) = rw (h, find_first-none p s hs) refl

pub lines_append :
    (s t : Text) → All (λ c. (c == 10) ≡ false) s → lines (s ++ (10 ∷ t)) ≡ s ∷ lines t
lines_append [] t h = refl
lines_append (c ∷ s) t (h, hs) = rw (h, lines_append s t hs) refl
