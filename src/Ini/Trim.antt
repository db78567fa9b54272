-- ===== src/Ini/Trim.antt =====
-- What `trim` keeps of a line.
use pingweave.Base.{
  ℕ, [], ◌∷◌, if◌then◌else◌, suc, ◌≡◌, refl, not, Option, none, some, arith, sym, ap, ◌∙◌, true,
  false, ◌++◌, All,
}
use pingweave.Base.Text.{Text, take, find_last}
use pingweave.Ini.{whitespace, trim, back}

-- Trimming by recursion: spaces off the front, then off the end.
abbrev pub strip_front : Text → Text
strip_front [] = []
strip_front (c ∷ cs) = let rest = strip_front cs in if whitespace c then rest else c ∷ cs

abbrev pub cons_kept : ℕ → Text → Text
cons_kept c [] = if whitespace c then [] else c ∷ []
cons_kept c (d ∷ ds) = c ∷ d ∷ ds

abbrev pub strip_end : Text → Text
strip_end [] = []
strip_end (c ∷ cs) = cons_kept c (strip_end cs)

abbrev up_to : Text → Option ℕ → Text
up_to s none = []
up_to s (some last) = take (suc last) s

strip_end-up_to : (s : Text) → strip_end s ≡ up_to s (find_last (λ c. not (whitespace c)) s)
strip_end-up_to [] = refl
strip_end-up_to (c ∷ []) = ground arith
strip_end-up_to (c ∷ d ∷ ds) = ground (arith, strip_end-up_to (d ∷ ds))

-- The searches for the first and the last character that is no whitespace, and the cut between
-- them, take off exactly the whitespace at either end.
pub trim_lem : (s : Text) → trim s ≡ strip_end (strip_front s)
unfolding trim
trim_lem [] = refl
trim_lem (c ∷ cs) = ground (arith, trim_lem cs, strip_end-up_to (c ∷ cs))

abbrev pub AllSpace : Text → Type 0
AllSpace = All (λ c. whitespace c ≡ true)

-- No whitespace at either end.
abbrev pub IsTrimmed : Text → Type 0
IsTrimmed [] = Unit
IsTrimmed (c ∷ cs) = (whitespace c ≡ false) × (whitespace (back (c ∷ cs)) ≡ false)

pub strip_front_space : (front s : Text) → AllSpace front → strip_front (front ++ s) ≡ strip_front s
strip_front_space [] s h = refl
strip_front_space (c ∷ cs) s (h, hs) = ground (arith, strip_front_space cs s hs)

strip_end_space : (end : Text) → AllSpace end → strip_end end ≡ []
strip_end_space [] h = refl
strip_end_space (c ∷ cs) (h, hs) = rw (strip_end_space cs hs) (ground arith)

pub strip_end_append : (s end : Text) → strip_end end ≡ [] → strip_end (s ++ end) ≡ strip_end s
strip_end_append [] end h = h
strip_end_append (c ∷ s) end h = ap (cons_kept c) (strip_end_append s end h)

cons_kept-append : (b c : ℕ) (s t : Text) → cons_kept b (s ++ (c ∷ t)) ≡ b ∷ (s ++ (c ∷ t))
cons_kept-append b c [] t = refl
cons_kept-append b c (d ∷ s) t = refl

pub strip_end_keep :
    (s : Text) (c : ℕ) (t : Text)
    → whitespace c ≡ false
    → strip_end (s ++ (c ∷ t)) ≡ s ++ (c ∷ strip_end t)
strip_end_keep [] c t h = ground (arith, h)
strip_end_keep (b ∷ s) c t h =
    ap (cons_kept b) (strip_end_keep s c t h) ∙ cons_kept-append b c s (strip_end t)

strip_end-IsTrimmed :
    (c : ℕ) (cs : Text) → whitespace (back (c ∷ cs)) ≡ false → strip_end (c ∷ cs) ≡ c ∷ cs
strip_end-IsTrimmed c [] h = ground arith
strip_end-IsTrimmed c (d ∷ ds) h = ap (cons_kept c) (strip_end-IsTrimmed d ds h)

strip_front_all : (s : Text) → AllSpace s → strip_front s ≡ []
strip_front_all [] h = refl
strip_front_all (c ∷ cs) (h, hs) = ground (arith, strip_front_all cs hs)

-- Whitespace around a text that has none at its ends is what `trim` takes off.
pub trim_around :
    (front s end : Text)
    → AllSpace front
    → IsTrimmed s
    → AllSpace end
    → trim (front ++ (s ++ end)) ≡ s
trim_around front [] end f h e =
    trim_lem (front ++ end) ∙ ap strip_end (strip_front_space front end f ∙ strip_front_all end e)
trim_around front (c ∷ cs) end f (first, last) e =
    trim_lem (front ++ (c ∷ (cs ++ end)))
    ∙ ap strip_end (strip_front_space front (c ∷ (cs ++ end)) f)
    ∙ ground (
      arith,
      first,
      strip_end_append (c ∷ cs) end (strip_end_space end e),
      strip_end-IsTrimmed c cs last,
    )

strip_end_idem : (s : Text) → strip_end (strip_end s) ≡ strip_end s
strip_end_idem [] = refl
strip_end_idem (c ∷ cs) = ground (arith, strip_end_idem cs)

strip_front_idem : (s : Text) → strip_front (strip_front s) ≡ strip_front s
strip_front_idem [] = refl
strip_front_idem (c ∷ cs) = ground (arith, strip_front_idem cs)

strip_end-front : (s : Text) → strip_end (strip_front (strip_end s)) ≡ strip_end (strip_front s)
strip_end-front [] = refl
strip_end-front (c ∷ cs) = ground (arith, strip_end-front cs, strip_end_idem cs)

pub trim-strip_end : (s : Text) → trim (strip_end s) ≡ trim s
trim-strip_end s = trim_lem (strip_end s) ∙ strip_end-front s ∙ sym (trim_lem s)

pub trim-strip_front : (s : Text) → trim (strip_front s) ≡ trim s
trim-strip_front s = trim_lem (strip_front s) ∙ ap strip_end (strip_front_idem s) ∙ sym (trim_lem s)

pub strip_front_keep :
    (s : Text) (c : ℕ) (t : Text)
    → whitespace c ≡ false
    → strip_front (s ++ (c ∷ t)) ≡ strip_front s ++ (c ∷ t)
strip_front_keep [] c t h = rw h refl
strip_front_keep (b ∷ s) c t h = ground (arith, strip_front_keep s c t h)
