-- ===== src/Ini/Load.antt =====
-- What `load` makes of each line, and of a file written line by line.
use pingweave.Base.{
  ℕ, suc, ◌≡◌, refl, sym, ap, ap₂, ◌∙◌, ◌⊎◌, inl, inr, false, none, some, [], ◌∷◌, ◌++◌, arith,
  ◌==◌, if◌then◌else◌, Bool-cases, length, All,
}
use pingweave.Base.Text.{Text, find_first, substr, drop, take_append, find_first_append}
use pingweave.Ini.{
  Loaded, assign, trim, whitespace, is_comment, value_of, cut_comment, load_trimmed, load_line,
}
use mathlib.Core.List.{append_assoc}
use pingweave.Ini.Trim.{
  strip_front, strip_end, AllSpace, IsTrimmed, trim_lem, trim_around, trim-strip_end,
  trim-strip_front, strip_end_keep, strip_front_space,
}

-- The text up to the first `;` or `#`.
abbrev pub before_comment : Text → Text
before_comment [] = []
before_comment (c ∷ cs) = let rest = before_comment cs in if is_comment c then [] else c ∷ rest

cut_comment_before :
    (v : Text)
    → ((find_first is_comment v ≡ none) × (before_comment v ≡ v))
      ⊎ ((i : ℕ) × (find_first is_comment v ≡ some i) × (substr v 0 i ≡ before_comment v))
cut_comment_before [] = inl (refl, refl)
cut_comment_before (c ∷ cs) = elim (Bool-cases (is_comment c)) [
  | inl b ↦ inr (0, rw b refl, rw b refl)
  | inr b ↦ elim (cut_comment_before cs) [
    | inl (nowhere, whole) ↦ inl (rw (b, nowhere, whole) (refl, refl))
    | inr (i, found, cut) ↦ inr (suc i, rw (b, found) refl, rw b (ap (◌∷◌ c) cut))
  ]
]

before_comment-strip_front :
    (s : Text) → before_comment (strip_front s) ≡ strip_front (before_comment s)
before_comment-strip_front [] = refl
before_comment-strip_front (c ∷ cs) = ground (arith, before_comment-strip_front cs)

before_comment-strip_end :
    (s : Text) → strip_end (before_comment (strip_end s)) ≡ strip_end (before_comment s)
before_comment-strip_end [] = refl
before_comment-strip_end (c ∷ cs) = ground (arith, before_comment-strip_end cs)

trim_idem : (s : Text) → trim (trim s) ≡ trim s
trim_idem s = ap trim (trim_lem s) ∙ trim-strip_end (strip_front s) ∙ trim-strip_front s

cut_comment-trim :
    (s : Text)
    → cut_comment (trim s) (find_first is_comment (trim s)) ≡ trim (before_comment (trim s))
cut_comment-trim s = elim (cut_comment_before (trim s)) [
  | inl (nowhere, whole) ↦ rw (nowhere, whole) (sym (trim_idem s))
  | inr (i, found, cut) ↦ rw (found, cut) refl
]

before_comment-trim : (s : Text) → trim (before_comment (trim s)) ≡ trim (before_comment s)
before_comment-trim s =
    let t = strip_front s in
    ap (λ v. trim (before_comment v)) (trim_lem s)
    ∙ sym (trim-strip_end (before_comment (strip_end t)))
    ∙ ap trim (before_comment-strip_end t)
    ∙ trim-strip_end (before_comment t)
    ∙ ap trim (before_comment-strip_front s)
    ∙ trim-strip_front (before_comment s)

-- The value of a setting is the text after `=` up to a comment, trimmed, whatever whitespace
-- stands around it.
pub value_of_lem : (s : Text) → value_of s ≡ trim (before_comment s)
value_of_lem s = cut_comment-trim s ∙ before_comment-trim s

abbrev NoEquals : Text → Type 0
NoEquals = All (λ c. (c == b'=') ≡ false)

-- A key that is read as it is written.
abbrev pub IsKey : Text → Type 0
IsKey [] = ⊥
IsKey (c ∷ cs) =
    IsTrimmed (c ∷ cs) × (is_comment c ≡ false) × ((c == b'[') ≡ false) × NoEquals (c ∷ cs)

NoEquals-append : (s t : Text) → NoEquals s → NoEquals t → NoEquals (s ++ t)
NoEquals-append [] t h k = k
NoEquals-append (c ∷ s) t (h, hs) k = (h, NoEquals-append s t hs k)

space-NoEquals : (s : Text) → AllSpace s → NoEquals s
space-NoEquals [] h = h
space-NoEquals (c ∷ cs) (h, hs) = (ground arith, space-NoEquals cs hs)

drop_append_cons : (s : Text) (c : ℕ) (t : Text) → drop (suc (length s)) (s ++ (c ∷ t)) ≡ t
drop_append_cons [] c t = refl
drop_append_cons (d ∷ s) c t = drop_append_cons s c t

load_trimmed_setting :
    (c : ℕ) (cs rest : Text) (l : Loaded)
    → is_comment c ≡ false
    → (c == b'[') ≡ false
    → NoEquals (c ∷ cs)
    → load_trimmed ((c ∷ cs) ++ (b'=' ∷ rest)) l
      ≡ record l { config = assign l.section (trim (c ∷ cs)) (value_of rest) l.config }
load_trimmed_setting c cs rest l a b e =
    rw (a, b, find_first_append (λ d. d == b'=') (c ∷ cs) b'=' rest e refl)
      (rw (take_append cs (b'=' ∷ rest), drop_append_cons cs b'=' rest) refl)

trim_line :
    (front : Text) (c : ℕ) (cs gap rest : Text)
    → AllSpace front
    → whitespace c ≡ false
    → trim (front ++ (c ∷ (cs ++ (gap ++ (b'=' ∷ rest)))))
      ≡ c ∷ ((cs ++ gap) ++ (b'=' ∷ strip_end rest))
trim_line front c cs gap rest f h =
    let line = c ∷ (cs ++ (gap ++ (b'=' ∷ rest))) in
    trim_lem (front ++ line)
    ∙ ap strip_end (strip_front_space front line f)
    ∙ rw h (
        ap (λ s. strip_end (c ∷ s)) (sym (append_assoc cs gap (b'=' ∷ rest)))
        ∙ strip_end_keep (c ∷ (cs ++ gap)) b'=' rest refl)

-- A line `key = value`, with whitespace anywhere around the key and the value and perhaps a comment
-- behind it, sets the value of that key in the current section.
pub load_line_setting :
    (front key gap rest : Text) (l : Loaded)
    → AllSpace front
    → IsKey key
    → AllSpace gap
    → load_line (front ++ (key ++ (gap ++ (b'=' ∷ rest)))) l
      ≡ record l { config = assign l.section key (trim (before_comment rest)) l.config }
unfolding load_line
load_line_setting front [] gap rest l f k g = absurd k
load_line_setting front (c ∷ cs) gap rest l f (t, a, b, e) g =
    let key = c ∷ cs in
    rw (trim_line front c cs gap rest f t.0) (
      load_trimmed_setting c (cs ++ gap) (strip_end rest) l a b
        (NoEquals-append key gap e (space-NoEquals gap g))
      ∙ ap₂ (λ k v. record l { config = assign l.section k v l.config })
          (trim_around [] key gap tt t g)
          (value_of_lem (strip_end rest)
            ∙ sym (trim-strip_end (before_comment (strip_end rest)))
            ∙ ap trim (before_comment-strip_end rest)
            ∙ trim-strip_end (before_comment rest)))
