-- ===== src/Ini/File.antt =====
-- A file written line by line is loaded as what its lines say.
use pingweave.Base.{
  ℕ, ◌-◌, ◌≡◌, refl, sym, ap, ◌∙◌, true, false, ◌&&◌, Option, none, some, List, [], ◌∷◌, ◌++◌, map,
  arith, ◌==◌, if◌then◌else◌, length, All, length-append,
}
use pingweave.Base.Text.{Text, text_eq, text_eq_iff, lines, lines_append, take_append}
use mathlib.Core.List.{append-nil}
use pingweave.Ini.{
  Setting, Loaded, assign, at, trim, whitespace, is_comment, back, load_line, load_lines, load,
}
use pingweave.Ini.Trim.{
  AllSpace, trim_around, trim_lem, strip_end, strip_front_space, strip_end_keep,
}
use pingweave.Ini.Load.{before_comment, IsKey, load_line_setting}

back_append : (c : ℕ) (cs : Text) (d : ℕ) → back (c ∷ (cs ++ (d ∷ []))) ≡ d
back_append c [] d = refl
back_append c (b ∷ cs) d = back_append b cs d

-- A line `[name]`, with whitespace around it, starts a section and sets nothing.
pub load_line_header :
    (front name end : Text) (l : Loaded)
    → AllSpace front
    → AllSpace end
    → load_line (front ++ ((b'[' ∷ (name ++ (b']' ∷ []))) ++ end)) l ≡ record l { section = name }
unfolding load_line
load_line_header front name end l f e =
    let line = b'[' ∷ (name ++ (b']' ∷ [])) in
    let count : length line - 2 ≡ length name = omega (arith, length-append name (b']' ∷ [])) in
    rw
      (
        trim_around front line end f (refl, rw (back_append b'[' name b']') refl) e,
        back_append b'[' name b']',
      )
      (ap (λ t. record l { section = t }) (rw count (take_append name (b']' ∷ []))))

load_line_blank : (line : Text) (l : Loaded) → AllSpace line → load_line line l ≡ l
unfolding load_line
load_line_blank line l h =
    rw (ap trim (sym (append-nil line)) ∙ trim_around line [] [] h tt tt) refl

load_line_comment :
    (front : Text) (c : ℕ) (rest : Text) (l : Loaded)
    → AllSpace front
    → is_comment c ≡ true
    → load_line (front ++ (c ∷ rest)) l ≡ l
unfolding load_line
load_line_comment front c rest l f h =
    let no_space : whitespace c ≡ false = ground arith in
    let trimmed : trim (front ++ (c ∷ rest)) ≡ c ∷ strip_end rest =
      trim_lem (front ++ (c ∷ rest))
      ∙ ap strip_end (strip_front_space front (c ∷ rest) f)
      ∙ rw no_space (strip_end_keep [] c rest no_space) in
    rw (trimmed, h) refl

-- Looking up behind an assignment.
pub at-assign :
    (section key value s k : Text) (config : List Setting)
    → at s k (assign section key value config)
      ≡ (if text_eq section s && text_eq key k then some value else at s k config)
unfolding at assign
at-assign section key value s k [] = refl
at-assign section key value s k (e ∷ config) = ground (
  arith,
  text_eq_iff e.section section,
  text_eq_iff e.key key,
  text_eq_iff e.section s,
  text_eq_iff e.key k,
  text_eq_iff section s,
  text_eq_iff key k,
  at-assign section key value s k config,
)

-- The lines of a configuration file as one writes them, `front`, `gap` and `end` being whitespace.
pub data Line : Type 0 where
  blank : Text → Line
  comment : (front : Text) (mark : ℕ) (rest : Text) → Line
  header : (front name end : Text) → Line
  setting : (front key gap rest : Text) → Line

abbrev pub written : Line → Text
written (blank front) = front
written (comment front mark rest) = front ++ (mark ∷ rest)
written (header front name end) = front ++ ((b'[' ∷ (name ++ (b']' ∷ []))) ++ end)
written (setting front key gap rest) = front ++ (key ++ (gap ++ (b'=' ∷ rest)))

abbrev IsLaidOut : Line → Type 0
IsLaidOut (blank front) = AllSpace front
IsLaidOut (comment front mark rest) = AllSpace front × (is_comment mark ≡ true)
IsLaidOut (header front name end) = AllSpace front × AllSpace end
IsLaidOut (setting front key gap rest) = AllSpace front × IsKey key × AllSpace gap

abbrev pub IsLine : Line → Type 0
IsLine line = IsLaidOut line × All (λ c. (c == 10) ≡ false) (written line)

abbrev pub file_of : List Line → Text
file_of [] = []
file_of (line ∷ rest) = written line ++ (10 ∷ file_of rest)

-- What the lines say of a key, in the order of the file: the last setting counts. `current` is the
-- section that the lines before left, and `so_far` the value.
abbrev pub said_of : Text → Text → Text → Option Text → List Line → Option Text
said_of s k current so_far [] = so_far
said_of s k current so_far (blank front ∷ rest) = said_of s k current so_far rest
said_of s k current so_far (comment front mark text ∷ rest) = said_of s k current so_far rest
said_of s k current so_far (header front name end ∷ rest) = said_of s k name so_far rest
said_of s k current so_far (setting front key gap text ∷ rest) =
    said_of s k current
      (if text_eq current s && text_eq key k then some (trim (before_comment text)) else so_far)
      rest

abbrev found : Text → Text → List Line → Loaded → Option Text
found s k ls l = at s k (load_lines (map written ls) l).config

load_lines_said :
    (s k : Text) (ls : List Line) (l : Loaded)
    → All IsLine ls
    → at s k (load_lines (map written ls) l).config ≡ said_of s k l.section (at s k l.config) ls
unfolding load_lines
load_lines_said s k [] l h = refl
load_lines_said s k (blank front ∷ ls) l ((f, n), hs) =
    ap (found s k ls) (load_line_blank front l f) ∙ load_lines_said s k ls l hs
load_lines_said s k (comment front mark rest ∷ ls) l (((f, m), n), hs) =
    ap (found s k ls) (load_line_comment front mark rest l f m) ∙ load_lines_said s k ls l hs
load_lines_said s k (header front name end ∷ ls) l (((f, e), n), hs) =
    ap (found s k ls) (load_line_header front name end l f e)
    ∙ load_lines_said s k ls (record l { section = name }) hs
load_lines_said s k (setting front key gap rest ∷ ls) l (((f, w, g), n), hs) =
    let value = trim (before_comment rest) in
    ap (found s k ls) (load_line_setting front key gap rest l f w g)
    ∙ load_lines_said s k ls (record l { config = assign l.section key value l.config }) hs
    ∙ ap (λ o. said_of s k l.section o ls) (at-assign l.section key value s k l.config)

lines-file_of : (ls : List Line) → All IsLine ls → lines (file_of ls) ≡ map written ls
lines-file_of [] h = refl
lines-file_of (line ∷ ls) ((h, n), hs) =
    lines_append (written line) (file_of ls) n ∙ ap (◌∷◌ (written line)) (lines-file_of ls hs)

-- A file of blank lines, comments, headers and settings is loaded, and a lookup in what was loaded
-- finds exactly what the last setting of that key in that section says: the text behind its `=` up
-- to a comment, without the whitespace around it.
pub load-file_of :
    (s k : Text) (ls : List Line)
    → All IsLine ls
    → (config : List Setting) × (load (some (file_of ls)) ≡ some config)
      × (at s k config ≡ said_of s k [] none ls)
unfolding load at
load-file_of s k ls h =
    let first : Loaded = record { section = []; config = [] } in
    (
      (load_lines (lines (file_of ls)) first).config,
      refl,
      rw (lines-file_of ls h) (load_lines_said s k ls first h),
    )
