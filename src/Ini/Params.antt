-- ===== src/Ini/Params.antt =====
-- The parameters, the controller's address and the log level, as a file gives them.
use pingweave.Base.{
  ℕ, ◌^◌, ◌<◌, ◌≡◌, refl, sym, ap, subst, ◌∙◌, ◌≢◌, ◌↔◌, ◌⊎◌, inl, inr, Bool, true, Option, none,
  some, List, [], ◌∷◌, arith, success, failure, if◌then◌else◌, Bool-cases, Option-cases, All,
}
use pingweave.Base.Text.{Text, codes}
use pingweave.Base.Int.{ℤ, pos, negsuc, ◌==ℤ◌}
use pingweave.Base.Decimal.{stoi, print, stoi-print}
use pingweave.Ini.{
  Setting, at, load, get, get_int, ControllerInfo, get_controller_info_from_ini,
  get_int_value_from_ini, get_str_value_from_ini, get_int_param_from_ini, Level, trace, debug, info,
  warn, err, critical, find_level, log_level_map, get_log_config_from_ini, int_param, set_or_fail,
  or_minus_one, or_empty, controller_info, checked_info, log_config,
}
use mathlib.Core.List.{cons-ne-nil}
use pingweave.Ini.File.{Line, IsLine, file_of, said_of, load-file_of}

-- What the file says of a key in a section.
abbrev pub said : Text → Text → List Line → Option Text
said section key ls = said_of section key [] none ls

==ℤ_iff : (a b : ℤ) → ((a ==ℤ b) ≡ true) ↔ (a ≡ b)
==ℤ_iff (pos a) (pos b) = ground arith
==ℤ_iff (negsuc a) (negsuc b) = ground arith
==ℤ_iff (pos a) (negsuc b) = ground arith
==ℤ_iff (negsuc a) (pos b) = ground arith

stoi_empty : stoi [] ≡ none
unfolding stoi
stoi_empty = refl

-- The section "param" of such a file is read without touching the caller's variable unless the
-- value is there and good.
abbrev pub IntOutcome : ℤ → Option Text → ℤ × Bool → Type 0
IntOutcome ret found r =
    ((n : ℤ) × (value : Text) × (found ≡ some value)
      × (stoi value ≡ some n)
      × (n ≢ negsuc 0)
      × (r ≡ (n, success)))
    ⊎ ((r ≡ (ret, failure))
        × ((value : Text) (n : ℤ) → found ≡ some value → stoi value ≡ some n → n ≡ negsuc 0))

int_value :
    (key : Text) (config : List Setting) (found : Option Text)
    → at (codes "param") key config ≡ found
    → get_int_value_from_ini config (codes "param") key
      ≡ (let n = or_minus_one (stoi (or_empty found)) in if n ==ℤ negsuc 0 then none else some n)
unfolding get_int_value_from_ini get_int get
int_value key config found e = rw e refl

IntOutcome-none : (ret : ℤ) → IntOutcome ret none (ret, failure)
IntOutcome-none ret = inr (refl, λ v n e d. absurd (cc))

IntOutcome-some :
    (ret : ℤ) (value : Text)
    → IntOutcome ret (some value) (
        set_or_fail ret
          (let n = or_minus_one (stoi value) in if n ==ℤ negsuc 0 then none else some n))
IntOutcome-some ret value = elim (Option-cases (stoi value)) [
  | inl bad ↦ rw bad (inr (refl, λ v n e d. absurd (cc)))
  | inr (n, number) ↦ elim (Bool-cases (n ==ℤ negsuc 0)) [
    | inl b ↦ rw (number, b) (inr (refl, λ v m e d. cc ((==ℤ_iff n (negsuc 0)).0 b)))
    | inr b ↦
        rw (number, b)
          (inl (n, value, refl, number, (λ e. absurd (cc ((==ℤ_iff n (negsuc 0)).1 e))), refl))
  ]
]

IntOutcome-read :
    (ret : ℤ) (key : Text) (config : List Setting)
    → IntOutcome ret (at (codes "param") key config) (int_param ret key (some config))
IntOutcome-read ret key config = elim (Option-cases (at (codes "param") key config)) [
  | inl missing ↦ rw (missing, int_value key config none missing, stoi_empty) (IntOutcome-none ret)
  | inr (value, there) ↦
      rw (there, int_value key config (some value) there) (IntOutcome-some ret value)
]

-- Reading an integer parameter from a file written line by line: it succeeds with the number that
-- the value starts with, in the range of `int`, if the file gives the key one other than -1, and
-- otherwise fails and leaves the caller's variable as it was.
pub get_int_param_from_ini_lem :
    (ls : List Line) (key : Text) (ret : ℤ)
    → All IsLine ls
    → IntOutcome ret
        (said (codes "param") key ls)
        (get_int_param_from_ini (some (file_of ls)) ret key)
unfolding get_int_param_from_ini
get_int_param_from_ini_lem ls key ret h =
    let (config, loaded, at_key) = load-file_of (codes "param") key ls h in
    subst (λ o. IntOutcome ret (said (codes "param") key ls) (int_param ret key o)) (sym loaded)
      (subst (λ f. IntOutcome ret f (int_param ret key (some config))) at_key
        (IntOutcome-read ret key config))

controller_info_read :
    (before : ControllerInfo) (config : List Setting) (host port : Text) (n : ℕ)
    → at (codes "controller") (codes "host") config ≡ some host
    → host ≢ []
    → at (codes "controller") (codes "collect_port_http") config ≡ some port
    → stoi port ≡ some (pos n)
    → controller_info before (some config) ≡ (record { ip = host; port = pos n }, success)
unfolding get_int get
controller_info_read before config [] port n at_host h at_port p = absurd (h refl)
controller_info_read before config (c ∷ cs) port n at_host h at_port p =
    rw (at_host, at_port, p) refl

-- The controller's address and port are read back from a file of blank lines, comments, headers and
-- settings, each ended by a newline, that gives a host and a port in decimal below 2^31, wherever the
-- two stand in it.
pub get_controller_info_from_ini_written :
    (ls : List Line) (before : ControllerInfo) (host : Text) (n : ℕ)
    → All IsLine ls
    → said (codes "controller") (codes "host") ls ≡ some host
    → host ≢ []
    → said (codes "controller") (codes "collect_port_http") ls ≡ some (print n)
    → n < 2 ^ 31
    → get_controller_info_from_ini (some (file_of ls)) before
      ≡ (record { ip = host; port = pos n }, success)
unfolding get_controller_info_from_ini
get_controller_info_from_ini_written ls before host n h at_host some_host at_port small =
    let (config, loaded, found_host) = load-file_of (codes "controller") (codes "host") ls h in
    let (config', loaded', found_port) =
      load-file_of (codes "controller") (codes "collect_port_http") ls h in
    let same : config' ≡ config = cc in
    ap (controller_info before) loaded
    ∙ controller_info_read before config host (print n) n (found_host ∙ at_host) some_host
        (ap (at (codes "controller") (codes "collect_port_http")) (sym same) ∙ found_port ∙ at_port)
        (stoi-print n small)

abbrev pub IsGood : ControllerInfo → Type 0
IsGood found = (found.ip ≢ []) × ((n : ℕ) × (found.port ≡ pos n))

checked_info_sound :
    (before : ControllerInfo) (ip : Text) (port : ℤ)
    → (checked_info before ip port).1 ≡ success
    → IsGood (checked_info before ip port).0
checked_info_sound before [] port h = absurd (cc)
checked_info_sound before (c ∷ cs) (pos n) h = (cons-ne-nil c cs, (n, refl))
checked_info_sound before (c ∷ cs) (negsuc n) h = absurd (cc)

controller_info_sound :
    (before : ControllerInfo) (parser : Option (List Setting))
    → (controller_info before parser).1 ≡ success
    → IsGood (controller_info before parser).0
controller_info_sound before none h = absurd (cc)
controller_info_sound before (some config) h = checked_info_sound before _ _ h

-- Whatever the file, the call succeeds only with a host that is not empty and a port that is not
-- negative.
pub get_controller_info_from_ini_sound :
    (file : Option Text) (before : ControllerInfo)
    → let (found, result) = get_controller_info_from_ini file before in
      result ≡ success → IsGood found
unfolding get_controller_info_from_ini
get_controller_info_from_ini_sound file before h = controller_info_sound before (load file) h

-- The two spellings of a level that the table knows.
abbrev pub lower : Level → Text
lower trace = codes "trace"
lower debug = codes "debug"
lower info = codes "info"
lower warn = codes "warn"
lower err = codes "error"
lower critical = codes "critical"

abbrev pub upper : Level → Text
upper trace = codes "TRACE"
upper debug = codes "DEBUG"
upper info = codes "INFO"
upper warn = codes "WARN"
upper err = codes "ERROR"
upper critical = codes "CRITICAL"

find_level_spelt :
    (level : Level)
    → (find_level (lower level) log_level_map ≡ some level)
      × (find_level (upper level) log_level_map ≡ some level)
unfolding find_level
find_level_spelt trace = (refl, refl)
find_level_spelt debug = (refl, refl)
find_level_spelt info = (refl, refl)
find_level_spelt warn = (refl, refl)
find_level_spelt err = (refl, refl)
find_level_spelt critical = (refl, refl)

lower-ne-nil : (level : Level) → lower level ≢ []
lower-ne-nil trace = cons-ne-nil _ _
lower-ne-nil debug = cons-ne-nil _ _
lower-ne-nil info = cons-ne-nil _ _
lower-ne-nil warn = cons-ne-nil _ _
lower-ne-nil err = cons-ne-nil _ _
lower-ne-nil critical = cons-ne-nil _ _

upper-ne-nil : (level : Level) → upper level ≢ []
upper-ne-nil trace = cons-ne-nil _ _
upper-ne-nil debug = cons-ne-nil _ _
upper-ne-nil info = cons-ne-nil _ _
upper-ne-nil warn = cons-ne-nil _ _
upper-ne-nil err = cons-ne-nil _ _
upper-ne-nil critical = cons-ne-nil _ _

log_level_read :
    (ls : List Line) (key name : Text) (before : Level)
    → All IsLine ls
    → said (codes "logging") key ls ≡ some name
    → name ≢ []
    → get_log_config_from_ini (some (file_of ls)) before key
      ≡ set_or_fail before (find_level name log_level_map)
unfolding get_log_config_from_ini get_str_value_from_ini get
log_level_read ls key [] before h e n = absurd (n refl)
log_level_read ls key (c ∷ cs) before h e n =
    let (config, loaded, found) = load-file_of (codes "logging") key ls h in
    ap (log_config before key) loaded ∙ rw (found ∙ e) refl

-- A log level is read from a file that names it in lower or in upper case, whatever level the
-- program had before.
pub get_log_config_from_ini_written :
    (ls : List Line) (key : Text) (level before : Level)
    → All IsLine ls
    → (said (codes "logging") key ls ≡ some (lower level))
      ⊎ (said (codes "logging") key ls ≡ some (upper level))
    → get_log_config_from_ini (some (file_of ls)) before key ≡ (level, success)
get_log_config_from_ini_written ls key level before h (inl e) =
    log_level_read ls key (lower level) before h e (lower-ne-nil level)
    ∙ ap (set_or_fail before) (find_level_spelt level).0
get_log_config_from_ini_written ls key level before h (inr e) =
    log_level_read ls key (upper level) before h e (upper-ne-nil level)
    ∙ ap (set_or_fail before) (find_level_spelt level).1
