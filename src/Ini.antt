-- ===== src/Ini.antt =====
-- The configuration file: `IniParser` of src/ini.hpp, the readers of src/common.cpp built on it, and
-- the log levels of src/logger.hpp. A file is the text it holds, or `none` if it does not open.
pub mod Trim
pub mod Load
pub mod File
pub mod Params
pub mod Written
mod Tests
use pingweave.Base.{
  ℕ, zero, suc, ◌+◌, ◌-◌, ◌*◌, ◌/◌, ◌%◌, ◌^◌, ◌≤◌, ◌<◌, bit_or, bit_and, ◌≡◌, refl, sym, ap, ap₂,
  subst, ◌∙◌, ◌≢◌, ◌↔◌, ◌⊎◌, inl, inr, ite, if_pos, if_neg, Bool, true, false, not, ◌&&◌, ◌||◌,
  Option, none, some, List, [], ◌∷◌, ◌++◌, map, foldl, filter, Mem, Nodup, Perm, arith, dec_lt,
  dec_le, ℕ_discrete, u64, u32, success, failure, ltb, leb, ◌==◌, if◌then◌else◌, ltb→lt, lt→ltb,
  leb→le, ==_iff, ==_self, Bool-cases, Option-cases, length, get_elem?, get_or, set, All,
  length-append, length-set, get_or-set_self, get_or-set_ne,
}
use pingweave.Base.Int.{ℤ, pos, negsuc, ◌==ℤ◌}
use pingweave.Base.Text.{Text, codes, text_eq, find_first, find_last, substr, lines, drop, take}
use pingweave.Base.Decimal.{stoi}

-- " \t\n\r\f\v"
abbrev pub whitespace : ℕ → Bool
whitespace c = (c == 32) || (leb 9 c && leb c 13)

abbrev pub trim_between : Text → Option ℕ → Option ℕ → Text
trim_between s none last = []
trim_between s (some start) none = []
trim_between s (some start) (some last) = substr s start (last - start + 1)

unfoldable pub trim : Text → Text
trim s =
    trim_between s (find_first (λ c. not (whitespace c)) s) (find_last (λ c. not (whitespace c)) s)

-- `config_`, an entry for each section and key.
pub record Setting : Type 0 where
  pub section : Text
  pub key : Text
  pub value : Text

abbrev pub is_for : Text → Text → Setting → Bool
is_for section key s = text_eq s.section section && text_eq s.key key

-- `config_[section][key] = value`
pub assign : Text → Text → Text → List Setting → List Setting
assign section key value [] = record { section = section; key = key; value = value } ∷ []
assign section key value (s ∷ config) =
    if is_for section key s
    then record s { value = value } ∷ config
    else s ∷ assign section key value config

-- `config_.at(section).at(key)`: `none` is `std::out_of_range`.
pub at : Text → Text → List Setting → Option Text
at section key [] = none
at section key (s ∷ config) = if is_for section key s then some s.value else at section key config

-- What the loop of `load` keeps: the current section and the settings so far.
pub record Loaded : Type 0 where
  pub section : Text
  pub config : List Setting

abbrev pub is_comment : ℕ → Bool
is_comment c = (c == b';') || (c == b'#')

-- The value up to a comment; `i` is where one starts.
abbrev pub cut_comment : Text → Option ℕ → Text
cut_comment value none = value
cut_comment value (some i) = trim (substr value 0 i)

abbrev pub value_of : Text → Text
value_of text = let value = trim text in cut_comment value (find_first is_comment value)

abbrev pub load_setting : Text → Option ℕ → Loaded → Loaded
load_setting line none l = l
load_setting line (some i) l = record l {
  config = assign l.section (trim (substr line 0 i)) (value_of (drop (suc i) line)) l.config;
}

-- The last character of a text that is not empty.
abbrev pub back : Text → ℕ
back [] = 0
back (c ∷ []) = c
back (c ∷ d ∷ ds) = back (d ∷ ds)

abbrev pub is_header : Text → Bool
is_header line = (get_or line 0 0 == b'[') && (back line == b']')

abbrev pub load_trimmed : Text → Loaded → Loaded
load_trimmed [] l = l
load_trimmed (c ∷ cs) l =
    let line = c ∷ cs in
    if is_comment c
    then l
    else (if is_header line
        then record l { section = substr line 1 (length line - 2) }
        else load_setting line (find_first (λ d. d == b'=') line) l)

pub load_line : Text → Loaded → Loaded
load_line line l = load_trimmed (trim line) l

pub load_lines : List Text → Loaded → Loaded
load_lines [] l = l
load_lines (line ∷ rest) l = load_lines rest (load_line line l)

-- `load` of a new parser: `none` if the file does not open.
unfoldable pub load : Option Text → Option (List Setting)
load none = none
load (some text) = some (load_lines (lines text) (record { section = []; config = [] })).config

abbrev pub or_empty : Option Text → Text
or_empty none = []
or_empty (some value) = value

pub get : Text → Text → List Setting → Text
get section key config = or_empty (at section key config)

abbrev pub or_minus_one : Option ℤ → ℤ
or_minus_one none = negsuc 0
or_minus_one (some n) = n

pub get_int : Text → Text → List Setting → ℤ
get_int section key config = or_minus_one (stoi (get section key config))

abbrev pub is_empty : Text → Bool
is_empty [] = true
is_empty (c ∷ cs) = false

abbrev pub is_negative : ℤ → Bool
is_negative (pos n) = false
is_negative (negsuc n) = true

-- The two results of `get_controller_info_from_ini`, as the caller's variables are left.
pub record ControllerInfo : Type 0 where
  pub ip : Text
  pub port : ℤ

abbrev pub checked_info : ControllerInfo → Text → ℤ → ControllerInfo × Bool
checked_info before ip port =
    if is_empty ip
    then (record before { ip = ip }, failure)
    else (record { ip = ip; port = port }, if is_negative port then failure else success)

abbrev pub controller_info : ControllerInfo → Option (List Setting) → ControllerInfo × Bool
controller_info before none = (before, failure)
controller_info before (some parser) =
    checked_info before (get (codes "controller") (codes "host") parser)
      (get_int (codes "controller") (codes "collect_port_http") parser)

pub get_controller_info_from_ini : Option Text → ControllerInfo → ControllerInfo × Bool
get_controller_info_from_ini file before = controller_info before (load file)

-- `none` is the exception.
pub get_int_value_from_ini : List Setting → Text → Text → Option ℤ
get_int_value_from_ini parser section key =
    let value = get_int section key parser in if value ==ℤ negsuc 0 then none else some value

pub get_str_value_from_ini : List Setting → Text → Text → Option Text
get_str_value_from_ini parser section key =
    let value = get section key parser in if is_empty value then none else some value

-- The caller's variable keeps what it had if the call fails.
abbrev pub set_or_fail {ℓ} : {A : Type ℓ} → A → Option A → A × Bool
set_or_fail ret none = (ret, failure)
set_or_fail ret (some value) = (value, success)

abbrev pub int_param : ℤ → Text → Option (List Setting) → ℤ × Bool
int_param ret key none = (ret, failure)
int_param ret key (some parser) =
    set_or_fail ret (get_int_value_from_ini parser (codes "param") key)

unfoldable pub get_int_param_from_ini : Option Text → ℤ → Text → ℤ × Bool
get_int_param_from_ini file ret key = int_param ret key (load file)

-- What a caller goes on with that has a default for a parameter that could not be read.
abbrev pub or_default : {A : Type 0} → A → A × Bool → A
or_default d (v, true) = v
or_default d (v, false) = d

abbrev pub str_param : Text → Text → Option (List Setting) → Text × Bool
str_param ret key none = (ret, failure)
str_param ret key (some parser) =
    set_or_fail ret (get_str_value_from_ini parser (codes "param") key)

pub get_str_param_from_ini : Option Text → Text → Text → Text × Bool
get_str_param_from_ini file ret key = str_param ret key (load file)

-- The levels of the logging library that the program names.
pub data Level : Type 0 where
  trace debug info warn err critical : Level

-- `logLevelMap`
abbrev pub log_level_map : List (Text × Level)
log_level_map =
    (codes "trace", trace)
    ∷ (codes "TRACE", trace)
    ∷ (codes "debug", debug)
    ∷ (codes "DEBUG", debug)
    ∷ (codes "info", info)
    ∷ (codes "INFO", info)
    ∷ (codes "warn", warn)
    ∷ (codes "WARN", warn)
    ∷ (codes "error", err)
    ∷ (codes "ERROR", err)
    ∷ (codes "critical", critical)
    ∷ (codes "CRITICAL", critical)
    ∷ []

pub find_level : Text → List (Text × Level) → Option Level
find_level name [] = none
find_level name ((n, level) ∷ rest) = if text_eq n name then some level else find_level name rest

abbrev pub level_named : Option Text → Option Level
level_named none = none
level_named (some name) = find_level name log_level_map

abbrev pub log_config : Level → Text → Option (List Setting) → Level × Bool
log_config log_level key none = (log_level, failure)
log_config log_level key (some parser) =
    set_or_fail log_level (level_named (get_str_value_from_ini parser (codes "logging") key))

pub get_log_config_from_ini : Option Text → Level → Text → Level × Bool
get_log_config_from_ini file log_level key = log_config log_level key (load file)
