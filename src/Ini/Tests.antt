-- ===== src/Ini/Tests.antt =====
-- Runs of the parser, and instances of its theorems.
use pingweave.Base.{◌≡◌, refl, none, some, List, [], ◌∷◌, arith, All, true}
use pingweave.Base.Text.{codes}
use pingweave.Base.Int.{negsuc, pos}
use pingweave.Base.Decimal.{stoi, print}
use pingweave.Ini.{
  trim, ControllerInfo, get_controller_info_from_ini, Setting, load, at, get_int_param_from_ini,
}
use pingweave.Ini.File.{Line, blank, comment, header, setting, IsLine, file_of, load-file_of}
use pingweave.Ini.Params.{
  IntOutcome, get_int_param_from_ini_lem, get_controller_info_from_ini_written,
}
use pingweave.Ini.Trim.{trim_lem, strip_end, strip_front}

abbrev sample : List Line
sample =
    comment [] b';' (codes " agent")
    ∷ header [] (codes "controller") []
    ∷ setting [] (codes "host") (codes " ") (codes " 10.0.0.1")
    ∷ setting (codes " ") (codes "collect_port_http") (codes " ") (codes " 24704 ; http")
    ∷ blank []
    ∷ header [] (codes "param") (codes " ")
    ∷ setting [] (codes "interval") [] (codes "10")
    ∷ setting [] (codes "interval") [] (codes "25 # again")
    ∷ header [] (codes "logging") []
    ∷ setting [] (codes "udp") [] (codes " WARN")
    ∷ []

sample-IsLine : All IsLine sample
sample-IsLine = ground arith

printed : some (codes "24704") ≡ some (print 24704)
unfolding print
printed = refl

trim_runs : trim (codes "  a b ") ≡ codes "a b"
unfolding trim
trim_runs = refl

stoi_runs : (stoi (codes " -12x") ≡ some (negsuc 11)) × (stoi (codes "2147483648") ≡ none)
unfolding stoi
stoi_runs = (refl, refl)

load-file_of_example :
    (config : List Setting) × (load (some (file_of sample)) ≡ some config)
    × (at (codes "param") (codes "interval") config ≡ some (codes "25"))
unfolding trim
load-file_of_example = load-file_of (codes "param") (codes "interval") sample sample-IsLine

get_int_param_from_ini_lem_example :
    IntOutcome
      (pos 1)
      (some (codes "25"))
      (get_int_param_from_ini (some (file_of sample)) (pos 1) (codes "interval"))
unfolding trim
get_int_param_from_ini_lem_example =
    get_int_param_from_ini_lem sample (codes "interval") (pos 1) sample-IsLine

abbrev unset : ControllerInfo
unset = record { ip = []; port = pos 0 }

get_controller_info_from_ini_written_example :
    get_controller_info_from_ini (some (file_of sample)) unset
    ≡ (record { ip = codes "10.0.0.1"; port = pos 24704 }, true)
unfolding trim
get_controller_info_from_ini_written_example =
    get_controller_info_from_ini_written sample unset (codes "10.0.0.1") 24704 sample-IsLine refl
      (λ e. absurd (cc)) printed (omega arith)

trim_lem_example : trim (codes "  a b ") ≡ strip_end (strip_front (codes "  a b "))
trim_lem_example = trim_lem (codes "  a b ")
