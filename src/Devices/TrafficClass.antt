-- ===== src/Devices/TrafficClass.antt =====
-- The traffic class that a context takes from the configuration file.
use pingweave.Base.{
  ℕ, ◌^◌, ◌<◌, ◌≡◌, refl, ap, inl, inr, Bool, true, false, Option, none, some, List, success,
  failure, if◌then◌else◌, All,
}
use pingweave.Base.Int.{ℤ, pos}
use pingweave.Base.Text.{Text, codes}
use pingweave.Base.Decimal.{print}
use pingweave.Ini.File.{Line, IsLine, file_of}
use pingweave.Ini.Params.{said, IntOutcome, get_int_param_from_ini_lem}
use pingweave.Ini.Written.{get_int_param_from_ini_written}
use pingweave.Devices.{get_traffic_class, traffic_class_or_zero}

-- The key that is read for a protocol.
abbrev pub key_of : Bool → Text
key_of ib = if ib then codes "traffic_class_ib" else codes "traffic_class_roce"

abbrev pub protocol_of : Bool → Text
protocol_of ib = if ib then codes "ib" else codes "roce"

class_missing :
    (ret : ℤ) (found : Option Text) (r : ℤ × Bool)
    → IntOutcome ret found r
    → found ≡ none
    → traffic_class_or_zero r ≡ (pos 0, failure)
class_missing ret found r (inl (m, value, there, number, ne, e)) nothing = absurd (cc)
class_missing ret found r (inr (e, bad)) nothing = rw e refl

-- Either protocol takes the class that the file gives for it in decimal, below 2^31, whatever the
-- class was before.
pub get_traffic_class_written :
    (ib : Bool) (ls : List Line) (before : ℤ) (n : ℕ)
    → All IsLine ls
    → n < 2 ^ 31
    → said (codes "param") (key_of ib) ls ≡ some (print n)
    → get_traffic_class (some (file_of ls)) (protocol_of ib) before ≡ some (pos n, success)
unfolding get_traffic_class
get_traffic_class_written true ls before n h small e =
    ap (λ r. some (traffic_class_or_zero r))
      (get_int_param_from_ini_written ls (codes "traffic_class_ib") before n h e small)
get_traffic_class_written false ls before n h small e =
    ap (λ r. some (traffic_class_or_zero r))
      (get_int_param_from_ini_written ls (codes "traffic_class_roce") before n h e small)

-- Where the file says nothing of it the call fails, and the class is 0.
pub get_traffic_class_missing :
    (ib : Bool) (ls : List Line) (before : ℤ)
    → All IsLine ls
    → said (codes "param") (key_of ib) ls ≡ none
    → get_traffic_class (some (file_of ls)) (protocol_of ib) before ≡ some (pos 0, failure)
unfolding get_traffic_class
get_traffic_class_missing true ls before h e =
    let o = get_int_param_from_ini_lem ls (codes "traffic_class_ib") before h in
    ap some (class_missing before _ _ o e)
get_traffic_class_missing false ls before h e =
    let o = get_int_param_from_ini_lem ls (codes "traffic_class_roce") before h in
    ap some (class_missing before _ _ o e)
