-- ===== src/Ini/Written.antt =====
-- Integer parameters that are written in decimal.
use pingweave.Base.{
  ℕ, ◌^◌, ◌<◌, ◌≡◌, sym, ap, ◌∙◌, inl, inr, Bool, Option, some, List, success, All,
}
use pingweave.Base.Int.{ℤ, pos}
use pingweave.Base.Text.{Text, codes}
use pingweave.Base.Decimal.{print, stoi, stoi-print}
use pingweave.Ini.{get_int_param_from_ini}
use pingweave.Ini.File.{Line, IsLine, file_of}
use pingweave.Ini.Params.{said, IntOutcome, get_int_param_from_ini_lem}

outcome_written :
    (ret : ℤ) (found : Option Text) (n : ℕ) (r : ℤ × Bool)
    → IntOutcome ret found r
    → found ≡ some (print n)
    → n < 2 ^ 31
    → r ≡ (pos n, success)
outcome_written ret found n r (inl (m, value, there, number, ne, e)) here small =
    let same : value ≡ print n = cc in
    let exact : some m ≡ some (pos n) = sym number ∙ ap stoi same ∙ stoi-print n small in
    let m_is : m ≡ pos n = cc in e ∙ ap (λ (k : ℤ). (k, success)) m_is
outcome_written ret found n r (inr (e, bad)) here small =
    let impossible = bad (print n) (pos n) here (stoi-print n small) in absurd (cc)

-- A parameter that the file gives in decimal, below 2^31, is read as that number, whatever the
-- caller's variable held.
pub get_int_param_from_ini_written :
    (ls : List Line) (key : Text) (ret : ℤ) (n : ℕ)
    → All IsLine ls
    → said (codes "param") key ls ≡ some (print n)
    → n < 2 ^ 31
    → get_int_param_from_ini (some (file_of ls)) ret key ≡ (pos n, success)
get_int_param_from_ini_written ls key ret n h e small =
    outcome_written ret _ n _ (get_int_param_from_ini_lem ls key ret h) e small
