-- ===== src/Supervisor/Lawful.antt =====
-- How a thread's function ends: it never returns, and its flag is down where it is left through its
-- loop.
use pingweave.Base.{◌≡◌, refl, subst, Bool, true, false, List, [], ◌∷◌}
use pingweave.RdmaServer.{Exit, done, thrown}
use pingweave.Supervisor.Restart.{is_lawful}
use pingweave.Threads.{Ending, Outcome, thread_loop}

abbrev pub EndsSo : {S : Type 0} → Outcome S → Bool → Ending → Type 0
EndsSo o alive ending = (o.thread_alive ≡ alive) × (o.ending ≡ ending)

abbrev pub IsLawful : {S : Type 0} → Outcome S → Type 0
IsLawful o = is_lawful o.thread_alive o.ending ≡ true

pub lawful_end :
    {was is : Bool} {before at : Ending}
    → is_lawful was before ≡ true
    → (was ≡ is) × (before ≡ at)
    → is_lawful is at ≡ true
lawful_end {was} {is} {before} {at} h (a, e) =
    subst (λ x. is_lawful is x ≡ true) e (subst (λ x. is_lawful x before ≡ true) a h)

pub thread_loop-IsLawful :
    {E S : Type 0} (round : E → S → S × Exit) (es : List E) (s : S)
    → IsLawful (thread_loop round es s)
unfolding thread_loop
thread_loop-IsLawful round [] s = refl
thread_loop-IsLawful {S = S} round (e ∷ es) s =
    cases (round e s).1 (thread_loop-IsLawful round es (round e s).0)
  where
    cases :
        (exit : Exit)
        → IsLawful (thread_loop round es (round e s).0)
        → let o : Outcome S = (elim exit [
          | done ↦ thread_loop round es (round e s).0
          | thrown ↦ record { state = (round e s).0; thread_alive = false; ending = Ending.escaped }
        ]) in
          IsLawful o
    cases done ih = ih
    cases thrown ih = refl
