-- ===== src/Supervisor/Restart.antt =====
-- No thread is ever started again, where no function of a thread returns.
use pingweave.Base.{
  ℕ, zero, suc, ◌<◌, ◌≡◌, refl, subst, Bool, true, false, List, [], ◌∷◌, arith, length, get_or, set,
  All, inl, inr, Bool-cases,
}
use pingweave.Threads.{Ending, running, returned, escaped, bare_throw}
use pingweave.Supervisor.{
  Life, working, leaving, joinable, Worker, Alarm, unexpected_termination, Position, looking,
  joining, Process, no_worker, worker_at, end_function, lower_flag, look, Step, fails, leaves,
  leaves_at_once, looks, joins, Reach, here, next, workers, launched,
}

-- The ending does not return, and the flag stays up only while the function runs or where an
-- exception leaves it.
abbrev pub is_lawful : Bool → Ending → Bool
is_lawful alive running = alive
is_lawful alive returned = false
is_lawful alive escaped = true
is_lawful alive bare_throw = true

abbrev pub is_fatal : Ending → Bool
is_fatal running = false
is_fatal returned = false
is_fatal escaped = true
is_fatal bare_throw = true

-- A working thread has its flag up; one whose flag is down is about to end the process.
abbrev pub IsDoomed : Life → Bool → Type 0
IsDoomed working alive = alive ≡ true
IsDoomed (leaving ending) alive = (alive ≡ false) × (is_fatal ending ≡ true)
IsDoomed joinable alive = ⊥

abbrev pub HasDoom : Worker → Type 0
HasDoom w = IsDoomed w.life w.alive

-- Nothing was posted before the supervisor waits for a thread, and then one alarm.
abbrev pub IsSilent : Position → List Alarm → Type 0
IsSilent (looking i) alarms = alarms ≡ []
IsSilent (joining i) alarms = alarms ≡ unexpected_termination i ∷ []

pub record IsUnrestarted (p : Process) : Type 0 where
  pub doomed : All HasDoom p.workers
  pub silent : IsSilent p.position p.alarms

lawful_fatal : (ending : Ending) → is_lawful false ending ≡ true → is_fatal ending ≡ true
lawful_fatal running h = h
lawful_fatal returned h = h
lawful_fatal escaped h = refl
lawful_fatal bare_throw h = refl

All-set :
    (P : Worker → Type 0) (ws : List Worker) (i : ℕ) (w : Worker)
    → All P ws
    → P w
    → All P (set ws i w)
All-set P [] i w h k = tt
All-set P (x ∷ ws) zero w h k = (k, h.1)
All-set P (x ∷ ws) (suc i) w h k = (h.0, All-set P ws i w h.1 k)

leaving-IsDoomed :
    (ws : List Worker) (i : ℕ) (ending : Ending)
    → All HasDoom ws
    → (get_or ws i no_worker).life ≡ leaving ending
    → is_fatal ending ≡ true
leaving-IsDoomed [] i ending h e = absurd (cc)
leaving-IsDoomed (x ∷ ws) zero ending h e = (subst (λ l. IsDoomed l x.alive) e h.0).1
leaving-IsDoomed (x ∷ ws) (suc i) ending h e = leaving-IsDoomed ws i ending h.1 e

joinable-⊥ :
    (ws : List Worker) (i : ℕ)
    → All HasDoom ws
    → i < length ws
    → (get_or ws i no_worker).life ≡ joinable
    → ⊥
joinable-⊥ [] i h l e = absurd (omega arith)
joinable-⊥ (x ∷ ws) zero h l e = subst (λ l. IsDoomed l x.alive) e h.0
joinable-⊥ (x ∷ ws) (suc i) h l e = joinable-⊥ ws i h.1 (omega arith) e

look-IsUnrestarted :
    (i : ℕ) (p : Process) → p.position ≡ looking i → IsUnrestarted p → IsUnrestarted (look i p)
unfolding look
look-IsUnrestarted i p at k =
    let nothing : p.alarms ≡ [] = subst (λ x. IsSilent x p.alarms) at k.silent in
    elim (Bool-cases (worker_at i p).alive) [
      | inl e ↦ rw e (record { doomed = k.doomed; silent = nothing })
      | inr e ↦ rw e (record { doomed = k.doomed; silent = rw nothing refl })
    ]

end_function-IsUnrestarted :
    (i : ℕ) (ending : Ending) (p : Process)
    → is_lawful true ending ≡ true
    → IsUnrestarted p
    → IsUnrestarted (end_function i ending p)
unfolding end_function
end_function-IsUnrestarted i running p h k = k
end_function-IsUnrestarted i returned p h k = absurd (cc)
end_function-IsUnrestarted i escaped p h k = record { doomed = k.doomed; silent = k.silent }
end_function-IsUnrestarted i bare_throw p h k = record { doomed = k.doomed; silent = k.silent }

fatal_lawful : (ending : Ending) → is_fatal ending ≡ true → is_lawful true ending ≡ true
fatal_lawful running h = refl
fatal_lawful returned h = h
fatal_lawful escaped h = refl
fatal_lawful bare_throw h = refl

launched-IsUnrestarted : (n : ℕ) → IsUnrestarted (launched n)
launched-IsUnrestarted n = record { doomed = all n; silent = refl }
  where
    all : (n : ℕ) → All HasDoom (workers n)
    all zero = tt
    all (suc n) = (refl, all n)

module _ (ends : ℕ → Bool → Ending → Type 0)
    (lawful : (i : ℕ) (alive : Bool) (ending : Ending)
      → ends i alive ending
      → is_lawful alive ending ≡ true) where
  Step-IsUnrestarted : {p q : Process} → Step ends p q → IsUnrestarted p → IsUnrestarted q
  unfolding lower_flag
  Step-IsUnrestarted {p} (fails i ending up at e) k = record {
    doomed =
        All-set HasDoom p.workers i (record { alive = false; life = leaving ending }) k.doomed
          (refl, lawful_fatal ending (lawful i false ending e));
    silent = k.silent;
  }
  Step-IsUnrestarted {p} (leaves i ending up at) k =
      end_function-IsUnrestarted i ending p
        (fatal_lawful ending (leaving-IsDoomed p.workers i ending k.doomed at)) k
  Step-IsUnrestarted {p} (leaves_at_once i ending up at e) k =
      end_function-IsUnrestarted i ending p (lawful i true ending e) k
  Step-IsUnrestarted {p} (looks i up at) k = look-IsUnrestarted i p at k
  Step-IsUnrestarted {p} (joins i up at l e) k = absurd (joinable-⊥ p.workers i k.doomed l e)

  pub Reach-IsUnrestarted : (n : ℕ) {p : Process} → Reach ends (launched n) p → IsUnrestarted p
  Reach-IsUnrestarted n here = launched-IsUnrestarted n
  Reach-IsUnrestarted n (next r s) = Step-IsUnrestarted s (Reach-IsUnrestarted n r)
