-- ===== src/Scheduler/Rounds.antt =====
-- `next` goes round the addresses, and its pauses end when the next ping is due.
use pingweave.Base.{
  ℕ, suc, ◌+◌, ◌*◌, ◌%◌, ◌≤◌, ◌<◌, ◌≡◌, refl, sym, ap, ◌∙◌, Option, none, some, List, [], ◌∷◌, ◌++◌,
  map, arith, length, get_elem?, length-append,
}
use native.Mathlib.Nat.{mod-eq_of_lt, mod_self, zero-mod}
use mathlib.Core.List.{append-nil}
use pingweave.Scheduler.{Scheduler, pick, elapsed_us, ping_next}

-- Each time is due: the interval has passed since the one before.
abbrev pub Due : ℕ → ℕ → List ℕ → Type 0
Due interval last [] = Unit
Due interval last (t ∷ ts) = (interval * 1000 + last ≤ t) × Due interval t ts

module _ {A : Type 0} where
  pub pick_at :
      (idle_us now : ℕ) (s : Scheduler A) (a : A)
      → s.addr_idx < length s.address_info
      → get_elem? s.address_info s.addr_idx ≡ some a
      → pick idle_us now s ≡ (
        record s { last_ping_time = now; addr_idx = (s.addr_idx + 1) % length s.address_info },
        some a,
        0,
      )
  unfolding pick
  pick_at idle_us now s a h e =
      let m : s.addr_idx % length s.address_info ≡ s.addr_idx = mod-eq_of_lt h in
      rw (pick, m, e) refl

  -- Calls of `ping_next` at the given times, and what they return.
  unfoldable pub pings : ℕ → List ℕ → Scheduler A → Scheduler A × List (Option A)
  pings idle_us [] s = (s, [])
  pings idle_us (t ∷ ts) s =
      let (s1, a, _sleep) = ping_next idle_us t s in
      let (s2, found) = pings idle_us ts s1 in (s2, a ∷ found)

  pub due_pick :
      (idle_us t : ℕ) (s : Scheduler A)
      → s.inter_ping_interval_us * 1000 + s.last_ping_time ≤ t
      → ping_next idle_us t s ≡ pick idle_us t s
  unfolding ping_next
  due_pick idle_us t s h = ground arith

  get-append : (pre suf : List A) (a : A) → get_elem? (pre ++ (a ∷ suf)) (length pre) ≡ some a
  get-append [] suf a = refl
  get-append (x ∷ pre) suf a = get-append pre suf a

  length-split :
      (pre suf : List A) (a : A) → length (pre ++ (a ∷ suf)) ≡ length pre + suc (length suf)
  length-split pre suf a = length-append pre (a ∷ suf)

  append-step : (pre suf : List A) (a : A) → pre ++ (a ∷ suf) ≡ (pre ++ (a ∷ [])) ++ suf
  append-step [] suf a = refl
  append-step (x ∷ pre) suf a = ap (λ l. x ∷ l) (append-step pre suf a)

  -- From the place behind `pre` on.
  rest_of_round :
      (idle_us : ℕ) (ts : List ℕ) (pre suf : List A) (s : Scheduler A)
      → s.address_info ≡ pre ++ suf
      → s.addr_idx ≡ length pre % length s.address_info
      → length ts ≡ length suf
      → Due s.inter_ping_interval_us s.last_ping_time ts
      → let (s2, found) = pings idle_us ts s in
        (found ≡ map some suf) × (s2.address_info ≡ s.address_info) × (s2.addr_idx ≡ 0)
  unfolding pings
  rest_of_round idle_us [] pre [] s e i l d =
      let same : length pre ≡ length s.address_info = sym (ap length (e ∙ append-nil pre)) in
      (refl, refl, i ∙ rw same (mod_self (length s.address_info)))
  rest_of_round idle_us [] pre (a ∷ suf) s e i l d = absurd (omega (arith, l))
  rest_of_round idle_us (t ∷ ts) pre [] s e i l d = absurd (omega (arith, l))
  rest_of_round idle_us (t ∷ ts) pre (a ∷ suf) s e i l (due, d) =
      let n : length s.address_info ≡ length pre + suc (length suf) =
        ap length e ∙ length-split pre suf a in
      let at : s.addr_idx ≡ length pre = i ∙ mod-eq_of_lt (omega (arith, n)) in
      let got : get_elem? s.address_info s.addr_idx ≡ some a = rw (e, at) (get-append pre suf a) in
      let step = due_pick idle_us t s due ∙ pick_at idle_us t s a (omega (arith, n, at)) got in
      let s1 = record s {
        last_ping_time = t;
        addr_idx = (s.addr_idx + 1) % length s.address_info;
      } in
      let idx : (s.addr_idx + 1) % length s.address_info
          ≡ length (pre ++ (a ∷ [])) % length s.address_info =
        ap (λ k. k % length s.address_info) (omega (arith, at, length-append pre (a ∷ []))) in
      let (found, same, zeroed) =
        rest_of_round idle_us ts (pre ++ (a ∷ [])) suf s1 (e ∙ append-step pre suf a) idx
          (omega (arith, l)) d in
      rw step (ap (λ l. some a ∷ l) found, same, zeroed)

  -- As many calls as there are addresses, from the first address on and each at a time when a ping
  -- is due, return every address once, in the order of the list; the next call starts over.
  pub round :
      (idle_us : ℕ) (ts : List ℕ) (s : Scheduler A)
      → s.addr_idx ≡ 0
      → length ts ≡ length s.address_info
      → Due s.inter_ping_interval_us s.last_ping_time ts
      → let (s', found) = pings idle_us ts s in
        (found ≡ map some s.address_info) × (s'.address_info ≡ s.address_info) × (s'.addr_idx ≡ 0)
  round idle_us ts s z l d =
      rest_of_round idle_us ts [] s.address_info s refl (z ∙ sym (zero-mod (length s.address_info)))
        l d

  -- A call that comes too soon returns no address, leaves the scheduler as it is, and names a
  -- pause that is positive, no longer than the interval, and after which a ping is due.
  pub too_soon :
      (idle_us now : ℕ) (s : Scheduler A)
      → s.last_ping_time ≤ now
      → elapsed_us now s.last_ping_time < s.inter_ping_interval_us
      → let (s', a, sleep_us) = ping_next idle_us now s in
        let later = now + sleep_us * 1000 in
        (s' ≡ s)
        × (a ≡ none)
        × (0 < sleep_us)
        × (sleep_us ≤ s.inter_ping_interval_us)
        × (ping_next idle_us later s ≡ pick idle_us later s)
  unfolding ping_next
  too_soon idle_us now s h p = ground arith
