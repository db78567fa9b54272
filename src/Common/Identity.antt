-- ===== src/Common/Identity.antt =====
-- What the reports of the three protocols say of the ping they are about.
use pingweave.Base.{
  ℕ, ◌==◌, map, ◌+◌, Bool, true, false, if◌then◌else◌, ◌≡◌, refl, List, [], ◌∷◌, ◌++◌, arith,
}

-- A ping's number, the address it goes to, and the time of its sending.
pub record Identity : Type 0 where
  pub pingid : ℕ
  pub dstip : ℕ
  pub time_ping_send : ℕ

-- The weights of some pings together. With the weight that is 1 on one ping and 0 on all others, this
-- is how often that ping is there.
unfoldable pub weighed : (Identity → ℕ) → List Identity → ℕ
weighed w [] = 0
weighed w (i ∷ is) = w i + weighed w is

pub weighed-if :
    (w : Identity → ℕ) (b : Bool) (i : Identity)
    → weighed w (if b then i ∷ [] else []) ≡ (if b then w i else 0)
unfolding weighed
weighed-if w true i = omega arith
weighed-if w false i = refl

pub weighed-append :
    (w : Identity → ℕ) (is js : List Identity) → weighed w (is ++ js) ≡ weighed w is + weighed w js
unfolding weighed
weighed-append w [] js = omega arith
weighed-append w (i ∷ is) js = omega (arith, weighed-append w is js)

pub weighed-map :
    {M : Type 0} (w : Identity → ℕ) (name : M → Identity) (ms : List M) (m : M)
    → weighed w (map name (ms ++ (m ∷ []))) ≡ weighed w (map name ms) + w (name m)
unfolding weighed
weighed-map w name [] m = omega arith
weighed-map w name (x ∷ ms) m = omega (arith, weighed-map w name ms m)

-- The weight that is 1 on the identity with one number.
abbrev pub one_ping : ℕ → Identity → ℕ
one_ping id i = if i.pingid == id then 1 else 0
