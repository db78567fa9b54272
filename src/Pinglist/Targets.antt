-- ===== src/Pinglist/Targets.antt =====
-- Which addresses a pinglist gives.
use pingweave.Base.{
  ◌≡◌, refl, sym, ap, inl, inr, Bool, true, false, not, ◌&&◌, ◌||◌, Option, none, some, List, [],
  ◌∷◌, ◌++◌, arith, Option-cases,
}
use text.Mathlib.Text.{◌==◌ as str_eq}
use text.Mathlib.TextEquality.{eq_iff}
use Prim.Native.String.{String}
use pingweave.Pinglist.{
  Texts, ArrowGroup, incomplete, pair, Pinglist, contains, search_ip, add_group, and_then,
  mesh_group, mesh_loop, arrow_group, arrow_loop, mesh_targets, arrow_targets, add_new,
  tcpudp_addresses,
}

-- Both loops keep what adding a target keeps, also where reading throws.
module _ {S : Type 0} (add : String → S → S) (P : S → Type 0)
    (kept : (ip : String) (s : S) → P s → P (add ip s)) where
  add_group-keeps : (g : Texts) (s : S) → P s → P (add_group add g s).0
  unfolding add_group
  add_group-keeps [] s h = h
  add_group-keeps (none ∷ g) s h = h
  add_group-keeps (some ip ∷ g) s h = add_group-keeps g (add ip s) (kept ip s h)

  and_then-keeps :
      (r : S × Bool) (next : S → S × Bool)
      → P r.0
      → ((s : S) → P s → P (next s).0)
      → P (and_then r next).0
  and_then-keeps (s, true) next h k = h
  and_then-keeps (s, false) next h k = k s h

  mesh_group-keeps : (me : String) (g : Texts) (s : S) → P s → P (mesh_group add me g s).0
  unfolding mesh_group
  mesh_group-keeps me g s h = elim (Option-cases (search_ip me g)) [
    | inl e ↦ rw (mesh_group, e) h
    | inr (true, e) ↦ rw (mesh_group, e) (add_group-keeps g s h)
    | inr (false, e) ↦ rw (mesh_group, e) h
  ]

  mesh_loop-keeps : (me : String) (gs : List Texts) (s : S) → P s → P (mesh_loop add me gs s).0
  unfolding mesh_loop
  mesh_loop-keeps me [] s h = h
  mesh_loop-keeps me (g ∷ gs) s h =
      and_then-keeps (mesh_group add me g s) (mesh_loop add me gs) (mesh_group-keeps me g s h)
        (mesh_loop-keeps me gs)

  arrow_group-keeps : (me : String) (g : ArrowGroup) (s : S) → P s → P (arrow_group add me g s).0
  unfolding arrow_group
  arrow_group-keeps me incomplete s h = h
  arrow_group-keeps me (pair src dst) s h = elim (Option-cases (search_ip me src)) [
    | inl e ↦ rw (arrow_group, e) h
    | inr (true, e) ↦ rw (arrow_group, e) (add_group-keeps dst s h)
    | inr (false, e) ↦ rw (arrow_group, e) h
  ]

  arrow_loop-keeps :
      (me : String) (gs : List ArrowGroup) (s : S) → P s → P (arrow_loop add me gs s).0
  unfolding arrow_loop
  arrow_loop-keeps me [] s h = h
  arrow_loop-keeps me (g ∷ gs) s h =
      and_then-keeps (arrow_group add me g s) (arrow_loop add me gs) (arrow_group-keeps me g s h)
        (arrow_loop-keeps me gs)

  mesh_targets-keeps :
      (me : String) (gs : Option (List Texts)) (s : S) → P s → P (mesh_targets add me gs s).0
  unfolding mesh_targets
  mesh_targets-keeps me none s h = h
  mesh_targets-keeps me (some gs) s h = mesh_loop-keeps me gs s h

  arrow_targets-keeps :
      (me : String) (gs : Option (List ArrowGroup)) (s : S) → P s → P (arrow_targets add me gs s).0
  unfolding arrow_targets
  arrow_targets-keeps me none s h = h
  arrow_targets-keeps me (some gs) s h = arrow_loop-keeps me gs s h

  pub targets-keep :
      (me : String) (p : Pinglist) (s : S)
      → P s
      → P (arrow_targets add me p.arrow (mesh_targets add me p.mesh s).0).0
  targets-keep me p s h =
      arrow_targets-keeps me p.arrow (mesh_targets add me p.mesh s).0
        (mesh_targets-keeps me p.mesh s h)

str_eq_sym : (s t : String) → str_eq s t ≡ str_eq t s
str_eq_sym s t = ground (arith, eq_iff s t, eq_iff t s, λ (h : s ≡ t). sym h, λ (h : t ≡ s). sym h)

abbrev pub distinct : List String → Bool
distinct [] = true
distinct (x ∷ xs) = not (contains x xs) && distinct xs

pub contains-append :
    (x ip : String) (xs : List String)
    → contains x (xs ++ (ip ∷ [])) ≡ (contains x xs || str_eq ip x)
unfolding contains
contains-append x ip [] = ground arith
contains-append x ip (y ∷ xs) = ground (arith, contains-append x ip xs)

pub distinct-append :
    (ip : String) (xs : List String)
    → contains ip xs ≡ false
    → distinct xs ≡ true
    → distinct (xs ++ (ip ∷ [])) ≡ true
unfolding contains
distinct-append ip [] h d = refl
distinct-append ip (x ∷ xs) h d =
    ground (arith, contains-append x ip xs, distinct-append ip xs, str_eq_sym x ip)

add_new-distinct :
    (ip : String) (xs : List String) → distinct xs ≡ true → distinct (add_new ip xs) ≡ true
unfolding add_new
add_new-distinct ip xs d = ground (arith, distinct-append ip xs)

contains-equal :
    (s t : String) (xs : List String) → str_eq s t ≡ true → contains s xs ≡ contains t xs
contains-equal s t xs h = ap (λ u. contains u xs) ((eq_iff s t).0 h)

pub contains-add_new :
    (x ip : String) (xs : List String) → contains x (add_new ip xs) ≡ (str_eq ip x || contains x xs)
unfolding add_new
contains-add_new x ip xs = ground (arith, contains-append x ip xs, contains-equal ip x xs)

-- No address is listed twice, whatever the file holds and wherever reading it throws.
pub tcpudp_addresses-distinct :
    (me : String) (p : Pinglist) → distinct (tcpudp_addresses me p).0 ≡ true
unfolding tcpudp_addresses
tcpudp_addresses-distinct me p =
    targets-keep add_new (λ xs. distinct xs ≡ true) add_new-distinct me p [] refl
