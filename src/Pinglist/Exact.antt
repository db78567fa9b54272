-- ===== src/Pinglist/Exact.antt =====
-- What a pinglist gives in which nothing throws: exactly the addresses that its groups name.
use pingweave.Base.{
  ◌≡◌, refl, ap, ◌∙◌, inl, inr, Bool, true, false, ◌&&◌, ◌||◌, some, List, [], ◌∷◌, map, arith,
  Bool-cases,
}
use Prim.Native.String.{String}
use pingweave.Pinglist.{
  Texts, ArrowGroup, pair, Pinglist, contains, search_ip, add_group, and_then, mesh_group,
  mesh_loop, arrow_group, arrow_loop, mesh_targets, arrow_targets, add_new, tcpudp_addresses,
}
use pingweave.Pinglist.Targets.{contains-add_new}

-- A file with nothing in it that throws.
abbrev pub texts : List String → Texts
texts = map some

abbrev pub arrow_pair : List String × List String → ArrowGroup
arrow_pair (src, dst) = pair (texts src) (texts dst)

abbrev pub clean : List (List String) → List (List String × List String) → Pinglist
clean groups pairs = record { mesh = some (map texts groups); arrow = some (map arrow_pair pairs) }

-- Is `x` in a group that `me` is in, or in the `dst` of a pair whose `src` has `me`?
abbrev pub in_mesh : String → String → List (List String) → Bool
in_mesh me x [] = false
in_mesh me x (g ∷ gs) = (contains me g && contains x g) || in_mesh me x gs

abbrev pub in_arrow : String → String → List (List String × List String) → Bool
in_arrow me x [] = false
in_arrow me x ((src, dst) ∷ gs) = (contains me src && contains x dst) || in_arrow me x gs

search_texts : (me : String) (g : List String) → search_ip me (texts g) ≡ some (contains me g)
unfolding search_ip contains
search_texts me [] = refl
search_texts me (x ∷ g) = ground (arith, search_texts me g)

add_texts :
    (x : String) (g acc : List String)
    → let (found, threw) = add_group add_new (texts g) acc in
      (threw ≡ false) × (contains x found ≡ (contains x g || contains x acc))
unfolding add_group contains
add_texts x [] acc = (refl, refl)
add_texts x (y ∷ g) acc =
    let (calm, found) = add_texts x g (add_new y acc) in
    (calm, found ∙ ground (arith, contains-add_new x y acc))

mesh_texts :
    (me x : String) (g : List String) (acc : List String)
    → let (found, threw) = mesh_group add_new me (texts g) acc in
      (threw ≡ false) × (contains x found ≡ ((contains me g && contains x g) || contains x acc))
unfolding mesh_group
mesh_texts me x g acc = elim (Bool-cases (contains me g)) [
  | inl h ↦ rw (mesh_group, search_texts me g, h) (add_texts x g acc)
  | inr h ↦ rw (mesh_group, search_texts me g, h) (refl, refl)
]

arrow_texts :
    (me x : String) (src dst acc : List String)
    → let (found, threw) = arrow_group add_new me (arrow_pair (src, dst)) acc in
      (threw ≡ false) × (contains x found ≡ ((contains me src && contains x dst) || contains x acc))
unfolding arrow_group
arrow_texts me x src dst acc = elim (Bool-cases (contains me src)) [
  | inl h ↦ rw (arrow_group, search_texts me src, h) (add_texts x dst acc)
  | inr h ↦ rw (arrow_group, search_texts me src, h) (refl, refl)
]

and_then-calm :
    {S : Type 0} (r : S × Bool) (next : S → S × Bool) → r.1 ≡ false → and_then r next ≡ next r.0
and_then-calm (s, true) next h = ground arith
and_then-calm (s, false) next h = refl

or_swap : (a b c : Bool) → (b || (a || c)) ≡ ((a || b) || c)
or_swap a b c = ground arith

mesh_loop_lem :
    (me x : String) (gs : List (List String)) (acc : List String)
    → let (found, threw) = mesh_loop add_new me (map texts gs) acc in
      (threw ≡ false) × (contains x found ≡ (in_mesh me x gs || contains x acc))
unfolding mesh_loop
mesh_loop_lem me x [] acc = (refl, refl)
mesh_loop_lem me x (g ∷ gs) acc =
    let r = mesh_group add_new me (texts g) acc in
    let (calm, here) = mesh_texts me x g acc in
    let (quiet, there) = mesh_loop_lem me x gs r.0 in
    rw (and_then-calm r (mesh_loop add_new me (map texts gs)) calm) (
      quiet,
      there
          ∙ ap (λ b. in_mesh me x gs || b) here
          ∙ or_swap (contains me g && contains x g) (in_mesh me x gs) (contains x acc),
    )

arrow_loop_lem :
    (me x : String) (gs : List (List String × List String)) (acc : List String)
    → let (found, threw) = arrow_loop add_new me (map arrow_pair gs) acc in
      (threw ≡ false) × (contains x found ≡ (in_arrow me x gs || contains x acc))
unfolding arrow_loop
arrow_loop_lem me x [] acc = (refl, refl)
arrow_loop_lem me x ((src, dst) ∷ gs) acc =
    let r = arrow_group add_new me (arrow_pair (src, dst)) acc in
    let (calm, here) = arrow_texts me x src dst acc in
    let (quiet, there) = arrow_loop_lem me x gs r.0 in
    rw (and_then-calm r (arrow_loop add_new me (map arrow_pair gs)) calm) (
      quiet,
      there
          ∙ ap (λ b. in_arrow me x gs || b) here
          ∙ or_swap (contains me src && contains x dst) (in_arrow me x gs) (contains x acc),
    )

-- From a file with nothing in it that throws, the addresses are those of the mesh groups that this
-- host is in, and the destinations of the arrow groups that have it as a source; no others.
pub tcpudp_addresses-contains :
    (me x : String) (groups : List (List String)) (pairs : List (List String × List String))
    → let (found, threw) = tcpudp_addresses me (clean groups pairs) in
      (threw ≡ false) × (contains x found ≡ (in_mesh me x groups || in_arrow me x pairs))
unfolding tcpudp_addresses mesh_targets arrow_targets contains
tcpudp_addresses-contains me x groups pairs =
    let s = mesh_loop add_new me (map texts groups) [] in
    let (calm, m) = mesh_loop_lem me x groups [] in
    let (quiet, a) = arrow_loop_lem me x pairs s.0 in ground (arith, calm, m, quiet, a)
