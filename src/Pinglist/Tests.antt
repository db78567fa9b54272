-- ===== src/Pinglist/Tests.antt =====
-- Instances of the theorems on the pinglist.
use pingweave.Base.{◌≡◌, refl, true, false, ◌||◌, none, some, List, [], ◌∷◌}
use Prim.Native.String.{String}
use pingweave.Pinglist.{
  Pinglist, StoreEntry, incomplete, pair, tcpudp_addresses, arrow_targets, mesh_targets, arrow_loop,
  mesh_loop, arrow_group, mesh_group, search_ip, add_group, add_new, contains,
}
use pingweave.Pinglist.Exact.{clean, in_mesh, in_arrow, tcpudp_addresses-contains}

-- The second group throws behind this host's address.
abbrev broken : Pinglist
broken = record {
  mesh = some ((some "a" ∷ some "b" ∷ []) ∷ (some "a" ∷ none ∷ some "c" ∷ []) ∷ []);
  arrow = some (incomplete ∷ pair (some "a" ∷ []) (some "b" ∷ some "d" ∷ []) ∷ []);
}

broken_addresses : tcpudp_addresses "a" broken ≡ (("a" ∷ "b" ∷ "d" ∷ []), true)
unfolding tcpudp_addresses arrow_targets mesh_targets arrow_loop mesh_loop arrow_group mesh_group
    search_ip add_group add_new contains
broken_addresses = refl

abbrev groups : List (List String)
groups = ("a" ∷ "b" ∷ []) ∷ ("c" ∷ "e" ∷ []) ∷ []

abbrev pairs : List (List String × List String)
pairs = (("a" ∷ []), ("d" ∷ [])) ∷ (("b" ∷ []), ("f" ∷ [])) ∷ []

tcpudp_addresses-contains_example :
    let (found, threw) = tcpudp_addresses "a" (clean groups pairs) in
    (threw ≡ false) × (contains "d" found ≡ (in_mesh "a" "d" groups || in_arrow "a" "d" pairs))
tcpudp_addresses-contains_example = tcpudp_addresses-contains "a" "d" groups pairs

abbrev entries : List StoreEntry
entries =
    record { ip = some "b"; fields = some ("g1", 1, 2) }
    ∷ record { ip = some "b"; fields = some ("g2", 3, 4) }
    ∷ record { ip = some "d"; fields = some ("g3", 5, 6) }
    ∷ []
