-- ===== src/Gid/Tests.antt =====
-- Runs of the conversions, and instances of their theorems.
use pingweave.Base.{ℕ, ◌≡◌, refl, List, [], ◌∷◌, arith}
use pingweave.Base.Text.{codes}
use pingweave.Gid.{gid_to_wire_gid, wire_gid_to_gid, parsed_gid}
use pingweave.Gid.Wire.{wire_gid_to_gid-gid_to_wire_gid}

-- fe80::ba59:9fff:fec2:1a0b
abbrev link_local : List ℕ
link_local = 254 ∷ 128 ∷ 0 ∷ 0 ∷ 0 ∷ 0 ∷ 0 ∷ 0 ∷ 186 ∷ 89 ∷ 159 ∷ 255 ∷ 254 ∷ 194 ∷ 26 ∷ 11 ∷ []

gid_to_wire_gid_runs : gid_to_wire_gid link_local ≡ codes "fe80000000000000ba599ffffec21a0b"
unfolding gid_to_wire_gid
gid_to_wire_gid_runs = refl

wire_gid_to_gid_runs : wire_gid_to_gid 7 (codes "FE80000000000000BA599FFFFEC21A0B") ≡ link_local
unfolding wire_gid_to_gid
wire_gid_to_gid_runs = refl

parsed_gid_runs : parsed_gid (λ g. codes "fe80::1") [] link_local ≡ codes "fe80::1"
unfolding parsed_gid
parsed_gid_runs = refl

wire_gid_to_gid-gid_to_wire_gid_example :
    wire_gid_to_gid 7 (gid_to_wire_gid link_local) ≡ link_local
wire_gid_to_gid-gid_to_wire_gid_example =
    wire_gid_to_gid-gid_to_wire_gid 7 link_local refl (ground arith)
