-- ===== src/Devices/Tests.antt =====
-- Runs of the lookups, and instances of their theorems.
use pingweave.Base.{
  ℕ, zero, suc, ◌≡◌, refl, ◌⊎◌, true, false, Option, none, some, List, [], ◌∷◌, arith,
}
use pingweave.Base.Int.{pos}
use pingweave.Base.Text.{Text, codes, lines}
use pingweave.Base.Decimal.{stoi}
use pingweave.Gid.{wire_gid_to_gid}
use pingweave.Devices.{
  Interface, Context, Found, opened, use_after_free, returns, get_context_by_ifname,
  get_context_by_ip, PortInfo, find_active_port, get_gid_table_index,
}
use pingweave.Devices.{is_preferred, gid_loop, port_loop, read_entries, try_interfaces}
use pingweave.Devices.Choice.{get_gid_table_index_lem, IsHighest, IsNowhere, holds, is_usable}
use pingweave.Devices.Info.{Disk, Info, save_device_info, save_device_info_lem}

-- A table with a link-local GID, and an address mapped from IPv4 twice.
abbrev table : ℕ → Option Text
table zero = some (codes "fe80::ba59")
table (suc zero) = some (codes "::ffff:10.0.0.1")
table (suc (suc zero)) = some (codes "::ffff:10.0.0.2")
table (suc (suc (suc n))) = some (codes "fe80::")

get_gid_table_index_runs : get_gid_table_index table (some 4) ≡ some 2
unfolding get_gid_table_index gid_loop
get_gid_table_index_runs = refl

get_gid_table_index_lem_example :
    ((i : ℕ) × (get_gid_table_index table (some 4) ≡ some i)
      × IsHighest (λ i. holds is_preferred (table i)) i 4)
    ⊎ (IsNowhere (λ i. holds is_preferred (table i)) 4
        × (((i : ℕ) × (get_gid_table_index table (some 4) ≡ some i)
              × IsHighest (λ i. holds is_usable (table i)) i 4)
            ⊎ ((get_gid_table_index table (some 4) ≡ none)
                × IsNowhere (λ i. holds is_usable (table i)) 4)))
get_gid_table_index_lem_example = get_gid_table_index_lem table 4

abbrev ports : ℕ → Option PortInfo
ports zero = none
ports (suc zero) = some (record { lid = 3; is_active = false })
ports (suc (suc n)) = some (record { lid = 7; is_active = true })

find_active_port_runs :
    find_active_port ports (some 2) (record { lid = 0; is_active = false })
    ≡ (record { lid = 7; is_active = true }, some 2)
unfolding find_active_port port_loop
find_active_port_runs = refl

abbrev devices : List Text
devices = codes "mlx5_0" ∷ codes "mlx5_1" ∷ []

-- The second entry names a device, and is not reached.
get_context_by_ifname_runs :
    get_context_by_ifname (some (codes "." ∷ codes "mlx5_9" ∷ codes "mlx5_1" ∷ [])) (some devices)
    ≡ use_after_free
unfolding get_context_by_ifname read_entries
get_context_by_ifname_runs = refl

abbrev eth : Interface
eth = record {
  name = codes "eth1";
  addr = some (record { is_inet = true; host = some (codes "10.0.0.1") });
}

abbrev by_name : Text → Found
by_name name = opened 1

abbrev fresh : Context
fresh = record { ipv4 = codes "10.0.0.1"; iface = []; device = none }

abbrev bound : Context
bound = record { ipv4 = codes "10.0.0.1"; iface = codes "eth1"; device = some 40 }

get_context_by_ip_runs :
    get_context_by_ip (λ i. some 40) by_name (some (eth ∷ [])) fresh ≡ returns bound true
unfolding get_context_by_ip try_interfaces
get_context_by_ip_runs = refl

abbrev gid : List ℕ
gid = 254 ∷ 128 ∷ 0 ∷ 0 ∷ 0 ∷ 0 ∷ 0 ∷ 0 ∷ 186 ∷ 89 ∷ 159 ∷ 255 ∷ 254 ∷ 194 ∷ 26 ∷ 11 ∷ []

abbrev server : Info
server = record { ipv4 = codes "10.0.0.1"; gid = gid; lid = 3; qp_num = 1034 }

abbrev disk : Disk
disk = record {
  dir_exists = false;
  mkdir_ok = true;
  open_ok = true;
  write_ok = true;
  flush_ok = true;
  partial = λ t. [];
}

saved : (save_device_info disk (codes "/up") server (codes "now")).1 ≡ true
unfolding save_device_info
saved = refl

save_device_info_lem_example :
    (text : Text) × (g : Text) × (l : Text) × (q : Text) × ((save_device_info disk
        (codes "/up")
        server
        (codes "now")).0
      ≡ some (codes "/up/10.0.0.1", text))
    × (lines text ≡ g ∷ l ∷ q ∷ codes "now" ∷ [])
    × (wire_gid_to_gid 0 g ≡ gid)
    × (stoi l ≡ some (pos 3))
    × (stoi q ≡ some (pos 1034))
save_device_info_lem_example =
    save_device_info_lem disk (codes "/up") server b'n' (codes "ow") 0 refl (ground arith)
      (omega arith) (omega arith) (ground arith) refl saved
