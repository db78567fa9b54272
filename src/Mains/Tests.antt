-- ===== src/Mains/Tests.antt =====
-- Instances of the theorems on the main functions.
use Prim.Native.String.{String}
use pingweave.Base.{true, List, [], ◌∷◌}
use pingweave.Base.Text.{codes}
use pingweave.Ini.File.{Line, header, setting}
use pingweave.RdmaContext.Setup.{Attempt, Outcome}

abbrev config : List Line
config =
    header [] (codes "logging") []
    ∷ setting [] (codes "logger_cpp_process_rdma_server") (codes " ") (codes " info")
    ∷ []

abbrev all_well : Outcome
all_well = record {
  active_port_ok = true;
  gid_index_ok = true;
  channel_ok = true;
  pd_ok = true;
  memory_ok = λ i. true;
  register_ok = λ i. true;
  cq_ok = true;
  qp_ok = true;
  modify_ok = true;
}

abbrev good : Attempt
good = record { context_by_ip_ok = true; init = all_well; prepare_ok = true; query_gid_ok = true }

abbrev args : List String
args = "10.0.0.2" ∷ "roce" ∷ []
