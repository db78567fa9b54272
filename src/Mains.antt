-- ===== src/Mains.antt =====
-- `main` of src/rdma_server.cpp, src/rdma_client.cpp, src/udp_client.cpp, src/udp_server.cpp,
-- src/tcp_client.cpp and src/tcp_server.cpp, and what the function of each program does before its
-- endless loop. The arguments are those behind the program's name. `none` is a program that runs;
-- otherwise it has ended with that code.
pub mod Codes
mod Tests
use Prim.Native.String.{String}
use text.Mathlib.Text.{◌==◌ as str_eq}
use pingweave.Base.{
  Bool, true, false, not, ◌&&◌, ◌||◌, ℕ, Option, none, some, List, [], ◌∷◌, if◌then◌else◌,
}
use pingweave.Base.Text.{Text, codes}
use pingweave.Ini.{Level, get_log_config_from_ini}
use pingweave.RdmaContext.Setup.{Attempt, initialize_contexts}

abbrev pub asks_for_help : String → Bool
asks_for_help arg = str_eq arg "-h" || str_eq arg "--help"

-- `main` around the function of a program, which throws or, if it gets as far as its loop, runs.
abbrev pub run_or_fail : Bool → Option ℕ
run_or_fail true = none
run_or_fail false = some 1

unfoldable pub rdma_main : (String → String → Bool) → List String → Option ℕ
rdma_main program [] = some 1
rdma_main program (arg ∷ []) = if asks_for_help arg then some 0 else some 1
rdma_main program (ipv4 ∷ protocol ∷ []) =
    if not (str_eq protocol "roce") && not (str_eq protocol "ib")
    then some 1
    else run_or_fail (program ipv4 protocol)
rdma_main program (a ∷ b ∷ c ∷ args) = some 1

unfoldable pub tcpudp_main : (String → Bool) → List String → Option ℕ
tcpudp_main program [] = some 1
tcpudp_main program (arg ∷ []) = if asks_for_help arg then some 0 else run_or_fail (program arg)
tcpudp_main program (a ∷ b ∷ args) = some 1

-- Whether the level of a logger can be read; `before` is what an uninitialised variable holds.
abbrev pub has_level : Option Text → Level → Text → Bool
has_level file before key = (get_log_config_from_ini file before key).1

-- The start of `rdma_server`: its logger, its contexts, and the file with the device information,
-- where the RX context has a queue pair: where its set-up fails before, `initialize_contexts` still
-- says success and `save_device_info` follows an uninitialised pointer.
unfoldable pub rdma_server_starts : Option Text → Level → Attempt → Attempt → Bool → Bool
rdma_server_starts file before tx rx saved =
    has_level file before (codes "logger_cpp_process_rdma_server")
    && (initialize_contexts tx rx && saved)

unfoldable pub rdma_client_starts : Option Text → Level → Attempt → Attempt → Bool
rdma_client_starts file before tx rx =
    has_level file before (codes "logger_cpp_process_rdma_client")
    && (has_level file before (codes "logger_cpp_process_rdma_result")
        && (has_level file before (codes "logger_cpp_process_rdma_ping_table")
            && initialize_contexts tx rx))

-- For UDP and TCP `contexts` is the result of `initialize_contexts`, or of `make_ctx`.
unfoldable pub udp_client_starts : Option Text → Level → Bool → Bool
udp_client_starts file before contexts =
    has_level file before (codes "logger_cpp_process_udp_client")
    && (has_level file before (codes "logger_cpp_process_udp_result")
        && (has_level file before (codes "logger_cpp_process_udp_ping_table") && contexts))

unfoldable pub tcp_client_starts : Option Text → Level → Bool
tcp_client_starts file before =
    has_level file before (codes "logger_cpp_process_tcp_client")
    && (has_level file before (codes "logger_cpp_process_tcp_result")
        && has_level file before (codes "logger_cpp_process_tcp_ping_table"))

unfoldable pub udp_server_starts : Option Text → Level → Bool → Bool
udp_server_starts file before context =
    has_level file before (codes "logger_cpp_process_udp_server") && context

unfoldable pub tcp_server_starts : Option Text → Level → Bool → Bool
tcp_server_starts file before context =
    has_level file before (codes "logger_cpp_process_tcp_server") && context
