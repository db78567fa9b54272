-- ===== src/Threads.antt =====
-- What the functions of the threads have in common, in src/rdma_server.cpp, src/rdma_client.cpp,
-- src/udp_client.cpp and src/tcp_client.cpp: an endless loop of rounds in a `try`, whose handler
-- lowers the thread's flag and throws again. `thread_alive` is the flag as the function leaves it.
--
-- What the thread meets in its rounds is a list; where the list ends, the thread is still running.

use pingweave.Base.{Bool, true, false, List, [], ◌∷◌}
use pingweave.RdmaServer.{Exit, done, thrown}

-- How the function stands: it is running, it returned, an exception left it, or it reached `throw;`
-- with no exception to throw again.
pub data Ending : Type 0 where
  running returned escaped bare_throw : Ending

pub record Outcome (S : Type 0) : Type 0 where
  pub state : S
  pub thread_alive : Bool
  pub ending : Ending

-- The function is left before its loop, its flag lowered.
abbrev pub fails : {S : Type 0} → Ending → S → Outcome S
fails ending s = record { state = s; thread_alive = false; ending = ending }

module _ {E S : Type 0} (round : E → S → S × Exit) where
  unfoldable pub thread_loop : List E → S → Outcome S
  thread_loop [] s = record { state = s; thread_alive = true; ending = running }
  thread_loop (e ∷ es) s =
      let (s', exit) = round e s in
      let rest = thread_loop es s' in
      elim exit [
        | done ↦ rest
        | thrown ↦ record { state = s'; thread_alive = false; ending = escaped }
      ]
