-- ===== src/Supervisor/Tests.antt =====
-- Instances of the theorems on the supervising loops.
use pingweave.Base.{ℕ, ◌+◌, refl, Bool, true, false, some, List, [], ◌∷◌, ◌++◌}
use pingweave.Base.Text.{Text, codes}
use pingweave.Common.{Net}
use pingweave.Messages.{RdmaPingMsg, RdmaAddr, RdmaResultMsg}
use pingweave.RdmaContext.{Verbs, Context}
use pingweave.RdmaClient.{Client}
use pingweave.RdmaClient.Threads.{rdma_client_rx_thread}
use pingweave.RdmaContext.{post_recv}
use pingweave.RdmaServer.Threads.{post_all}
use pingweave.Threads.{Ending, bare_throw}
use pingweave.Supervisor.{
  Process, look, lower_flag, end_function, Reach, here, next, fails, looks, leaves, launched,
}
use pingweave.Supervisor.Restart.{IsUnrestarted}
use pingweave.Supervisor.Clients.{RdmaClientEnds, rdma_client-IsUnrestarted}

abbrev net : Net
net = record { inet_pton = λ _. some 0x0200_000a; undef = 0 }

abbrev try_enqueue : List RdmaResultMsg → RdmaResultMsg → List RdmaResultMsg × Bool
try_enqueue q m = (q ++ (m ∷ []), true)

abbrev verbs : Verbs ℕ RdmaPingMsg
verbs = record {
  create_ah = λ n a. (n + 1, some n);
  destroy_ah = λ n a. n;
  post_send_wr = λ n w. (n, true);
  post_recv_wr = λ n i. (n, true);
  ntop = λ g. "fe80::1";
  interface_id = λ g. 1;
}

abbrev context : Context ℕ RdmaPingMsg
context = record {
  nic = 0;
  buf = record { pingid = 0; qpn = 0; gid = []; lid = 0; time = 0 } ∷ [];
  ah_map = [];
  active_port = 1;
  gid_index = 0;
  traffic_class = 0;
  rnic_hw_ts = true;
}

abbrev client : Client ℕ (List RdmaResultMsg)
client = record {
  rx = context;
  tx = context;
  store = record {
    table = record { map = []; key_list = []; next_iter = 0; threshold_ms = 1000 };
    queue = [];
  };
  ping_uid = 0;
}

abbrev mine : RdmaAddr
mine = record { qpn = 11; gid = []; lid = 1 }

abbrev local_time : ℕ → Text
local_time s = codes "2025-01-01 00:00:00"

abbrev uint2ip : ℕ → Text
uint2ip n = codes "10.0.0.3"

abbrev Ends : ℕ → Bool → Ending → Type 0
Ends =
    RdmaClientEnds local_time uint2ip (codes "10.0.0.2") verbs try_enqueue net 0 1 "10.0.0.2" mine
      (λ s. s) 1_000_000

-- The RX thread cannot ask for an event.
rx_fails : Ends 1 false bare_throw
unfolding rdma_client_rx_thread post_all post_recv
rx_fails = (false, [], client, (refl, refl))

-- The supervisor has looked at the first thread and at the RX thread, whose function then ends.
abbrev first_looks : Process
first_looks = look 1 (look 0 (lower_flag 1 bare_throw (launched 4)))

ended : Reach Ends (launched 4) (end_function 1 bare_throw first_looks)
unfolding look lower_flag
ended =
    next
      (next (next (next here (fails 1 bare_throw refl refl rx_fails)) (looks 0 refl refl))
        (looks 1 refl refl))
      (leaves 1 bare_throw refl refl)

rdma_client-IsUnrestarted_example : IsUnrestarted (end_function 1 bare_throw first_looks)
rdma_client-IsUnrestarted_example =
    rdma_client-IsUnrestarted local_time uint2ip (codes "10.0.0.2") verbs try_enqueue net 0 1
      "10.0.0.2" mine (λ s. s) 1_000_000 ended
