-- ===== src/Tcp/Threads.antt =====
-- `tcp_client_tx_thread` of src/tcp_client.cpp and the loop of `tcp_server` of src/tcp_server.cpp:
-- both start a thread for each message, and leave it to itself.
use Prim.Native.String.{String}
use pingweave.Base.{ℕ, ◌+◌, Bool, Option, none, some, List, [], ◌∷◌, ◌++◌, if◌then◌else◌, u32}
use pingweave.Common.{Net, ip2uint, make_pingid}
use pingweave.RdmaServer.{Exit, done, thrown}
use pingweave.Scheduler.{Scheduler, next}
use pingweave.Tcp.{receive_tcp_message}
use pingweave.Threads.{Outcome, thread_loop}

-- The threads started so far, each with the address and the identity of its ping.
pub record TcpClient : Type 0 where
  pub scheduler : Scheduler String
  pub ping_uid : ℕ
  pub started : List (String × ℕ)

-- The clocks that a round reads, and whether a thread can be started.
pub record TxRound : Type 0 where
  pub load_now : ℕ
  pub ping_now : ℕ
  pub thread_ok : Bool

module _ (net : Net) (ipv4 : String) where
  -- The identity is taken also where the thread cannot be started.
  abbrev pub start_ping : TxRound → String → TcpClient → TcpClient × Exit
  start_ping r dst_addr c =
      let pingid = make_pingid (ip2uint net ipv4) c.ping_uid in
      let c1 = record c { ping_uid = u32 (c.ping_uid + 1) } in
      if r.thread_ok
      then (record c1 { started = c.started ++ ((dst_addr, pingid) ∷ []) }, done)
      else (c1, thrown)

  abbrev pub after_next :
      TxRound → TcpClient → Scheduler String × Option String × ℕ → TcpClient × Exit
  after_next r c (scheduler, none, time_sleep_us) = (record c { scheduler = scheduler }, done)
  after_next r c (scheduler, some dst_addr, time_sleep_us) =
      start_ping r dst_addr (record c { scheduler = scheduler })

  module _ (load : Scheduler String → Scheduler String) (idle_us : ℕ) where
    unfoldable pub tx_round : TxRound → TcpClient → TcpClient × Exit
    tx_round r c = after_next r c (next load idle_us r.load_now r.ping_now c.scheduler)

    unfoldable pub tcp_client_tx_thread : Scheduler String → List TxRound → Outcome TcpClient
    tcp_client_tx_thread scheduler rounds =
        thread_loop tx_round rounds (record { scheduler = scheduler; ping_uid = 0; started = [] })

-- The loop of the server, on what `accept` gives and whether a thread can be started for it: what
-- the threads started return, and whether an exception has ended the loop.
unfoldable pub tcp_server_loop : List (Option ℕ × Bool) → List Bool × Exit
tcp_server_loop [] = ([], done)
tcp_server_loop ((new_sockfd, thread_ok) ∷ rest) =
    let (closed, exit) = tcp_server_loop rest in
    if thread_ok then (receive_tcp_message new_sockfd ∷ closed, exit) else ([], thrown)
