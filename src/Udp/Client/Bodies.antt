-- ===== src/Udp/Client/Bodies.antt =====
-- The functions of the two threads of src/udp_client.cpp, `udp_client_tx_thread` and
-- `udp_client_rx_thread`, from their start on: no call in their rounds throws.
use Prim.Native.String.{String}
use pingweave.Base.{ℕ, Bool, List}
use pingweave.Common.{Net}
use pingweave.Messages.{TcpUdpResultMsg}
use pingweave.RdmaServer.{done}
use pingweave.Scheduler.{Scheduler}
use pingweave.Threads.{Outcome, thread_loop}
use pingweave.Udp.{Recv}
use pingweave.Udp.Client.{UdpClient, Round, tx_round, rx_round}

module _ {Q : Type 0} (try_enqueue : Q → TcpUdpResultMsg → Q × Bool) (net : Net)
    (ipv4 : String) where
  -- The thread counts its pings from 0, with a scheduler of its own.
  unfoldable pub udp_client_tx_thread :
      (Scheduler String → Scheduler String)
      → ℕ
      → Scheduler String
      → List Round
      → UdpClient Q
      → Outcome (UdpClient Q)
  udp_client_tx_thread load idle_us scheduler rounds c =
      thread_loop (λ r c. (tx_round try_enqueue net ipv4 load idle_us r c, done)) rounds
        (record c { scheduler = scheduler; ping_uid = 0 })

  -- A round is what the socket gives, and the time of the reception.
  unfoldable pub udp_client_rx_thread :
      ℕ → List (List Recv × ℕ) → UdpClient Q → Outcome (UdpClient Q)
  udp_client_rx_thread poll_interval_us rounds c =
      thread_loop (λ r c. (rx_round try_enqueue net ipv4 poll_interval_us r.0 r.1 c, done)) rounds c
