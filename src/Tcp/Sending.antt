-- ===== src/Tcp/Sending.antt =====
-- What a message's thread does to the table, as calls of it.
use pingweave.Base.{
  ℕ, ◌+◌, ◌≤◌, ◌≡◌, refl, sym, ap, ◌∙◌, inl, inr, Bool, true, false, ◌&&◌, Option, none, some, List,
  [], ◌∷◌, if◌then◌else◌, Bool-cases, arith,
}
use Prim.Native.String.{String}
use pingweave.Common.{Net}
use pingweave.Common.Identity.{Identity, weighed}
use pingweave.Messages.{TcpUdpResultMsg}
use pingweave.Table.{Store}
use pingweave.TcpUdpPinginfoMap.{TcpUdpPinginfo}
use pingweave.TcpUdpPinginfoMap.Account.{
  Call, sends, pong, named_in, Timed, IsGood, run, total, total-run,
}
use pingweave.Tcp.{SocketCalls, Attempt, make_ctx, fresh_client, send_to, send_tcp_message}

-- The calls of one thread, where it has an address to connect to.
abbrev pub calls_of : Option (ℕ × ℕ) → Attempt → String → ℕ → List Call
calls_of none a dst_ip pingid = []
calls_of (some to) a dst_ip pingid =
    sends pingid dst_ip a.now a.steady_now a.system_ns
    ∷ (if a.connect_ok then pong pingid a.recv_time ∷ [] else [])

abbrev pub is_given : {A : Type 0} → Option A → Bool
is_given none = false
is_given (some a) = true

abbrev at_port : Option ℕ → ℕ → Option (ℕ × ℕ)
at_port none port = none
at_port (some address) port = some (address, port)

-- The address and port of a destination whose text is an IPv4 address, for a client whose socket can
-- be opened, take its two options (`SO_SNDTIMEO`, 21, and `SO_LINGER`, 13) and be bound to its own
-- address.
abbrev pub target : Net → SocketCalls → String → String → ℕ → Option (ℕ × ℕ)
target net calls src_ip dst_ip dst_port =
    let ready =
      calls.socket_ok
      && (calls.setsockopt_ok 21
          && (calls.setsockopt_ok 13 && (is_given (net.inet_pton src_ip) && calls.bind_ok))) in
    if ready then at_port (net.inet_pton dst_ip) dst_port else none

calls_of-Timed :
    (to : Option (ℕ × ℕ)) (a : Attempt) (dst_ip : String) (pingid : ℕ) {last : ℕ}
    → last ≤ a.steady_now
    → Timed last (calls_of to a dst_ip pingid)
calls_of-Timed none a dst_ip pingid h = tt
calls_of-Timed (some to) a dst_ip pingid h = elim (Bool-cases a.connect_ok) [
  | inr c ↦ rw c (h, tt)
  | inl c ↦ rw c (h, tt)
]

make_ctx-ready :
    (net : Net) (calls : SocketCalls) (src_ip : String)
    → (make_ctx net calls src_ip 0 fresh_client).1 ≡ (
        calls.socket_ok
        && (calls.setsockopt_ok 21
            && (calls.setsockopt_ok 13 && (is_given (net.inet_pton src_ip) && calls.bind_ok))))
unfolding make_ctx
make_ctx-ready net calls src_ip = ground arith

module _ {Q : Type 0} (try_enqueue : Q → TcpUdpResultMsg → Q × Bool) (net : Net) where
  -- Where the socket is set up and the address of the destination is `o`.
  send_to-run :
      (a : Attempt) (o : Option ℕ) (dst_ip : String) (dst_port pingid : ℕ)
      (s : Store TcpUdpPinginfo Q)
      → let to = at_port o dst_port in
        let (s', connected, done) = send_to try_enqueue net a o dst_ip dst_port pingid s in
        (s' ≡ (run try_enqueue net s (calls_of to a dst_ip pingid)).0)
        × (connected ≡ to)
        × (done ≡ (is_given to && (a.connect_ok && a.local_ok)))
  unfolding run
  send_to-run a none dst_ip dst_port pingid s = (refl, refl, refl)
  send_to-run a (some address) dst_ip dst_port pingid s = elim (Bool-cases a.connect_ok) [
    | inr c ↦ rw c (refl, refl, refl)
    | inl c ↦ elim (Bool-cases a.local_ok) [
      | inl d ↦ rw (c, d) (refl, refl, refl)
      | inr d ↦ rw (c, d) (refl, refl, refl)
    ]
  ]

  -- A thread that sends a TCP message connects to the address that the destination's text stands
  -- for, at the port given, exactly if that text is an address and the own socket could be opened,
  -- take its two options and be bound to the own address. Exactly then it asks the table to take the
  -- ping in, and, if the connection is made, to answer it; it says success exactly if the connection is
  -- made and the local name is known. On a good table, for any weight on the identities of pings
  -- (number, address, time of sending), the pings that the offered reports name and those in the table
  -- weigh together what they did before and what the ping weighs, if it was taken in.
  pub send_tcp_message_lem :
      (w : Identity → ℕ) (sent : Q → ℕ)
      (counts : (q : Q) (m : TcpUdpResultMsg) → sent (try_enqueue q m).0 ≡ sent q + w (named_in m))
      (a : Attempt) (src_ip dst_ip : String) (dst_port pingid : ℕ) {last : ℕ}
      (s : Store TcpUdpPinginfo Q)
      → last ≤ a.steady_now
      → IsGood last s
      → let to = target net a.calls src_ip dst_ip dst_port in
        let calls = calls_of to a dst_ip pingid in
        let (s', connected, done) =
          send_tcp_message try_enqueue net a src_ip dst_ip dst_port pingid s in
        (connected ≡ to)
        × (s' ≡ (run try_enqueue net s calls).0)
        × (done ≡ (is_given to && (a.connect_ok && a.local_ok)))
        × (total try_enqueue net w sent counts s'
            ≡ total try_enqueue net w sent counts s + weighed w (run try_enqueue net s calls).1)
  unfolding send_tcp_message run
  send_tcp_message_lem w sent counts a src_ip dst_ip dst_port pingid s h g =
      let to = target net a.calls src_ip dst_ip dst_port in
      let ready = make_ctx-ready net a.calls src_ip in
      let account =
        total-run try_enqueue net w sent counts (calls_of to a dst_ip pingid) s
          (calls_of-Timed to a dst_ip pingid h) g in
      elim (Bool-cases (make_ctx net a.calls src_ip 0 fresh_client).1) [
        | inl b ↦
            let (same, connected, done) =
              send_to-run a (net.inet_pton dst_ip) dst_ip dst_port pingid s in
            rw (b, sym ready ∙ b)
              (
                connected,
                same,
                done,
                ap (total try_enqueue net w sent counts) same ∙ rw (sym ready ∙ b) at account,
              )
        | inr b ↦ rw (b, sym ready ∙ b) (refl, refl, refl, rw (sym ready ∙ b) at account)
      ]
