-- ===== src/Udp/Sockets.antt =====
-- `make_ctx` and `initialize_contexts` of src/tcpudp_common.cpp for UDP. What the system calls answer
-- is an input; `bound` is an address and a port.
use pingweave.Base.{
  ℕ, ◌+◌, ◌≡◌, Bool, true, false, not, ◌&&◌, Option, none, some, arith, success, failure, ◌==◌,
  if◌then◌else◌, ◌^◌, ◌<◌, refl, sym, ap, ap₂, subst, ◌∙◌, List, All,
}
use pingweave.Base.Int.{ℤ, pos, negsuc}
use pingweave.Base.Text.{Text, codes}
use pingweave.Ini.File.{Line, IsLine, file_of}
use pingweave.Ini.Params.{said}
use pingweave.Ini.Written.{get_int_param_from_ini_written}
use pingweave.Base.Decimal.{print}
use pingweave.Ini.{get_int_param_from_ini}

-- `stray` counts descriptors that were opened and that no context closes.
pub record UdpContext : Type 0 where
  pub ipv4 : Text
  pub poll_interval_us : ℤ
  pub sock : Bool
  pub non_blocking : Bool
  pub bound : Option (ℕ × ℕ)
  pub stray : ℕ

pub record UdpCalls : Type 0 where
  pub socket_ok : Bool
  pub get_flags_ok : Bool
  pub set_flags_ok : Bool
  pub bind_ok : Bool

abbrev is_positive : ℤ → Bool
is_positive (pos n) = not (n == 0)
is_positive (negsuc n) = false

abbrev bind_to : UdpCalls → Option ℕ → ℕ → UdpContext → UdpContext × Bool
bind_to calls none port ctx = (ctx, failure)
bind_to calls (some address) port ctx =
    if calls.bind_ok then (record ctx { bound = some (address, port) }, success) else (ctx, failure)

abbrev with_socket : UdpCalls → Option ℕ → ℕ → UdpContext → UdpContext × Bool
with_socket calls address port ctx =
    if not calls.socket_ok
    then (ctx, failure)
    else (if is_positive ctx.poll_interval_us && not (calls.get_flags_ok && calls.set_flags_ok)
        then (record ctx { stray = ctx.stray + 1 }, failure)
        else bind_to calls address port
            (record ctx { sock = true; non_blocking = is_positive ctx.poll_interval_us }))

abbrev with_interval : UdpCalls → Option ℕ → ℕ → UdpContext → ℤ × Bool → UdpContext × Bool
with_interval calls address port ctx (value, found) =
    let ctx' = record ctx { poll_interval_us = value } in
    if found then with_socket calls address port ctx' else (ctx', failure)

module _ (inet_pton : Text → Option ℕ) (file : Option Text) where
  unfoldable pub make_ctx : UdpCalls → Text → ℕ → UdpContext → UdpContext × Bool
  make_ctx calls ipv4 port ctx =
      with_interval calls (inet_pton ipv4) port (record ctx { ipv4 = ipv4 })
        (get_int_param_from_ini file ctx.poll_interval_us
          (codes "interval_poll_event_udp_microsec"))

  unfoldable pub initialize_contexts :
      UdpCalls → UdpCalls → Text → ℕ → UdpContext → UdpContext → UdpContext × UdpContext × Bool
  initialize_contexts tx_calls rx_calls ipv4 rx_port tx rx =
      let (tx', tx_done) = make_ctx tx_calls ipv4 0 tx in
      let (rx', rx_done) = make_ctx rx_calls ipv4 rx_port rx in
      if not tx_done then (tx', rx, failure) else (tx', rx', if rx_done then success else failure)

abbrev pub IsReady : Text → ℕ → ℕ → ℕ → UdpContext → Type 0
IsReady ipv4 address port interval ctx =
    (ctx.ipv4 ≡ ipv4)
    × (ctx.sock ≡ true)
    × (ctx.bound ≡ some (address, port))
    × (ctx.poll_interval_us ≡ pos interval)
    × (ctx.non_blocking ≡ not (interval == 0))

with_socket-success :
    (calls : UdpCalls) (a port : ℕ) (ctx : UdpContext)
    → (with_socket calls (some a) port ctx).1 ≡ success
    → (with_socket calls (some a) port ctx).0 ≡ record ctx {
      sock = true;
      non_blocking = is_positive ctx.poll_interval_us;
      bound = some (a, port);
    }
with_socket-success calls a port ctx h = ground arith

make_ctx-success :
    (inet_pton : Text → Option ℕ) (ls : List Line) (calls : UdpCalls) (ipv4 : Text) (a port n : ℕ)
    (ctx : UdpContext)
    → All IsLine ls
    → said (codes "param") (codes "interval_poll_event_udp_microsec") ls ≡ some (print n)
    → n < 2 ^ 31
    → inet_pton ipv4 ≡ some a
    → (make_ctx inet_pton (some (file_of ls)) calls ipv4 port ctx).1 ≡ success
    → IsReady ipv4 a port n (make_ctx inet_pton (some (file_of ls)) calls ipv4 port ctx).0
unfolding make_ctx
make_ctx-success inet_pton ls calls ipv4 a port n ctx h e small given done =
    let new = record ctx { ipv4 = ipv4 } in
    let read =
      get_int_param_from_ini_written ls (codes "interval_poll_event_udp_microsec")
        ctx.poll_interval_us n h e small in
    let same : make_ctx inet_pton (some (file_of ls)) calls ipv4 port ctx
        ≡ with_socket calls (some a) port (record new { poll_interval_us = pos n }) =
      ap₂ (λ o r. with_interval calls o port new r) given read in
    let ready =
      with_socket-success calls a port (record new { poll_interval_us = pos n })
        (sym (ap (λ (r : UdpContext × Bool). r.1) same) ∙ done) in
    subst (IsReady ipv4 a port n) (sym (ap (λ (r : UdpContext × Bool). r.0) same ∙ ready))
      (refl, refl, refl, refl, refl)

abbrev ready_pair :
    UdpContext → UdpContext × Bool → UdpContext × Bool → UdpContext × UdpContext × Bool
ready_pair rx (tx', tx_done) (rx', rx_done) =
    if not tx_done then (tx', rx, failure) else (tx', rx', if rx_done then success else failure)

both :
    (P Q : UdpContext → Type 0) (rx : UdpContext) (t r : UdpContext × Bool)
    → (t.1 ≡ success → P t.0)
    → (r.1 ≡ success → Q r.0)
    → (ready_pair rx t r).2 ≡ success
    → P (ready_pair rx t r).0 × Q (ready_pair rx t r).1
both P Q rx (t, true) (r, true) p q h = (p refl, q refl)
both P Q rx (t, true) (r, false) p q h = absurd (cc)
both P Q rx (t, false) r p q h = absurd (cc)

-- Given a file with a polling interval in decimal, below 2^31, and an address that is one: if the
-- call succeeds, both contexts have a socket bound to that address, the sending one to a port that
-- the system chooses (0) and the receiving one to the given port; both keep the file's interval and
-- do not block exactly if it is not zero.
pub initialize_contexts_lem :
    (inet_pton : Text → Option ℕ) (ls : List Line) (tx_calls rx_calls : UdpCalls) (ipv4 : Text)
    (a rx_port n : ℕ) (tx rx : UdpContext)
    → All IsLine ls
    → said (codes "param") (codes "interval_poll_event_udp_microsec") ls ≡ some (print n)
    → n < 2 ^ 31
    → inet_pton ipv4 ≡ some a
    → (initialize_contexts inet_pton (some (file_of ls)) tx_calls rx_calls ipv4 rx_port tx rx).2
      ≡ success
    → let (tx', rx', done) =
        initialize_contexts inet_pton (some (file_of ls)) tx_calls rx_calls ipv4 rx_port tx rx in
      IsReady ipv4 a 0 n tx' × IsReady ipv4 a rx_port n rx'
unfolding initialize_contexts
initialize_contexts_lem inet_pton ls tx_calls rx_calls ipv4 a rx_port n tx rx h e small given done =
    let tx_result = make_ctx inet_pton (some (file_of ls)) tx_calls ipv4 0 tx in
    let rx_result = make_ctx inet_pton (some (file_of ls)) rx_calls ipv4 rx_port rx in
    both (IsReady ipv4 a 0 n) (IsReady ipv4 a rx_port n) rx tx_result rx_result
      (make_ctx-success inet_pton ls tx_calls ipv4 a 0 n tx h e small given)
      (make_ctx-success inet_pton ls rx_calls ipv4 a rx_port n rx h e small given) done
