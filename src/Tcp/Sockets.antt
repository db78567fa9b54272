-- ===== src/Tcp/Sockets.antt =====
-- What a socket is that `make_ctx` has set up.
use pingweave.Base.{
  ℕ, ◌≡◌, refl, sym, ap, ◌∙◌, Bool, true, false, Option, none, some, List, [], ◌∷◌, ◌++◌, arith,
  success, failure, if◌then◌else◌,
}
use Prim.Native.String.{String}
use pingweave.Common.{Net}
use pingweave.Tcp.{
  TcpContext, SocketCalls, make_ctx, so_linger, so_sndtimeo, so_reuseport, set_option, set_options,
  bind_to, listen_if_server, and_then,
}

abbrev pub option_names : Bool → List ℕ
option_names is_server = if is_server then so_reuseport ∷ [] else so_sndtimeo ∷ so_linger ∷ []

and_then-success :
    (r : TcpContext × Bool) (next : TcpContext → TcpContext × Bool)
    → (and_then r next).1 ≡ success
    → (r.1 ≡ success) × (and_then r next ≡ next r.0)
and_then-success (ctx, true) next h = (refl, refl)
and_then-success (ctx, false) next h = absurd (cc)

set_option-success :
    (calls : SocketCalls) (name : ℕ) (ctx : TcpContext)
    → (set_option calls name ctx).1 ≡ success
    → (set_option calls name ctx).0 ≡ record ctx { options = ctx.options ++ (name ∷ []) }
set_option-success calls name ctx h = ground arith

bind_to-success :
    (calls : SocketCalls) (o : Option ℕ) (port : ℕ) (ctx : TcpContext)
    → (bind_to calls o port ctx).1 ≡ success
    → (a : ℕ) × (o ≡ some a)
      × ((bind_to calls o port ctx).0 ≡ record ctx { bound = some (a, port) })
bind_to-success calls none port ctx h = absurd (cc)
bind_to-success calls (some a) port ctx h = (a, refl, ground arith)

listen_success :
    (calls : SocketCalls) (ctx : TcpContext)
    → ctx.listening ≡ false
    → (listen_if_server calls ctx).1 ≡ success
    → (listen_if_server calls ctx).0 ≡ record ctx { listening = ctx.is_server }
listen_success calls ctx idle h = ground arith

if_success :
    (b : Bool) (r : TcpContext × Bool) (ctx : TcpContext)
    → (if b then r else (ctx, failure)).1 ≡ success
    → ((if b then r else (ctx, failure)) ≡ r) × (r.1 ≡ success)
if_success true r ctx h = (refl, h)
if_success false r ctx h = absurd (cc)

abbrev opened : Bool → TcpContext
opened is_server = record {
  is_server = is_server;
  sock = true;
  options = [];
  bound = none;
  listening = false;
}

set_options-success :
    (calls : SocketCalls) (is_server : Bool)
    → (set_options calls (opened is_server)).1 ≡ success
    → (set_options calls (opened is_server)).0
      ≡ record (opened is_server) { options = option_names is_server }
set_options-success calls true h = set_option-success calls _ (opened true) h
set_options-success calls false h =
    let first = set_option calls so_sndtimeo (opened false) in
    let (ok, step) = and_then-success first (set_option calls so_linger) h in
    let one = set_option-success calls so_sndtimeo (opened false) ok in
    ap (λ (r : TcpContext × Bool). r.0) step
    ∙ set_option-success calls so_linger first.0
        (sym (ap (λ (r : TcpContext × Bool). r.1) step) ∙ h)
    ∙ ap (λ (c : TcpContext). record c { options = c.options ++ (so_linger ∷ []) }) one

-- A context that is set up, from a new one, has a socket for which `bind` was given the address and
-- the port (0, as the clients pass it, leaves the choice of one to the system), listens exactly for a server, and has one option set for a server, `SO_REUSEPORT`, and two
-- for a client, `SO_SNDTIMEO` and `SO_LINGER`: never `SO_REUSEADDR` nor `SO_RCVTIMEO`.
pub make_ctx_lem :
    (net : Net) (calls : SocketCalls) (ipv4 : String) (port : ℕ) (is_server : Bool)
    → let new : TcpContext = (record {
      is_server = is_server;
      sock = false;
      options = [];
      bound = none;
      listening = false;
    }) in
      (make_ctx net calls ipv4 port new).1 ≡ success
      → let ctx = (make_ctx net calls ipv4 port new).0 in
        (ctx.sock ≡ true)
        × ((a : ℕ) × (net.inet_pton ipv4 ≡ some a) × (ctx.bound ≡ some (a, port)))
        × (ctx.listening ≡ is_server)
        × (ctx.options ≡ option_names is_server)
unfolding make_ctx
make_ctx_lem net calls ipv4 port is_server h =
    let options = set_options calls (opened is_server) in
    let address = net.inet_pton ipv4 in
    let rest =
      λ (c : TcpContext). and_then (bind_to calls address port c) (listen_if_server calls) in
    let (open_eq, h1) = if_success calls.socket_ok (and_then options rest) _ h in
    let (h2, options_eq) = and_then-success options rest h1 in
    let c = record (opened is_server) { options = option_names is_server } in
    let c_eq : options.0 ≡ c = set_options-success calls is_server h2 in
    let chain : and_then options rest ≡ rest c = options_eq ∙ ap rest c_eq in
    let h3 : (rest c).1 ≡ success = sym (ap (λ (r : TcpContext × Bool). r.1) chain) ∙ h1 in
    let (h4, bind_eq) =
      and_then-success (bind_to calls address port c) (listen_if_server calls) h3 in
    let (a, given, bound_eq) = bind_to-success calls address port c h4 in
    let d = record c { bound = some (a, port) } in
    let final : rest c ≡ listen_if_server calls d =
      bind_eq ∙ ap (listen_if_server calls) bound_eq in
    let h5 : (listen_if_server calls d).1 ≡ success =
      sym (ap (λ (r : TcpContext × Bool). r.1) final) ∙ h3 in
    let all =
      ap (λ (r : TcpContext × Bool). r.0) (open_eq ∙ chain ∙ final)
      ∙ listen_success calls d refl h5 in
    (
      ap (λ (x : TcpContext). x.sock) all,
      (a, given, ap (λ (x : TcpContext). x.bound) all),
      ap (λ (x : TcpContext). x.listening) all,
      ap (λ (x : TcpContext). x.options) all,
    )
