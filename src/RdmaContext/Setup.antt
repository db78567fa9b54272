-- ===== src/RdmaContext/Setup.antt =====
-- `init_ctx`, `make_ctx` and `initialize_contexts` of src/rdma_common.cpp: what is acquired, what
-- is released on failure, and what is returned. The outcome of each call of the verbs library
-- is an input.
use pingweave.Messages.{num_buffer}
use pingweave.Base.{
  ℕ, zero, suc, refl, ◌+◌, ◌≤◌, ◌≡◌, Bool, true, false, not, ◌&&◌, ◌||◌, arith, success, failure,
  ◌==◌, if◌then◌else◌,
}

-- What is held: the open device, the completion channel, the protection domain, the registered
-- buffers (the first `bufs` of them), the completion queue and the queue pair.
pub record Held : Type 0 where
  pub device : Bool
  pub channel : Bool
  pub pd : Bool
  pub bufs : ℕ
  pub cq : Bool
  pub qp : Bool

-- What one buffer holds: its memory, and the registration of it with the device.
pub record Buffer : Type 0 where
  pub memory : Bool
  pub region : Bool

-- On whether the memory is given, and whether it can be registered.
pub allocate_and_register_buffer : Bool → Bool → Buffer × Bool
allocate_and_register_buffer memory_ok register_ok =
    if not memory_ok
    then (record { memory = false; region = false }, failure)
    else (let buffer : Buffer = record { memory = true; region = register_ok } in
        if not buffer.region
        then (record buffer { memory = false }, failure)
        else (buffer, success))

-- A buffer is held as a whole, or not at all.
pub allocate_and_register_buffer_lem :
    (memory_ok register_ok : Bool)
    → let (buffer, done) = allocate_and_register_buffer memory_ok register_ok in
      (buffer.memory ≡ done) × (buffer.region ≡ done) × (done ≡ (memory_ok && register_ok))
unfolding allocate_and_register_buffer
allocate_and_register_buffer_lem memory_ok register_ok = ground arith

-- `memory_ok i` and `register_ok i` are for buffer `i`.
pub record Outcome : Type 0 where
  pub active_port_ok : Bool
  pub gid_index_ok : Bool
  pub channel_ok : Bool
  pub pd_ok : Bool
  pub memory_ok : ℕ → Bool
  pub register_ok : ℕ → Bool
  pub cq_ok : Bool
  pub qp_ok : Bool
  pub modify_ok : Bool

abbrev pub buffer_ok : Outcome → ℕ → Bool
buffer_ok o i = (allocate_and_register_buffer (o.memory_ok i) (o.register_ok i)).1

-- The labels of the clean-up, each falling through to the next.
clean_device : Held → Held
clean_device h = record h { device = false }

clean_comp_channel : Held → Held
unfolding clean_device
clean_comp_channel h = clean_device (record h { channel = false })

-- `ibv_dealloc_pd` fails where a buffer is still registered, and its result is not tested.
clean_pd : Held → Held
unfolding clean_comp_channel
clean_pd h = clean_comp_channel (record h { pd = h.pd && not (h.bufs == 0) })

clean_mr : Held → Held
unfolding clean_pd
clean_mr h = clean_pd (record h { bufs = 0 })

clean_cq : Held → Held
unfolding clean_mr
clean_cq h = clean_mr (record h { cq = false })

clean_qp : Held → Held
unfolding clean_cq
clean_qp h = clean_cq (record h { qp = false })

-- The loop over the buffers: `n` are left, from buffer `i` on.
alloc_buffers : (ℕ → Bool) → ℕ → ℕ → Held → Held × Bool
alloc_buffers ok zero i h = (h, success)
alloc_buffers ok (suc n) i h =
    let rest = alloc_buffers ok n (i + 1) (record h { bufs = h.bufs + 1 }) in
    if ok i then rest else (h, failure)

queues : Outcome → Held → Held × Bool
unfolding clean_mr clean_cq clean_qp
queues o h =
    if not o.cq_ok
    then (clean_mr h, failure)
    else (let h1 = record h { cq = true } in
        if not o.qp_ok
        then (clean_cq h1, failure)
        else (let h2 = record h1 { qp = true } in
            if not o.modify_ok then (clean_qp h2, failure) else (h2, success)))

-- Called with the device open.
pub init_ctx : Outcome → Held → Held × Bool
unfolding clean_device clean_comp_channel clean_pd queues
init_ctx o h =
    if not o.active_port_ok || not o.gid_index_ok || not o.channel_ok
    then (clean_device h, failure)
    else (let h1 = record h { channel = true } in
        if not o.pd_ok
        then (clean_comp_channel h1, failure)
        else (let r = alloc_buffers (buffer_ok o) num_buffer 0 (record h1 { pd = true }) in
            if r.1 then queues o r.0 else (clean_pd r.0, failure)))

-- The other calls of `make_ctx`: finding the device, readying the queue pair, reading the GID.
pub record Attempt : Type 0 where
  pub context_by_ip_ok : Bool
  pub init : Outcome
  pub prepare_ok : Bool
  pub query_gid_ok : Bool

abbrev pub closed : Held
closed = record { device = false; channel = false; pd = false; bufs = 0; cq = false; qp = false }

abbrev pub opened : Held
opened = record closed { device = true }

pub make_ctx : Attempt → Held × Bool
unfolding init_ctx
make_ctx a =
    if not a.context_by_ip_ok
    then (closed, failure)
    else (let (h, done) = init_ctx a.init opened in
        if not done then (h, failure) else (h, a.prepare_ok && a.query_gid_ok))

-- `return true` in the branch of the RX context converts to `PINGWEAVE_SUCCESS`.
pub initialize_contexts : Attempt → Attempt → Bool
unfolding make_ctx
initialize_contexts tx rx =
    if not (make_ctx tx).1 then failure else (if not (make_ctx rx).1 then true else success)

-- The caller learns only of the TX context: a context for receiving that could not be made is
-- reported as success.
pub initialize_contexts-eq-tx : (tx rx : Attempt) → initialize_contexts tx rx ≡ (make_ctx tx).1
unfolding initialize_contexts
initialize_contexts-eq-tx tx rx = ground arith

-- The number of buffers that are registered before the first failure.
unfoldable pub registered : (ℕ → Bool) → ℕ → ℕ → ℕ
registered ok zero i = 0
registered ok (suc n) i = let rest = registered ok n (i + 1) in if ok i then suc rest else 0

alloc_buffers_lem :
    (ok : ℕ → Bool) (n i : ℕ) (h : Held)
    → let k = registered ok n i in alloc_buffers ok n i h ≡ (record h { bufs = h.bufs + k }, k == n)
unfolding alloc_buffers registered
alloc_buffers_lem ok zero i h = ground arith
alloc_buffers_lem ok (suc n) i h =
    ground (arith, alloc_buffers_lem ok n (i + 1) (record h { bufs = h.bufs + 1 }))

registered-le : (ok : ℕ → Bool) (n i : ℕ) → registered ok n i ≤ n
unfolding registered
registered-le ok zero i = omega arith
registered-le ok (suc n) i = ground (arith, registered-le ok n (i + 1))

registered-eq :
    (ok ok' : ℕ → Bool) (n i : ℕ)
    → ((j : ℕ) → ok j ≡ ok' j)
    → registered ok n i ≡ registered ok' n i
unfolding registered
registered-eq ok ok' zero i h = refl
registered-eq ok ok' (suc n) i h = ground (arith, h i, registered-eq ok ok' n (i + 1) h)

-- Where every step of `init_ctx` succeeds, all is held. Where a buffer cannot be had or registered,
-- after the port, the GID, the channel and the protection domain could be, the buffers registered
-- before it stay registered, and with one at least the domain stays too; the rest is released.
-- Wherever else it fails, all is released.
pub init_ctx_held :
    (o : Outcome)
    → let k = registered (λ i. o.memory_ok i && o.register_ok i) num_buffer 0 in
      let begun = o.active_port_ok && (o.gid_index_ok && (o.channel_ok && o.pd_ok)) in
      let all : Held = (record {
        device = true;
        channel = true;
        pd = true;
        bufs = num_buffer;
        cq = true;
        qp = true;
      }) in
      init_ctx o opened ≡ (
        if begun && not (k == num_buffer)
        then (record closed { bufs = k; pd = not (k == 0) }, failure)
        else (if begun && (o.cq_ok && (o.qp_ok && o.modify_ok))
            then (all, success)
            else (closed, failure)))
unfolding init_ctx
init_ctx_held o =
    let same : (j : ℕ) → buffer_ok o j ≡ (o.memory_ok j && o.register_ok j) = λ j.
      let (_memory, _region, done) =
        allocate_and_register_buffer_lem (o.memory_ok j) (o.register_ok j) in
      done in
    let count =
      registered-eq (buffer_ok o) (λ i. o.memory_ok i && o.register_ok i) num_buffer 0 same in
    let h = record opened { channel = true; pd = true } in
    let loop = alloc_buffers_lem (buffer_ok o) num_buffer 0 h in
    let few = registered-le (buffer_ok o) num_buffer 0 in
    rw (loop, init_ctx, count) (ground (arith, few, count))

-- A context is made where each of the four steps succeeds.
pub make_ctx-success :
    (a : Attempt)
    → a.context_by_ip_ok ≡ true
    → (init_ctx a.init opened).1 ≡ success
    → (a.prepare_ok && a.query_gid_ok) ≡ true
    → (make_ctx a).1 ≡ true
unfolding make_ctx
make_ctx-success a found initialised ready = rw (found, make_ctx, initialised) ready
