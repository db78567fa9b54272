-- ===== src/RdmaContext/Tests.antt =====
-- Instances of the theorems on contexts.
use pingweave.Base.{◌≡◌, true, failure, ltb}
use pingweave.RdmaContext.Setup.{Outcome, init_ctx, opened, closed, registered, init_ctx_held}

-- Buffer 2 cannot be registered.
abbrev outcome : Outcome
outcome = record {
  active_port_ok = true;
  gid_index_ok = true;
  channel_ok = true;
  pd_ok = true;
  memory_ok = λ i. true;
  register_ok = λ i. ltb i 2;
  cq_ok = true;
  qp_ok = true;
  modify_ok = true;
}

init_ctx_held_example : init_ctx outcome opened ≡ (record closed { bufs = 2; pd = true }, failure)
unfolding registered
init_ctx_held_example = init_ctx_held outcome
