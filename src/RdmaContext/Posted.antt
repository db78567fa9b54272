-- ===== src/RdmaContext/Posted.antt =====
-- What a post leaves in the buffers of a context.
use pingweave.Base.{
  ℕ, ◌<◌, ◌≡◌, refl, ◌∙◌, ap, inl, inr, Option, none, some, arith, success, Option-cases, length,
  get_or, length-set, get_or-set_self,
}
use pingweave.Messages.{RdmaAddr}
use pingweave.RdmaContext.{
  Verbs, Context, clear_large, ah_attr, store_ah, reuse_or_create, get_or_create_ah, post_send,
  lookup_ah,
}

module _ {Nic M : Type 0} (verbs : Verbs Nic M) where
  clear_large-buf : (ctx : Context Nic M) → (clear_large verbs ctx).buf ≡ ctx.buf
  unfolding clear_large
  clear_large-buf ctx = ground arith

  reuse_or_create-buf :
      (ctx : Context Nic M) (dest : RdmaAddr) (o : Option ℕ)
      → (reuse_or_create verbs ctx dest o).0.buf ≡ ctx.buf
  unfolding reuse_or_create store_ah
  reuse_or_create-buf ctx dest (some ah) = refl
  reuse_or_create-buf ctx dest none =
      elim (Option-cases (verbs.create_ah ctx.nic (ah_attr verbs ctx dest)).1) [
        | inl e ↦ rw (reuse_or_create, e) refl
        | inr (ah, e) ↦ rw (reuse_or_create, e) refl
      ]

  get_or_create_ah-buf :
      (ctx : Context Nic M) (dest : RdmaAddr) → (get_or_create_ah verbs ctx dest).0.buf ≡ ctx.buf
  unfolding get_or_create_ah
  get_or_create_ah-buf ctx dest =
      let ctx' = clear_large verbs ctx in
      reuse_or_create-buf ctx' dest (lookup_ah dest.lid (verbs.ntop dest.gid) ctx'.ah_map)
      ∙ clear_large-buf ctx

  -- A post that succeeds has written its message to its buffer; none changes their number.
  pub post_send-written :
      (ctx : Context Nic M) (dest : RdmaAddr) (msg d : M) (i id : ℕ)
      → let (ctx', sent) = post_send verbs ctx dest msg i id in
        (length ctx'.buf ≡ length ctx.buf)
        × (sent ≡ success → i < length ctx.buf → get_or ctx'.buf i d ≡ msg)
  unfolding post_send
  post_send-written ctx dest msg d i id =
      let r = get_or_create_ah verbs ctx dest in
      let same : r.0.buf ≡ ctx.buf = get_or_create_ah-buf ctx dest in
      elim (Option-cases r.1) [
        | inl e ↦ rw (post_send, e) (ap length same, λ h. absurd (cc))
        | inr (ah, e) ↦
            rw (post_send, e)
              (
                length-set r.0.buf i msg ∙ ap length same,
                λ h l. get_or-set_self r.0.buf i msg d (rw same l),
              )
      ]
