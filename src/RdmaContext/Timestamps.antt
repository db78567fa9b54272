-- ===== src/RdmaContext/Timestamps.antt =====
-- The timestamps of a NIC in src/rdma_common.cpp: how `init_ctx` finds out whether it gives them and
-- creates the completion queue by that, and `pingweave_cq`, which every user of the queue calls.
use pingweave.Base.{
  ℕ, ◌≡◌, ◌⊎◌, inl, inr, refl, Bool, true, false, Option, none, some, if◌then◌else◌, ◌==◌,
  Bool-cases,
}
use pingweave.Common.{uint64_max}

-- On the mask that `ibv_query_device_ex` gives, if it succeeds; `before` is what the field holds.
unfoldable pub timestamping : Option ℕ → ℕ → Bool × ℕ
timestamping none before = (false, before)
timestamping (some mask) before = if mask == 0 then (false, uint64_max) else (true, mask)

-- The union `cq_s`: the pointer to a plain queue or to an extended one that was stored last.
pub data CqUnion (P X : Type 0) : Type 0 where
  cq : Option P → CqUnion P X
  cq_ex : Option X → CqUnion P X

-- What a read of the union as one of its members gives: a null pointer, a queue, or, where the other
-- member was stored, nothing that can be used.
pub data Read (P : Type 0) : Type 0 where
  null misread : Read P
  queue : P → Read P

module _ {P X : Type 0} (ibv_cq_ex_to_cq : X → P) where
  -- One of the two calls is made; each stands here with its result.
  unfoldable pub create_cq : Bool → Option P → Option X → CqUnion P X
  create_cq true plain extended = cq_ex extended
  create_cq false plain extended = cq plain

  unfoldable pub pingweave_cq : Bool → CqUnion P X → Read P
  pingweave_cq true (cq_ex none) = null
  pingweave_cq true (cq_ex (some x)) = queue (ibv_cq_ex_to_cq x)
  pingweave_cq true (cq p) = misread
  pingweave_cq false (cq none) = null
  pingweave_cq false (cq (some p)) = queue p
  pingweave_cq false (cq_ex x) = misread

  -- The queue that `init_ctx` has created is the one that every later read gives, with the NIC's
  -- timestamps exactly if the device was asked and named a mask that is not zero; a read is null
  -- exactly if the creation failed, and it is never of the wrong member.
  pub pingweave_cq-create_cq :
      (mask : Option ℕ) (before : ℕ) (plain : Option P) (extended : Option X)
      → let (hw_ts, mask') = timestamping mask before in
        let r = pingweave_cq hw_ts (create_cq hw_ts plain extended) in
        ((x : ℕ) × (mask ≡ some x)
          × ((x == 0) ≡ false)
          × (mask' ≡ x)
          × (((extended ≡ none) × (r ≡ null))
              ⊎ ((e : X) × (extended ≡ some e) × (r ≡ queue (ibv_cq_ex_to_cq e)))))
        ⊎ ((hw_ts ≡ false)
            × (((plain ≡ none) × (r ≡ null)) ⊎ ((p : P) × (plain ≡ some p) × (r ≡ queue p))))
  unfolding timestamping create_cq pingweave_cq
  pingweave_cq-create_cq none before none extended = inr (refl, inl (refl, refl))
  pingweave_cq-create_cq none before (some p) extended = inr (refl, inr (p, refl, refl))
  pingweave_cq-create_cq (some x) before plain extended = elim (Bool-cases (x == 0)) [
    | inl zero_mask ↦ rw zero_mask (inr (refl, by_plain plain))
    | inr given ↦ rw given (inl (x, refl, given, refl, by_extended extended))
  ]
    where
      by_plain :
          (plain : Option P)
          → let r = pingweave_cq false (cq plain) in
            ((plain ≡ none) × (r ≡ null)) ⊎ ((p : P) × (plain ≡ some p) × (r ≡ queue p))
      by_plain none = inl (refl, refl)
      by_plain (some p) = inr (p, refl, refl)

      by_extended :
          (extended : Option X)
          → let r = pingweave_cq true (cq_ex extended) in
            ((extended ≡ none) × (r ≡ null))
            ⊎ ((e : X) × (extended ≡ some e) × (r ≡ queue (ibv_cq_ex_to_cq e)))
      by_extended none = inl (refl, refl)
      by_extended (some e) = inr (e, refl, refl)
