-- ===== src/RdmaContext/Handles.antt =====
-- The map of address handles: its size, and the reuse of a handle.
use pingweave.Base.{
  ℕ, ◌+◌, ◌≤◌, ◌≡◌, refl, ap, ◌∙◌, inl, inr, ◌&&◌, Option, none, some, List, [], ◌∷◌, ◌++◌, arith,
  ◌==◌, ==_self, Bool-cases, Option-cases, length, length-append,
}
use pingweave.Messages.{RdmaAddr}
use Prim.Native.String.{String}
use text.Mathlib.Text.{◌==◌ as str_eq}
use text.Mathlib.TextPositions.{eq_refl}
use pingweave.RdmaContext.{
  Verbs, Context, Handle, lookup_ah, clear_large, ah_attr, store_ah, reuse_or_create,
  get_or_create_ah, post_send, max_num_hosts_in_pinglist,
}

lookup_ah-append :
    (lid : ℕ) (text : String) (ah : ℕ) (hs : List Handle)
    → lookup_ah lid text hs ≡ none
    → lookup_ah lid text (hs ++ (record { lid = lid; gid_text = text; ah = ah } ∷ [])) ≡ some ah
unfolding lookup_ah
lookup_ah-append lid text ah [] h = rw (==_self lid, eq_refl text)
lookup_ah-append lid text ah (x ∷ hs) h =
    elim (Bool-cases (x.lid == lid && str_eq x.gid_text text)) [
      | inl b ↦ absurd (found (rw b at h))
      | inr b ↦ rw b (lookup_ah-append lid text ah hs (rw b at h))
    ]
  where
    found : {a : ℕ} → some a ≡ none → ⊥
    found e = cc

module _ {Nic M : Type 0} (verbs : Verbs Nic M) where
  clear_large-le :
      (ctx : Context Nic M) → length (clear_large verbs ctx).ah_map ≤ max_num_hosts_in_pinglist
  unfolding clear_large
  clear_large-le ctx = ground arith

  clear_large_small :
      (ctx : Context Nic M)
      → length ctx.ah_map ≤ max_num_hosts_in_pinglist
      → clear_large verbs ctx ≡ ctx
  unfolding clear_large
  clear_large_small ctx h = ground arith

  length-store_ah :
      (ctx : Context Nic M) (dest : RdmaAddr) (nic' : Nic) (o : Option ℕ)
      → length (store_ah verbs ctx dest nic' o).0.ah_map ≤ length ctx.ah_map + 1
  unfolding store_ah
  length-store_ah ctx dest nic' none = omega arith
  length-store_ah ctx dest nic' (some ah) = omega (arith, length-append ctx.ah_map)

  length-reuse_or_create :
      (ctx : Context Nic M) (dest : RdmaAddr) (o : Option ℕ)
      → length (reuse_or_create verbs ctx dest o).0.ah_map ≤ length ctx.ah_map + 1
  unfolding reuse_or_create
  length-reuse_or_create ctx dest (some ah) = omega arith
  length-reuse_or_create ctx dest none = length-store_ah ctx dest _ _

  -- The map never holds more than one handle over the limit, whatever the destinations.
  pub length-get_or_create_ah :
      (ctx : Context Nic M) (dest : RdmaAddr)
      → length (get_or_create_ah verbs ctx dest).0.ah_map ≤ max_num_hosts_in_pinglist + 1
  unfolding get_or_create_ah
  length-get_or_create_ah ctx dest =
      omega (arith, length-reuse_or_create (clear_large verbs ctx) dest _, clear_large-le ctx)

  store_ah_lookup :
      (ctx ctx' : Context Nic M) (dest : RdmaAddr) (ah : ℕ) (nic' : Nic) (o : Option ℕ)
      → lookup_ah dest.lid (verbs.ntop dest.gid) ctx.ah_map ≡ none
      → store_ah verbs ctx dest nic' o ≡ (ctx', some ah)
      → lookup_ah dest.lid (verbs.ntop dest.gid) ctx'.ah_map ≡ some ah
  unfolding store_ah
  store_ah_lookup ctx ctx' dest ah nic' none n e = absurd (ground arith)
  store_ah_lookup ctx ctx' dest ah nic' (some a) n e =
      let l = lookup_ah-append dest.lid (verbs.ntop dest.gid) a ctx.ah_map n in
      rw (← ap (λ (p : Context Nic M × Option ℕ). p.0) e)
        (l ∙ ap (λ (p : Context Nic M × Option ℕ). p.1) e)

  reuse_or_create_lookup :
      (ctx ctx' : Context Nic M) (dest : RdmaAddr) (ah : ℕ) (o : Option ℕ)
      → lookup_ah dest.lid (verbs.ntop dest.gid) ctx.ah_map ≡ o
      → reuse_or_create verbs ctx dest o ≡ (ctx', some ah)
      → lookup_ah dest.lid (verbs.ntop dest.gid) ctx'.ah_map ≡ some ah
  unfolding reuse_or_create
  reuse_or_create_lookup ctx ctx' dest ah none n e =
      (let r = verbs.create_ah ctx.nic (ah_attr verbs ctx dest) in
        store_ah_lookup ctx ctx' dest ah r.0 r.1 n e)
  reuse_or_create_lookup ctx ctx' dest ah (some a) n e =
      rw (← ap (λ (p : Context Nic M × Option ℕ). p.0) e)
        (n ∙ ap (λ (p : Context Nic M × Option ℕ). p.1) e)

  -- A handle that was found or made for a destination is found again, with no further call of the
  -- verbs library, as long as the map is not over the limit.
  pub get_or_create_ah_again :
      (ctx ctx' : Context Nic M) (dest : RdmaAddr) (ah : ℕ)
      → get_or_create_ah verbs ctx dest ≡ (ctx', some ah)
      → length ctx'.ah_map ≤ max_num_hosts_in_pinglist
      → get_or_create_ah verbs ctx' dest ≡ (ctx', some ah)
  unfolding get_or_create_ah
  get_or_create_ah_again ctx ctx' dest ah e h =
      let found = reuse_or_create_lookup (clear_large verbs ctx) ctx' dest ah _ refl e in
      ap
        (λ (c : Context Nic M).
          reuse_or_create verbs c dest (lookup_ah dest.lid (verbs.ntop dest.gid) c.ah_map))
        (clear_large_small ctx' h)
      ∙ ap (reuse_or_create verbs ctx' dest) found

-- Posting leaves the settings of the context alone.
module _ {Nic M : Type 0} (verbs : Verbs Nic M) where
  reuse_or_create-keeps :
      (ctx : Context Nic M) (dest : RdmaAddr) (o : Option ℕ)
      → (reuse_or_create verbs ctx dest o).0.rnic_hw_ts ≡ ctx.rnic_hw_ts
  unfolding reuse_or_create store_ah
  reuse_or_create-keeps ctx dest (some ah) = refl
  reuse_or_create-keeps ctx dest none =
      elim (Option-cases (verbs.create_ah ctx.nic (ah_attr verbs ctx dest)).1) [
        | inl e ↦ rw (reuse_or_create, e) refl
        | inr (ah, e) ↦ rw (reuse_or_create, e) refl
      ]

  clear_large-keeps : (ctx : Context Nic M) → (clear_large verbs ctx).rnic_hw_ts ≡ ctx.rnic_hw_ts
  unfolding clear_large
  clear_large-keeps ctx = ground arith

  pub post_send-keeps :
      (ctx : Context Nic M) (dest : RdmaAddr) (msg : M) (i id : ℕ)
      → (post_send verbs ctx dest msg i id).0.rnic_hw_ts ≡ ctx.rnic_hw_ts
  unfolding post_send get_or_create_ah
  post_send-keeps ctx dest msg i id =
      let ctx' = clear_large verbs ctx in
      let o = lookup_ah dest.lid (verbs.ntop dest.gid) ctx'.ah_map in
      let r = reuse_or_create verbs ctx' dest o in
      let kept = reuse_or_create-keeps ctx' dest o ∙ clear_large-keeps ctx in
      elim (Option-cases r.1) [
        | inl e ↦ rw (post_send, e) kept
        | inr (ah, e) ↦ rw (post_send, e) kept
      ]
