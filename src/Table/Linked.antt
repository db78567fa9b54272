-- ===== src/Table/Linked.antt =====
-- The representation invariant: map and list hold the same keys in the same order, each entry
-- points to its own node, no key occurs twice, and the time stamps do not fall along the list.
use pingweave.Base.{
  ℕ, suc, ◌≤◌, ◌<◌, ◌≡◌, refl, none, some, [], ◌∷◌, ◌++◌, map, arith, inl, inr, Option-cases,
}
use mathlib.Core.List.{map-append}
use pingweave.Table.{Node, Entry, Map, Table, find, erase, modify, erase_node, emplace, remove}
use pingweave.Table.Maps.{find-append_none, find-erase-none, find-modify-none, assign_new}

module _ {ℓ} {V : Type ℓ} where
  abbrev pub node_of : ℕ × Entry V → Node
  node_of (k, e) = record { iter = e.list_iter; key = k }

  -- From the node `i` and the time `ts` on, before the node `n`, and not after `now`.
  abbrev pub Linked : ℕ → ℕ → ℕ → ℕ → Map V → Type ℓ
  Linked n now i ts [] = Unit
  Linked n now i ts ((k, e) ∷ m) =
      (i ≤ e.list_iter)
      × (e.list_iter < n)
      × (ts ≤ e.timestamp)
      × (e.timestamp ≤ now)
      × (find k m ≡ none)
      × Linked n now (suc e.list_iter) e.timestamp m

  pub record IsValid (now : ℕ) (t : Table V) : Type ℓ where
    pub aligned : t.key_list ≡ map node_of t.map
    pub linked : Linked t.next_iter now 0 0 t.map

  pub Linked-mono :
      (n n' now now' i i' ts ts' : ℕ) (m : Map V)
      → n ≤ n'
      → now ≤ now'
      → i' ≤ i
      → ts' ≤ ts
      → Linked n now i ts m
      → Linked n' now' i' ts' m
  Linked-mono n n' now now' i i' ts ts' [] a b c d h = tt
  Linked-mono n n' now now' i i' ts ts' ((k, e) ∷ m) a b c d h = (
    omega arith,
    omega arith,
    omega arith,
    omega arith,
    h.4,
    Linked-mono n n' now now' (suc e.list_iter) (suc e.list_iter) e.timestamp e.timestamp m a b
        (omega arith) (omega arith) h.5,
  )

  pub Linked-erase :
      (k n now i ts : ℕ) (m : Map V) → Linked n now i ts m → Linked n now i ts (erase k m)
  unfolding erase
  Linked-erase k n now i ts [] h = tt
  Linked-erase k n now i ts ((j, e) ∷ m) h = ground (
    arith,
    find-erase-none k j m,
    Linked-erase k n now (suc e.list_iter) e.timestamp m h.5,
    Linked-mono n n now now (suc e.list_iter) i e.timestamp ts m,
  )

  pub Linked-append :
      (k n now now' i ts : ℕ) (v : V) (m : Map V)
      → i ≤ n
      → ts ≤ now'
      → now ≤ now'
      → find k m ≡ none
      → Linked n now i ts m
      → Linked
          (suc n)
          now'
          i
          ts
          (m ++ ((k, record { value = v; timestamp = now'; list_iter = n }) ∷ []))
  unfolding find
  Linked-append k n now now' i ts v [] a b c f h = (a, omega arith, b, omega arith, refl, tt)
  Linked-append k n now now' i ts v ((j, e) ∷ m) a b c f h = ground (
    arith,
    find-append_none j k (record { value = v; timestamp = now'; list_iter = n }) m,
    Linked-append k n now now' (suc e.list_iter) e.timestamp v m,
  )

  pub Linked-modify :
      (k n now i ts : ℕ) (f : V → V) (m : Map V)
      → Linked n now i ts m
      → Linked n now i ts (modify k f m)
  unfolding modify
  Linked-modify k n now i ts f [] h = tt
  Linked-modify k n now i ts f ((j, e) ∷ m) h =
      ground (
        arith,
        find-modify-none k j f m,
        Linked-modify k n now (suc e.list_iter) e.timestamp f m h.5,
      )

  pub nodes-modify : (k : ℕ) (f : V → V) (m : Map V) → map node_of (modify k f m) ≡ map node_of m
  unfolding modify
  nodes-modify k f [] = refl
  nodes-modify k f ((j, e) ∷ m) = ground (arith, nodes-modify k f m)

  -- A stored iterator is not one of an earlier node.
  iter-le-find :
      (k n now i ts : ℕ) (m : Map V) (e : Entry V)
      → Linked n now i ts m
      → find k m ≡ some e
      → i ≤ e.list_iter
  unfolding find
  iter-le-find k n now i ts [] e h f = ground arith
  iter-le-find k n now i ts ((j, d) ∷ m) e h f =
      ground (arith, iter-le-find k n now (suc d.list_iter) d.timestamp m e h.5)

  -- Erasing by the stored iterator removes the key's own node.
  pub nodes-erase :
      (k n now i ts : ℕ) (m : Map V) (e : Entry V)
      → Linked n now i ts m
      → find k m ≡ some e
      → erase_node e.list_iter (map node_of m) ≡ map node_of (erase k m)
  unfolding find erase erase_node
  nodes-erase k n now i ts [] e h f = ground arith
  nodes-erase k n now i ts ((j, d) ∷ m) e h f = ground (
    arith,
    iter-le-find k n now (suc d.list_iter) d.timestamp m e h.5,
    nodes-erase k n now (suc d.list_iter) d.timestamp m e h.5,
  )

  pub find-erase_self :
      (k n now i ts : ℕ) (m : Map V) → Linked n now i ts m → find k (erase k m) ≡ none
  unfolding find erase
  find-erase_self k n now i ts [] h = refl
  find-erase_self k n now i ts ((j, e) ∷ m) h =
      ground (arith, find-erase_self k n now (suc e.list_iter) e.timestamp m h.5)

  pub IsValid-later : {now now' : ℕ} {t : Table V} → now ≤ now' → IsValid now t → IsValid now' t
  IsValid-later {now} {now'} {t} h v = record {
    aligned = v.aligned;
    linked =
        Linked-mono t.next_iter t.next_iter now now' 0 0 0 0 t.map (omega arith) h (omega arith)
          (omega arith) v.linked;
  }

  pub emplace-IsValid :
      (k : ℕ) (x : V) {now : ℕ} (now' : ℕ) (t : Table V)
      → now ≤ now'
      → find k t.map ≡ none
      → IsValid now t
      → IsValid now' (emplace k x now' t)
  unfolding emplace
  emplace-IsValid k x {now} now' t h f v = record {
    aligned = rw (assign_new k _ t.map f, map-append, v.aligned);
    linked =
        rw (assign_new k _ t.map f) (
          Linked-append k t.next_iter now now' 0 0 x t.map (omega arith) (omega arith) h f
            v.linked);
  }

  pub remove-IsValid : (k : ℕ) {now : ℕ} (t : Table V) → IsValid now t → IsValid now (remove k t).0
  unfolding remove
  remove-IsValid k {now} t v = elim (Option-cases (find k t.map)) [
    | inl e ↦ rw (e, remove) v
    | inr (d, e) ↦
        rw (e, remove)
          (record {
            aligned = rw v.aligned (nodes-erase k t.next_iter now 0 0 t.map d v.linked e);
            linked = Linked-erase k t.next_iter now 0 0 t.map v.linked;
          })
  ]
