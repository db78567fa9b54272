-- ===== src/Pinglist/Rdma.antt =====
-- The addresses of the RDMA scheduler: one for an IP.
use pingweave.Base.{
  ℕ, ◌≡◌, refl, ap, inl, inr, Bool, true, false, not, ◌&&◌, Option, none, some, List, [], ◌∷◌, ◌++◌,
  arith, u32, Bool-cases, Option-cases,
}
use Prim.Native.String.{String}
use pingweave.Pinglist.{
  StoreEntry, RdmaAddress, Found, Pinglist, contains, and_then, add_entry, read_store, rdma_section,
  rdma_addresses, arrow_targets, mesh_targets, add_relevant,
}
use pingweave.Pinglist.Targets.{contains-append, distinct, distinct-append}

abbrev pub ips : List RdmaAddress → List String
ips [] = []
ips (a ∷ xs) = a.0 ∷ ips xs

ips-append : (a : RdmaAddress) (xs : List RdmaAddress) → ips (xs ++ (a ∷ [])) ≡ ips xs ++ (a.0 ∷ [])
ips-append a [] = refl
ips-append a (x ∷ xs) = ap (λ l. x.0 ∷ l) (ips-append a xs)

-- The IPs found are distinct, and known.
record IsKnown (f : Found) : Type 0 where
  once : distinct (ips f.1) ≡ true
  known : (x : String) → contains x (ips f.1) ≡ true → contains x f.0 ≡ true

add_entry-IsKnown :
    (ip : String) (fields : Option (String × ℕ × ℕ)) (f : Found)
    → IsKnown f
    → contains ip f.0 ≡ false
    → IsKnown (add_entry ip fields f).0
unfolding add_entry
add_entry-IsKnown ip none (known, found) h n = record {
  once = h.once;
  known = λ x c. ground (arith, contains-append x ip known, h.known x c);
}
add_entry-IsKnown ip (some (gid, lid, qpn)) (known, found) h n =
    let a : RdmaAddress = (ip, gid, u32 lid, u32 qpn) in
    record {
      once =
          rw (ips-append a found)
            (distinct-append ip (ips found) (ground (arith, h.known ip, n)) h.once);
      known = λ x c. ground (
        arith,
        contains-append x ip known,
        contains-append x ip (ips found),
        ap (contains x) (ips-append a found),
        h.known x,
        c,
      );
    }

and_then-IsKnown :
    (r : Found × Bool) (next : Found → Found × Bool)
    → IsKnown r.0
    → ((f : Found) → IsKnown f → IsKnown (next f).0)
    → IsKnown (and_then r next).0
and_then-IsKnown (f, true) next h k = h
and_then-IsKnown (f, false) next h k = k f h

read_store-IsKnown :
    (relevant : List String) (es : List StoreEntry) (f : Found)
    → IsKnown f
    → IsKnown (read_store relevant es f).0
unfolding read_store
read_store-IsKnown relevant [] f h = h
read_store-IsKnown relevant (e ∷ es) f h = elim (Option-cases e.ip) [
  | inl n ↦ rw (read_store, n) h
  | inr (ip, n) ↦ elim (Bool-cases (contains ip relevant && not (contains ip f.0))) [
    | inl c ↦
        rw (read_store, n, c)
          (and_then-IsKnown (add_entry ip e.fields f) (read_store relevant es)
            (add_entry-IsKnown ip e.fields f h (ground (arith, c)))
            (read_store-IsKnown relevant es))
    | inr c ↦ rw (read_store, n, c) (read_store-IsKnown relevant es f h)
  ]
]

rdma_section-IsKnown :
    (r : List String × Bool) (store : List StoreEntry) (f : Found)
    → IsKnown f
    → IsKnown (rdma_section r store f).0
unfolding rdma_section
rdma_section-IsKnown (relevant, true) store f h = h
rdma_section-IsKnown (relevant, false) store f h = read_store-IsKnown relevant store f h

-- No IP has two addresses in the list, whatever the files hold and wherever reading them throws.
pub rdma_addresses-distinct :
    (me : String) (p : Pinglist) (store : List StoreEntry)
    → distinct (ips (rdma_addresses me p store).0) ≡ true
unfolding rdma_addresses
rdma_addresses-distinct me p store =
    let start : IsKnown ([], []) = record { once = refl; known = λ x c. ground (arith, c) } in
    (rdma_section-IsKnown (arrow_targets add_relevant me p.arrow []) store
      (rdma_section (mesh_targets add_relevant me p.mesh []) store ([], [])).0
      (rdma_section-IsKnown (mesh_targets add_relevant me p.mesh []) store ([], []) start)).once
