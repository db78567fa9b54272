-- ===== src/Table/Maps.antt =====
-- The map's operations, seen through `find`.
use pingweave.Base.{ℕ, ◌≡◌, refl, false, none, some, [], ◌∷◌, ◌++◌, if◌then◌else◌, ◌==◌, arith}
use pingweave.Table.{Entry, Map, find, erase, assign, modify}

module _ {ℓ} {V : Type ℓ} where
  pub find-assign :
      (k j : ℕ) (e : Entry V) (m : Map V)
      → find j (assign k e m) ≡ (if k == j then some e else find j m)
  unfolding find assign
  find-assign k j e [] = refl
  find-assign k j e ((i, d) ∷ m) = ground (arith, find-assign k j e m)

  pub assign_new :
      (k : ℕ) (e : Entry V) (m : Map V) → find k m ≡ none → assign k e m ≡ m ++ ((k, e) ∷ [])
  unfolding find assign
  assign_new k e [] h = refl
  assign_new k e ((i, d) ∷ m) h = ground (arith, assign_new k e m)

  pub find-erase_ne : (k j : ℕ) (m : Map V) → (k == j) ≡ false → find j (erase k m) ≡ find j m
  unfolding find erase
  find-erase_ne k j [] h = refl
  find-erase_ne k j ((i, d) ∷ m) h = ground (arith, find-erase_ne k j m)

  abbrev pub edit : (V → V) → Entry V → Entry V
  edit f e = record e { value = f e.value }

  pub find-modify :
      (k : ℕ) (f : V → V) (m : Map V) {e : Entry V}
      → find k m ≡ some e
      → find k (modify k f m) ≡ some (edit f e)
  unfolding find modify
  find-modify k f [] h = ground arith
  find-modify k f ((i, d) ∷ m) {e} h = ground (arith, find-modify k f m {e = e})

  pub find-modify_ne :
      (k j : ℕ) (f : V → V) (m : Map V) → (k == j) ≡ false → find j (modify k f m) ≡ find j m
  unfolding find modify
  find-modify_ne k j f [] h = refl
  find-modify_ne k j f ((i, d) ∷ m) h = ground (arith, find-modify_ne k j f m)

  pub find-modify-none :
      (k j : ℕ) (f : V → V) (m : Map V) → find j m ≡ none → find j (modify k f m) ≡ none
  unfolding find modify
  find-modify-none k j f [] h = refl
  find-modify-none k j f ((i, d) ∷ m) h = ground (arith, find-modify-none k j f m)

  pub find-append_none :
      (j k : ℕ) (e : Entry V) (m : Map V)
      → find j m ≡ none
      → (k == j) ≡ false
      → find j (m ++ ((k, e) ∷ [])) ≡ none
  unfolding find
  find-append_none j k e [] h n = ground arith
  find-append_none j k e ((i, d) ∷ m) h n = ground (arith, find-append_none j k e m)

  pub find-erase-none : (k j : ℕ) (m : Map V) → find j m ≡ none → find j (erase k m) ≡ none
  unfolding find erase
  find-erase-none k j [] h = refl
  find-erase-none k j ((i, d) ∷ m) h = ground (arith, find-erase-none k j m)

  pub erase-modify : (k : ℕ) (f : V → V) (m : Map V) → erase k (modify k f m) ≡ erase k m
  unfolding erase modify
  erase-modify k f [] = refl
  erase-modify k f ((i, d) ∷ m) = ground (arith, erase-modify k f m)
