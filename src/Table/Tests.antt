-- ===== src/Table/Tests.antt =====
-- Runs of the shared container, and instances of its theorems.
use pingweave.Base.{ℕ, ◌≡◌, refl, List, [], ◌∷◌, ◌++◌, arith, dec_lt}
use pingweave.Table.{Entry, Store, find, expire_entries, erase}
use pingweave.Table.Linked.{IsValid}
use pingweave.Table.Expire.{expired, expire_entries_lem}

abbrev entry : ℕ → ℕ → ℕ → Entry ℕ
entry value timestamp iter = record { value = value; timestamp = timestamp; list_iter = iter }

-- Two entries, the older one stale after one second.
abbrev two : Store ℕ (List ℕ)
two = record {
  table = record {
    map = (7, entry 70 0 0) ∷ (8, entry 80 900_000_000 1) ∷ [];
    key_list = record { iter = 0; key = 7 } ∷ record { iter = 1; key = 8 } ∷ [];
    next_iter = 2;
    threshold_ms = 1000;
  };
  queue = [];
}

abbrev evict : List ℕ → ℕ → List ℕ
evict q v = q ++ (v ∷ [])

two-IsValid : IsValid 900_000_000 two.table
unfolding find
two-IsValid = record {
  aligned = refl;
  linked = (
    omega arith,
    omega arith,
    omega arith,
    omega arith,
    refl,
    (omega arith, omega arith, omega arith, omega arith, refl, tt),
  );
}

expire_runs : (expire_entries evict 1_500_000_000 two).1 ≡ 1
unfolding expire_entries find erase dec_lt
expire_runs = refl

expire_entries_lem_example :
    expire_entries evict 1_500_000_000 two ≡ expired evict 1_500_000_000 two
expire_entries_lem_example = expire_entries_lem evict 1_500_000_000 two two-IsValid
