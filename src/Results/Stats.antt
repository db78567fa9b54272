-- ===== src/Results/Stats.antt =====
-- The statistics of a list of delays.
use pingweave.Base.{
  ℕ, zero, suc, ◌+◌, ◌*◌, ◌/◌, ◌^◌, ◌≤◌, ◌<◌, ◌≡◌, refl, inl, inr, List, [], ◌∷◌, arith, u64, leb,
  leb→le, Bool-cases, length, get_or, All,
}
use native.Mathlib.Nat.{div-le_of_le-mul}
use pingweave.Results.{accumulate, max_element, insert_sorted, sort, percentile, calc_result_stats}

All-map : {P Q : ℕ → Type 0} (xs : List ℕ) → ((x : ℕ) → P x → Q x) → All P xs → All Q xs
All-map [] f h = tt
All-map (x ∷ xs) f (p, h) = (f x p, All-map xs f h)

max-bound : (xs : List ℕ) → All (λ y. y ≤ max_element xs) xs
unfolding max_element
max-bound [] = tt
max-bound (x ∷ xs) =
    (ground arith, All-map xs (λ y (h : y ≤ max_element xs). ground (arith, h)) (max-bound xs))

All-insert : (P : ℕ → Type 0) (x : ℕ) (xs : List ℕ) → P x → All P xs → All P (insert_sorted x xs)
unfolding insert_sorted
All-insert P x [] p h = (p, tt)
All-insert P x (y ∷ ys) p (q, h) = elim (Bool-cases (leb x y)) [
  | inl e ↦ rw (insert_sorted, e) (p, (q, h))
  | inr e ↦ rw (insert_sorted, e) (q, All-insert P x ys p h)
]

All-sort : (P : ℕ → Type 0) (xs : List ℕ) → All P xs → All P (sort xs)
unfolding sort
All-sort P [] h = tt
All-sort P (x ∷ xs) (p, h) = All-insert P x (sort xs) p (All-sort P xs h)

length-insert : (x : ℕ) (xs : List ℕ) → length (insert_sorted x xs) ≡ suc (length xs)
unfolding insert_sorted
length-insert x [] = refl
length-insert x (y ∷ ys) = ground (arith, length-insert x ys)

length-sort : (xs : List ℕ) → length (sort xs) ≡ length xs
unfolding sort
length-sort [] = refl
length-sort (x ∷ xs) = omega (arith, length-insert x (sort xs), length-sort xs)

-- Each element is at most those behind it.
abbrev pub IsSorted : List ℕ → Type 0
IsSorted [] = Unit
IsSorted (x ∷ xs) = All (λ y. x ≤ y) xs × IsSorted xs

insert-IsSorted : (x : ℕ) (xs : List ℕ) → IsSorted xs → IsSorted (insert_sorted x xs)
unfolding insert_sorted
insert-IsSorted x [] h = (tt, tt)
insert-IsSorted x (y ∷ ys) (a, h) = elim (Bool-cases (leb x y)) [
  | inl e ↦
      let below = leb→le x y e in
      let all : All (λ z. x ≤ z) ys = All-map ys (λ z (p : y ≤ z). omega (arith, below)) a in
      rw (insert_sorted, e) ((below, all), (a, h))
  | inr e ↦
      rw (insert_sorted, e)
        (All-insert (λ z. y ≤ z) x ys (ground (arith, e)) a, insert-IsSorted x ys h)
]

sort-IsSorted : (xs : List ℕ) → IsSorted (sort xs)
unfolding sort
sort-IsSorted [] = tt
sort-IsSorted (x ∷ xs) = insert-IsSorted x (sort xs) (sort-IsSorted xs)

All-get : (P : ℕ → Type 0) (xs : List ℕ) (i : ℕ) → i < length xs → All P xs → P (get_or xs i 0)
All-get P [] i l h = absurd (omega arith)
All-get P (x ∷ xs) zero l (p, h) = p
All-get P (x ∷ xs) (suc i) l (p, h) = All-get P xs i (omega arith) h

get_mono :
    (xs : List ℕ) (i j : ℕ) → IsSorted xs → i ≤ j → j < length xs → get_or xs i 0 ≤ get_or xs j 0
get_mono [] i j s h l = absurd (omega arith)
get_mono (x ∷ xs) zero zero s h l = omega arith
get_mono (x ∷ xs) zero (suc j) (a, s) h l = All-get (λ y. x ≤ y) xs j (omega arith) a
get_mono (x ∷ xs) (suc i) zero s h l = absurd (omega arith)
get_mono (x ∷ xs) (suc i) (suc j) (a, s) h l = get_mono xs i j s (omega arith) (omega arith)

accumulate-bound :
    (m : ℕ) (xs : List ℕ) (acc : ℕ)
    → All (λ y. y ≤ m) xs
    → acc + length xs * m < 2 ^ 64
    → accumulate xs acc ≤ acc + length xs * m
unfolding accumulate
accumulate-bound m [] acc h l = omega arith
accumulate-bound m (x ∷ xs) acc (p, h) l =
    let split : suc (length xs) * m ≡ m + length xs * m = grind arith in
    let small : u64 (acc + x) ≡ acc + x = omega (arith, split, l) in
    rw small (omega (arith, split, accumulate-bound m xs (acc + x) h (omega (arith, split, l))))

-- Where there are delays, the percentiles are read inside the sorted list, they are in order, and
-- the maximum bounds them.
pub percentiles_in_order :
    (d : ℕ) (ds : List ℕ)
    → let r = calc_result_stats (d ∷ ds) in
      (length (sort (d ∷ ds)) * 99 / 100 < length (sort (d ∷ ds)))
      × (r.percentile_50 ≤ r.percentile_95)
      × (r.percentile_95 ≤ r.percentile_99)
      × (r.percentile_99 ≤ r.max)
unfolding calc_result_stats percentile
percentiles_in_order d ds =
    let xs = sort (d ∷ ds) in
    let n : length xs ≡ suc (length ds) = length-sort (d ∷ ds) in
    let s = sort-IsSorted (d ∷ ds) in
    let m = max_element (d ∷ ds) in
    let inside : length xs * 99 / 100 < length xs = omega (arith, n) in
    (
      inside,
      get_mono xs (length xs * 50 / 100) (length xs * 95 / 100) s (omega arith) (omega (arith, n)),
      get_mono xs (length xs * 95 / 100) (length xs * 99 / 100) s (omega arith) inside,
      All-get (λ y. y ≤ m) xs (length xs * 99 / 100) inside
          (All-sort (λ y. y ≤ m) (d ∷ ds) (max-bound (d ∷ ds))),
    )

-- The mean is at most the maximum, unless the sum of the delays could overflow 64 bits.
pub mean-le-max :
    (ds : List ℕ)
    → length ds * (calc_result_stats ds).max < 2 ^ 64
    → (calc_result_stats ds).mean ≤ (calc_result_stats ds).max
unfolding calc_result_stats
mean-le-max [] h = omega arith
mean-le-max (d ∷ ds) h =
    let m = max_element (d ∷ ds) in
    let sum : accumulate (d ∷ ds) 0 ≤ 0 + length (d ∷ ds) * m =
      accumulate-bound m (d ∷ ds) 0 (max-bound (d ∷ ds)) (omega (arith, h)) in
    div-le_of_le-mul (suc (length ds)) (omega (arith, sum))
