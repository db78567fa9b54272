-- ===== src/ReportText/Reading.antt =====
-- A report is read back line by line and field by field.
use pingweave.Base.{
  ℕ, zero, suc, ◌+◌, ◌/◌, ◌%◌, ◌^◌, ◌≡◌, refl, ap, ap₂, ◌∙◌, inl, inr, Bool, true, false, not, ◌&&◌,
  List, [], ◌∷◌, ◌++◌, map, arith, ◌==◌, if◌then◌else◌, Bool-cases, All,
}
use pingweave.Base.Text.{Text, codes, lines, lines_append}
use pingweave.Base.Decimal.{print, print_loop, scan, scan-print}
use pingweave.Results.{ResultStat, RdmaResultInfo, TcpUdpResultInfo}
use pingweave.ReportText.{
  print_padded, timestamp_ns_to_string, join, stat_fields, convert_rdma_result_to_str,
  convert_tcpudp_result_to_str, aggregate,
}

-- The reader's split at commas.
abbrev pub cons_first : ℕ → List Text → List Text
cons_first c [] = (c ∷ []) ∷ []
cons_first c (f ∷ fs) = (c ∷ f) ∷ fs

abbrev pub split : Text → List Text
split [] = [] ∷ []
split (c ∷ cs) = let rest = split cs in if c == b',' then [] ∷ rest else cons_first c rest

-- A field: no comma and no line break.
abbrev is_plain : ℕ → Bool
is_plain c = not (c == b',') && not (c == 10)

abbrev pub IsField : Text → Type 0
IsField = All (λ c. is_plain c ≡ true)

split_field : (f t : Text) → IsField f → split (f ++ (b',' ∷ t)) ≡ f ∷ split t
split_field [] t h = refl
split_field (c ∷ f) t (h, hs) =
    let no_comma : (c == b',') ≡ false = ground arith in
    rw no_comma (ap (cons_first c) (split_field f t hs))

split_last : (f : Text) → IsField f → split f ≡ f ∷ []
split_last [] h = refl
split_last (c ∷ f) (h, hs) =
    let no_comma : (c == b',') ≡ false = ground arith in
    rw no_comma (ap (cons_first c) (split_last f hs))

split-join : (f : Text) (fs : List Text) → All IsField (f ∷ fs) → split (join (f ∷ fs)) ≡ f ∷ fs
split-join f [] (h, hs) = split_last f h
split-join f (g ∷ fs) (h, hs) = split_field f (join (g ∷ fs)) h ∙ ap (◌∷◌ f) (split-join g fs hs)

IsField-append : (s t : Text) → IsField s → IsField t → IsField (s ++ t)
IsField-append [] t h k = k
IsField-append (c ∷ s) t (h, hs) k = (h, IsField-append s t hs k)

print_loop-IsField : (fuel n : ℕ) (out : Text) → IsField out → IsField (print_loop fuel n out)
print_loop-IsField zero n out h = h
print_loop-IsField (suc fuel) n out h = elim (Bool-cases (n == 0)) [
  | inl b ↦ rw b h
  | inr b ↦ rw b (print_loop-IsField fuel (n / 10) ((b'0' + n % 10) ∷ out) (ground arith, h))
]

print-IsField : (n : ℕ) → IsField (print n)
unfolding print
print-IsField n = elim (Bool-cases (n == 0)) [
  | inl b ↦ rw b (refl, tt)
  | inr b ↦ rw b (print_loop-IsField n n [] tt)
]

print_padded-IsField : (k n : ℕ) → IsField (print_padded k n)
print_padded-IsField zero n = tt
print_padded-IsField (suc k) n =
    IsField-append (print_padded k (n / 10)) _ (print_padded-IsField k (n / 10)) (ground arith, tt)

timestamp-IsField :
    (local_time : ℕ → Text) (t : ℕ)
    → ((s : ℕ) → IsField (local_time s))
    → IsField (timestamp_ns_to_string local_time t)
unfolding timestamp_ns_to_string
timestamp-IsField local_time t h =
    IsField-append (local_time (t / 10 ^ 9)) _ (h (t / 10 ^ 9))
      (refl, print_padded-IsField 9 (t % 10 ^ 9))

abbrev pub numbers : List Text → List ℕ
numbers = map (λ f. scan f 0)

numbers-print : (ns : List ℕ) → numbers (map print ns) ≡ ns
numbers-print [] = refl
numbers-print (n ∷ ns) = ap₂ ◌∷◌ (scan-print n) (numbers-print ns)

abbrev pub stat_numbers : ResultStat → List ℕ
stat_numbers s = s.mean ∷ s.max ∷ s.percentile_50 ∷ s.percentile_95 ∷ s.percentile_99 ∷ []

prints-All : (ns : List ℕ) → All IsField (map print ns)
prints-All [] = tt
prints-All (n ∷ ns) = (print-IsField n, prints-All ns)

All-append : (fs gs : List Text) → All IsField fs → All IsField gs → All IsField (fs ++ gs)
All-append [] gs h k = k
All-append (f ∷ fs) gs (h, hs) k = (h, All-append fs gs hs k)

-- Whatever the counts and statistics, the text of a TCP or UDP result is split at its commas into
-- the two addresses, the two times, three numbers, the word and five numbers, each of which reads
-- back as what was printed; addresses and times must have no comma and no line break.
pub convert_tcpudp_result_to_str_lem :
    (local_time : ℕ → Text) (srcip dstip : Text) (info : TcpUdpResultInfo) (stat : ResultStat)
    → ((s : ℕ) → IsField (local_time s))
    → IsField srcip
    → IsField dstip
    → (counts : List Text) × (ns : List Text) × (split
          (convert_tcpudp_result_to_str local_time srcip dstip info stat)
        ≡ srcip
          ∷ dstip
          ∷ timestamp_ns_to_string local_time info.ts_start
          ∷ timestamp_ns_to_string local_time info.ts_end
          ∷ (counts ++ (codes "network" ∷ ns)))
      × (numbers counts ≡ info.n_success ∷ info.n_failure ∷ info.n_weird ∷ [])
      × (numbers ns ≡ stat_numbers stat)
unfolding convert_tcpudp_result_to_str
convert_tcpudp_result_to_str_lem local_time srcip dstip info stat times src dst =
    let counts = info.n_success ∷ info.n_failure ∷ info.n_weird ∷ [] in
    let end =
      All-append (map print counts) (codes "network" ∷ stat_fields stat) (prints-All counts)
        (ground arith, prints-All (stat_numbers stat)) in
    (
      map print counts,
      stat_fields stat,
      split-join srcip _ (
        src,
        (
          dst,
          (
            timestamp-IsField local_time info.ts_start times,
            (timestamp-IsField local_time info.ts_end times, end),
          ),
        ),
      ),
      numbers-print counts,
      numbers-print (stat_numbers stat),
    )

-- The text of an RDMA result is split likewise, with the statistics of client, network and server
-- each behind its word; addresses and times must have no comma and no line break.
pub convert_rdma_result_to_str_lem :
    (local_time : ℕ → Text) (srcip dstip : Text) (info : RdmaResultInfo)
    (client network server : ResultStat)
    → ((s : ℕ) → IsField (local_time s))
    → IsField srcip
    → IsField dstip
    → (counts : List Text) × (cs : List Text) × (ns : List Text) × (ss : List Text) × (split
          (convert_rdma_result_to_str local_time srcip dstip info client network server)
        ≡ srcip
          ∷ dstip
          ∷ timestamp_ns_to_string local_time info.ts_start
          ∷ timestamp_ns_to_string local_time info.ts_end
          ∷ (counts
              ++ ((codes "client" ∷ cs) ++ ((codes "network" ∷ ns) ++ (codes "server" ∷ ss)))))
      × (numbers counts ≡ info.n_success ∷ info.n_failure ∷ info.n_weird ∷ [])
      × (numbers cs ≡ stat_numbers client)
      × (numbers ns ≡ stat_numbers network)
      × (numbers ss ≡ stat_numbers server)
unfolding convert_rdma_result_to_str
convert_rdma_result_to_str_lem local_time srcip dstip info client network server times src dst =
    let counts = info.n_success ∷ info.n_failure ∷ info.n_weird ∷ [] in
    let end =
      All-append (map print counts)
        ((codes "client" ∷ stat_fields client)
          ++ ((codes "network" ∷ stat_fields network) ++ (codes "server" ∷ stat_fields server)))
        (prints-All counts)
        (All-append (codes "client" ∷ stat_fields client)
          ((codes "network" ∷ stat_fields network) ++ (codes "server" ∷ stat_fields server))
          (ground arith, prints-All (stat_numbers client))
          (All-append (codes "network" ∷ stat_fields network) (codes "server" ∷ stat_fields server)
            (ground arith, prints-All (stat_numbers network))
            (ground arith, prints-All (stat_numbers server)))) in
    (
      map print counts,
      stat_fields client,
      stat_fields network,
      stat_fields server,
      split-join srcip _ (
        src,
        (
          dst,
          (
            timestamp-IsField local_time info.ts_start times,
            (timestamp-IsField local_time info.ts_end times, end),
          ),
        ),
      ),
      numbers-print counts,
      numbers-print (stat_numbers client),
      numbers-print (stat_numbers network),
      numbers-print (stat_numbers server),
    )

-- Results put together into one text are read back line by line, if none of them has a line break.
pub lines-aggregate :
    (results : List Text)
    → All (All (λ c. (c == 10) ≡ false)) results
    → lines (aggregate results) ≡ results
unfolding aggregate
lines-aggregate [] h = refl
lines-aggregate (r ∷ rs) (h, hs) =
    lines_append r (aggregate rs) h ∙ ap (◌∷◌ r) (lines-aggregate rs hs)
