-- ===== src/Devices/Choice.antt =====
-- Which GID and which port are chosen.
use pingweave.Base.{
  ℕ, zero, suc, ◌<◌, ◌≡◌, refl, sym, ap, ap₂, subst, ◌∙◌, ◌⊎◌, inl, inr, Bool, true, false, not,
  ◌&&◌, Option, none, some, [], arith, dec_lt, if◌then◌else◌, Bool-cases,
}
use pingweave.Base.Text.{Text, codes, text_eq, text_eq_iff}
use pingweave.Devices.{
  Indices, or_else, is_preferred, see_gid, see_index, gid_loop, get_gid_table_index,
}

abbrev pub last_where : (ℕ → Bool) → ℕ → Option ℕ
last_where p zero = none
last_where p (suc i) = let below = last_where p i in if p i then some i else below

abbrev pub is_usable : Text → Bool
is_usable s = not (text_eq s []) && not (text_eq s (codes "::")) && not (text_eq s (codes "fe80::"))

abbrev pub holds : (Text → Bool) → Option Text → Bool
holds p none = false
holds p (some s) = p s

or_else_assoc : (a b c : Option ℕ) → or_else (or_else a b) c ≡ or_else a (or_else b c)
or_else_assoc none b c = refl
or_else_assoc (some i) b c = refl

or_else-none : (a : Option ℕ) → or_else a none ≡ a
or_else-none none = refl
or_else-none (some i) = refl

abbrev here : Bool → ℕ → Option ℕ
here b i = if b then some i else none

-- A text that is neither usable nor preferred.
nothing_seen :
    (t : Text) (i : ℕ) (f : Indices) {s : Text}
    → is_usable t ≡ false
    → is_preferred t ≡ false
    → see_gid i t f ≡ f
    → s ≡ t
    → see_gid i s f ≡ record {
      gid_index = or_else f.gid_index (here (is_usable s) i);
      preferred_gid_index = or_else f.preferred_gid_index (here (is_preferred s) i);
    }
nothing_seen t i f u p e same =
    subst
      (λ s. see_gid i s f ≡ record {
        gid_index = or_else f.gid_index (here (is_usable s) i);
        preferred_gid_index = or_else f.preferred_gid_index (here (is_preferred s) i);
      })
      (sym same) (rw (e, u, p, or_else-none f.gid_index, or_else-none f.preferred_gid_index) refl)

see_gid_lem :
    (i : ℕ) (s : Text) (f : Indices)
    → see_gid i s f ≡ record {
      gid_index = or_else f.gid_index (here (is_usable s) i);
      preferred_gid_index = or_else f.preferred_gid_index (here (is_preferred s) i);
    }
see_gid_lem i s f = elim (Bool-cases (text_eq s [])) [
  | inl b ↦ nothing_seen [] i f refl refl refl ((text_eq_iff s []).0 b)
  | inr b ↦ elim (Bool-cases (text_eq s (codes "::"))) [
    | inl c ↦ nothing_seen (codes "::") i f refl refl refl ((text_eq_iff s (codes "::")).0 c)
    | inr c ↦ elim (Bool-cases (text_eq s (codes "fe80::"))) [
      | inl d ↦
          nothing_seen (codes "fe80::") i f refl refl refl ((text_eq_iff s (codes "fe80::")).0 d)
      | inr d ↦ elim (Bool-cases (is_preferred s)) [
        | inl e ↦ rw (b, c, d, e) refl
        | inr e ↦ rw (b, c, d, e, or_else-none f.preferred_gid_index) refl
      ]
    ]
  ]
]

see_index_lem :
    (gid_at : ℕ → Option Text) (i : ℕ) (o : Option Text) (f : Indices)
    → see_index gid_at i o f ≡ record {
      gid_index = or_else f.gid_index (here (holds is_usable o) i);
      preferred_gid_index = or_else f.preferred_gid_index (here (holds is_preferred o) i);
    }
see_index_lem gid_at i none f =
    rw (or_else-none f.gid_index, or_else-none f.preferred_gid_index) refl
see_index_lem gid_at i (some s) f = see_gid_lem i s f

or_else-here :
    (a : Option ℕ) (b : Bool) (i : ℕ) (c : Option ℕ)
    → or_else (or_else a (here b i)) c ≡ or_else a (if b then some i else c)
or_else-here none true i c = refl
or_else-here none false i c = refl
or_else-here (some j) b i c = refl

-- What the loop finds at n indices is the highest of them that is usable, and the highest that is
-- preferred.
gid_loop_lem :
    (gid_at : ℕ → Option Text) (n : ℕ) (f : Indices)
    → gid_loop gid_at n f ≡ record {
      gid_index = or_else f.gid_index (last_where (λ i. holds is_usable (gid_at i)) n);
      preferred_gid_index =
          or_else f.preferred_gid_index (last_where (λ i. holds is_preferred (gid_at i)) n);
    }
unfolding gid_loop
gid_loop_lem gid_at zero f = rw (or_else-none f.gid_index, or_else-none f.preferred_gid_index) refl
gid_loop_lem gid_at (suc i) f =
    let u = last_where (λ j. holds is_usable (gid_at j)) i in
    let p = last_where (λ j. holds is_preferred (gid_at j)) i in
    ap (gid_loop gid_at i) (see_index_lem gid_at i (gid_at i) f)
    ∙ gid_loop_lem gid_at i _
    ∙ ap₂ (λ a b. record { gid_index = a; preferred_gid_index = b })
        (or_else-here f.gid_index (holds is_usable (gid_at i)) i u)
        (or_else-here f.preferred_gid_index (holds is_preferred (gid_at i)) i p)

below : (p : ℕ → Bool) (n i : ℕ) → p n ≡ false → i < suc n → (i < n → p i ≡ false) → p i ≡ false
below p n i b h lower = elim (dec_lt i n) [
  | yes k ↦ lower k
  | no k ↦ let e : i ≡ n = omega arith in ap p e ∙ b
]

abbrev pub IsNowhere : (ℕ → Bool) → ℕ → Type 0
IsNowhere p n = (i : ℕ) → i < n → p i ≡ false

abbrev pub IsHighest : (ℕ → Bool) → ℕ → ℕ → Type 0
IsHighest p i n = (i < n) × (p i ≡ true) × ((j : ℕ) → i < j → j < n → p j ≡ false)

-- `last_where` finds the highest index below n where the test holds, if there is one.
last_where_lem :
    (p : ℕ → Bool) (n : ℕ)
    → ((last_where p n ≡ none) × ((i : ℕ) → i < n → p i ≡ false))
      ⊎ ((i : ℕ) × (last_where p n ≡ some i)
          × (i < n)
          × (p i ≡ true)
          × ((j : ℕ) → i < j → j < n → p j ≡ false))
last_where_lem p zero = inl (refl, λ i h. absurd (omega arith))
last_where_lem p (suc n) = elim (Bool-cases (p n)) [
  | inl b ↦ inr (n, rw b refl, omega arith, b, λ j h k. absurd (omega arith))
  | inr b ↦ elim (last_where_lem p n) [
    | inl (nowhere, lower) ↦ inl (rw b nowhere, λ i h. below p n i b h (lower i))
    | inr (i, e, h, holds_i, above) ↦
        inr (i, rw b e, omega arith, holds_i, λ j k l. below p n j b l (above j k))
  ]
]

-- The index chosen among those of a table: the highest whose GID is written with "::ffff:" in front;
-- without one, the highest whose GID is none of "", "::" and "fe80::"; without one, none.
pub get_gid_table_index_lem :
    (gid_at : ℕ → Option Text) (size : ℕ)
    → let preferred : ℕ → Bool = λ i. holds is_preferred (gid_at i) in
      let usable : ℕ → Bool = λ i. holds is_usable (gid_at i) in
      let r = get_gid_table_index gid_at (some size) in
      ((i : ℕ) × (r ≡ some i) × IsHighest preferred i size)
      ⊎ (IsNowhere preferred size
          × (((i : ℕ) × (r ≡ some i) × IsHighest usable i size)
              ⊎ ((r ≡ none) × IsNowhere usable size)))
unfolding get_gid_table_index
get_gid_table_index_lem gid_at size =
    let preferred = λ (i : ℕ). holds is_preferred (gid_at i) in
    let usable = λ (i : ℕ). holds is_usable (gid_at i) in
    let e : get_gid_table_index gid_at (some size)
        ≡ or_else (last_where preferred size) (last_where usable size) =
      ap (λ f. or_else f.preferred_gid_index f.gid_index) (gid_loop_lem gid_at size _) in
    elim (last_where_lem preferred size) [
      | inr (i, found, h, h', h'') ↦ inl (i, e ∙ rw found refl, (h, h', h''))
      | inl (nowhere, h) ↦ elim (last_where_lem usable size) [
        | inr (i, found, k, k', k'') ↦ inr (h, inl (i, e ∙ rw (nowhere, found) refl, (k, k', k'')))
        | inl (neither, k) ↦ inr (h, inr (e ∙ rw (nowhere, neither) refl, k))
      ]
    ]
