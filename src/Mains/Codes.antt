-- ===== src/Mains/Codes.antt =====
-- When a program runs, and with which code it ends otherwise.
use Prim.Native.String.{String}
use text.Mathlib.Text.{◌==◌ as str_eq}
use text.Mathlib.TextEquality.{eq_iff}
use pingweave.Base.{
  ◌≡◌, refl, sym, subst, ◌⊎◌, inl, inr, Bool, true, false, not, ◌&&◌, Option, none, some, List, [],
  ◌∷◌, arith, Bool-cases,
}
use pingweave.Base.Text.{Text, codes}
use pingweave.Ini.{Level}
use pingweave.RdmaContext.Setup.{Attempt, make_ctx}
use pingweave.Mains.{asks_for_help, rdma_main, has_level}

abbrev pub IsRdma : String → Type 0
IsRdma protocol = (protocol ≡ "roce") ⊎ (protocol ≡ "ib")

abbrev pub IsHelp : String → Type 0
IsHelp arg = (arg ≡ "-h") ⊎ (arg ≡ "--help")

-- When an RDMA program runs, and when it ends well.
abbrev pub Runs : (String → String → Bool) → List String → Type 0
Runs program args =
    (ipv4 : String) × (protocol : String) × (args ≡ ipv4 ∷ protocol ∷ [])
    × IsRdma protocol
    × (program ipv4 protocol ≡ true)

abbrev pub Helps : List String → Type 0
Helps args = (arg : String) × (args ≡ arg ∷ []) × IsHelp arg

Helps-cases :
    (arg : String)
    → (asks_for_help arg ≡ true → IsHelp arg) × (IsHelp arg → asks_for_help arg ≡ true)
Helps-cases arg = (
  λ h. ground (arith, eq_iff arg "-h", eq_iff arg "--help"),
  λ h. ground (arith, eq_iff arg "-h", eq_iff arg "--help"),
)

Runs-cases :
    (protocol : String)
    → ((not (str_eq protocol "roce") && not (str_eq protocol "ib")) ≡ false → IsRdma protocol)
      × (IsRdma protocol → (not (str_eq protocol "roce") && not (str_eq protocol "ib")) ≡ false)
Runs-cases protocol = (
  λ h. ground (arith, eq_iff protocol "roce", eq_iff protocol "ib"),
  λ h. ground (arith, eq_iff protocol "roce", eq_iff protocol "ib"),
)

not_help_two : (a b : String) (args : List String) → Helps (a ∷ b ∷ args) → ⊥
not_help_two a b args (arg, e, h) = cc

not-Runs_one : (program : String → String → Bool) (a : String) → Runs program (a ∷ []) → ⊥
not-Runs_one program a (ipv4, protocol, e, h, r) = cc

same_two : {a b c d : String} → ◌≡◌ {A = List String} (a ∷ b ∷ []) (c ∷ d ∷ []) → (a ≡ c) × (b ≡ d)
same_two e = (cc, cc)

-- An RDMA program runs exactly if it is given an address and one of the two protocols, and its function
-- gets as far as its loop; it ends with 0 exactly if its only argument asks for help, and otherwise
-- with 1.
pub rdma_main_lem :
    (program : String → String → Bool) (args : List String)
    → let code = rdma_main program args in
      ((code ≡ none) × Runs program args)
      ⊎ ((code ≡ some 0) × Helps args)
      ⊎ ((code ≡ some 1) × (Runs program args → ⊥) × (Helps args → ⊥))
unfolding rdma_main
rdma_main_lem program [] = inr (inr (refl, λ (a, b, e, h, r). cc, λ (a, e, h). cc))
rdma_main_lem program (arg ∷ []) = elim (Bool-cases (asks_for_help arg)) [
  | inl b ↦ rw b (inr (inl (refl, (arg, refl, (Helps-cases arg).0 b))))
  | inr b ↦ rw b (inr (inr (refl, not-Runs_one program arg, λ (a, e, h). no_help arg a b (cc) h)))
]
  where
    no_help : (arg a : String) → asks_for_help arg ≡ false → arg ≡ a → IsHelp a → ⊥
    no_help arg a b e h =
        let asks : asks_for_help arg ≡ true = (Helps-cases arg).1 (subst IsHelp (sym e) h) in cc
rdma_main_lem program (ipv4 ∷ protocol ∷ []) =
    elim (Bool-cases (not (str_eq protocol "roce") && not (str_eq protocol "ib"))) [
      | inl b ↦ rw b (
          inr (
            inr (
              refl,
              λ (i, p, e, h, r). bad_protocol p (same_two e).1 b h,
              not_help_two ipv4 protocol [],
            )))
      | inr b ↦ rw b (elim (Bool-cases (program ipv4 protocol)) [
        | inl r ↦ rw r (inl (refl, (ipv4, protocol, refl, (Runs-cases protocol).0 b, r)))
        | inr r ↦ rw r (
            inr (
              inr (
                refl,
                λ (i, p, e, h, k). fails i p (same_two e).0 (same_two e).1 r k,
                not_help_two ipv4 protocol [],
              )))
      ])
    ]
  where
    bad_protocol :
        (p : String)
        → protocol ≡ p
        → (not (str_eq protocol "roce") && not (str_eq protocol "ib")) ≡ true
        → IsRdma p
        → ⊥
    bad_protocol p e b h = let other = (Runs-cases protocol).1 (subst IsRdma (sym e) h) in cc

    fails :
        (i p : String)
        → ipv4 ≡ i
        → protocol ≡ p
        → program ipv4 protocol ≡ false
        → program i p ≡ true
        → ⊥
    fails i p e f r k = cc
rdma_main_lem program (a ∷ b ∷ c ∷ args) =
    inr (inr (refl, λ (i, p, e, h, r). cc, not_help_two a b (c ∷ args)))

-- What the RDMA server needs to get to its loop.
abbrev pub CanStart : Option Text → Level → Attempt → Bool → Type 0
CanStart file before tx saved =
    (has_level file before (codes "logger_cpp_process_rdma_server") ≡ true)
    × ((make_ctx tx).1 ≡ true)
    × (saved ≡ true)
