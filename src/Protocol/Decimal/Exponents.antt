-- ===== src/Protocol/Decimal/Exponents.antt =====
-- How the exponent of a number is cut off (`splitExponent` of internal/protocol/payload.go).
use postie.Prelude.{
  ℕ, ◌≡◌, ◌≢◌, ◌∙◌, refl, ap, ◌⊎◌, inl, inr, Option, none, some, [], ◌∷◌, ◌++◌, eqb, eqb_iff, ℤ,
  pos, Bytes, All, arith, Bool-cases,
}
use mathlib.Core.Path.{subst}
use postie.Protocol.Decimal.{cut_exponent, atoi, in_range, exponent_of, split_exponent}
use postie.Protocol.Decimal.Literals.{IsInteger, atoi-IsInteger}

-- What is before the exponent, and the exponent; 0 where there is none.
abbrev pub IsPlain : Bytes → Type 0
IsPlain s = All (λ c. (c ≢ b'e') × (c ≢ b'E')) s

pub record HasExponent (number mantissa : Bytes) (exponent : ℤ) : Type 0 where
  pub plain : IsPlain mantissa
  pub parts :
      (number ≡ mantissa) × (exponent ≡ pos 0)
      ⊎ ((e : ℕ) × (text : Bytes) × ((e ≡ b'e') ⊎ (e ≡ b'E'))
          × (number ≡ mantissa ++ e ∷ text)
          × IsInteger text exponent)

Cut : Bytes → Bytes × Option Bytes → Type 0
Cut s (mantissa, none) = IsPlain mantissa × (s ≡ mantissa)
Cut s (mantissa, some text) =
    IsPlain mantissa × ((e : ℕ) × ((e ≡ b'e') ⊎ (e ≡ b'E')) × (s ≡ mantissa ++ e ∷ text))

Cut-cons :
    (c : ℕ) (s : Bytes) (x : Bytes × Option Bytes)
    → (c ≢ b'e') × (c ≢ b'E')
    → Cut s x
    → Cut (c ∷ s) (c ∷ x.0, x.1)
unfolding Cut
Cut-cons c s (m, none) h (p, e) = ((h, p), ap (λ r. c ∷ r) e)
Cut-cons c s (m, some t) h (p, (e, k, q)) = ((h, p), (e, k, ap (λ r. c ∷ r) q))

cut_exponent-Cut : (s : Bytes) → Cut s (cut_exponent s)
unfolding cut_exponent Cut
cut_exponent-Cut [] = (tt, refl)
cut_exponent-Cut (c ∷ s) = elim (Bool-cases (eqb c b'e')) [
  | inl lower ↦ rw lower (tt, (c, inl ((eqb_iff c b'e').0 lower), refl))
  | inr not_lower ↦ elim (Bool-cases (eqb c b'E')) [
    | inl upper ↦ rw not_lower (rw upper (tt, (c, inr ((eqb_iff c b'E').0 upper), refl)))
    | inr not_upper ↦ rw not_lower (
        rw not_upper (
          Cut-cons c s (cut_exponent s)
            (
              λ q. absurd (ground (arith, eqb_iff c b'e')),
              λ q. absurd (ground (arith, eqb_iff c b'E')),
            )
            (cut_exponent-Cut s)))
  ]
]

pub split_exponent-HasExponent :
    (s mantissa : Bytes) (n : ℤ) → split_exponent s ≡ some (mantissa, n) → HasExponent s mantissa n
unfolding split_exponent exponent_of in_range Cut
split_exponent-HasExponent s mantissa n h = go (cut_exponent s) (cut_exponent-Cut s) h
  where
    in_range-some :
        (m : Bytes) (x : Option ℤ) (n : ℤ)
        → in_range m x ≡ some (mantissa, n)
        → (m ≡ mantissa) × (x ≡ some n)
    in_range-some m none n h = cc
    in_range-some m (some k) n h = (ground arith, ground arith)

    go :
        (x : Bytes × Option Bytes)
        → Cut s x
        → exponent_of x ≡ some (mantissa, n)
        → HasExponent s mantissa n
    go (m, none) (plain, e) h =
        let same : m ≡ mantissa = ground arith in
        record { plain = subst IsPlain same plain; parts = inl (e ∙ same, ground arith) }
    go (m, some text) (plain, (c, letter, e)) h =
        let (same, reads) = in_range-some m (atoi text) n h in
        record {
          plain = subst IsPlain same plain;
          parts =
              inr (c, text, letter, e ∙ ap (λ x. x ++ c ∷ text) same, atoi-IsInteger text n reads);
        }
