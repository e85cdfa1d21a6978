-- ===== src/Protocol/Decimal/Literals.antt =====
-- How a literal of a JSON number is read (`parseDecimal` of internal/protocol/payload.go, and
-- `strconv.Atoi`).
use postie.Prelude.{
  ℕ, zero, suc, ◌+◌, ◌-◌, ◌*◌, ◌≡◌, ◌≢◌, refl, sym, ap, ◌⊎◌, inl, inr, Bool, true, false, ◌&&◌,
  some, [], ◌∷◌, if◌then◌else◌, leb, eqb, eqb_iff, ℤ, pos, negsuc, Bytes, All, arith, Bool-cases,
  Option-cases,
}
use mathlib.Core.Path.{subst}
use postie.Protocol.Decimal.{digits_value, negated, atoi_digits, atoi}
use postie.Protocol.Decimal.Exactness.{IsDigit, numeral}

-- The number, with a minus.
abbrev pub IsNegated : ℕ → ℤ → Type 0
IsNegated k n = (k ≡ 0) × (n ≡ pos 0) ⊎ ((m : ℕ) × (k ≡ suc m) × (n ≡ negsuc m))

-- A text of digits, one at least, that may have a sign, and the integer that it denotes.
pub record IsInteger (text : Bytes) (n : ℤ) : Type 0 where
  pub digits : Bytes
  pub some_digit : digits ≢ []
  pub all : All IsDigit digits
  pub signed :
      (text ≡ b'-' ∷ digits) × IsNegated (numeral 0 digits) n
      ⊎ ((text ≡ digits) ⊎ (text ≡ b'+' ∷ digits)) × (n ≡ pos (numeral 0 digits))

pub digits_value-digits :
    (a : ℕ) (s : Bytes) (n : ℕ) → digits_value a s ≡ some n → All IsDigit s × (numeral a s ≡ n)
unfolding digits_value
digits_value-digits a [] n h = (tt, ground arith)
digits_value-digits a (c ∷ s) n h = elim (Bool-cases (leb b'0' c && leb c b'9')) [
  | inl digit ↦
      let (all, value) = digits_value-digits (a * 10 + (c - b'0')) s n (ground arith) in
      (((ground arith, ground arith), all), value)
  | inr other ↦ absurd (ground arith)
]

pub digits_value-numeral :
    (a : ℕ) (s : Bytes) → All IsDigit s → digits_value a s ≡ some (numeral a s)
unfolding digits_value
digits_value-numeral a [] h = refl
digits_value-numeral a (c ∷ s) (h, hs) =
    ground (arith, digits_value-numeral (a * 10 + (c - b'0')) s hs)

negated-IsNegated : (k : ℕ) → IsNegated k (negated k)
unfolding negated
negated-IsNegated zero = inl (refl, refl)
negated-IsNegated (suc m) = inr (m, refl, refl)

signed_digits :
    (negative : Bool) (s : Bytes) (n : ℤ)
    → atoi_digits negative s ≡ some n
    → (s ≢ [])
      × All IsDigit s
      × (n ≡ (if negative then negated (numeral 0 s) else pos (numeral 0 s)))
unfolding atoi_digits
signed_digits negative [] n h = absurd (cc)
signed_digits negative (c ∷ s) n h = elim (Option-cases (digits_value 0 (c ∷ s))) [
  | inl bad ↦ absurd (ground arith)
  | inr (k, e) ↦
      let (all, value) = digits_value-digits 0 (c ∷ s) k e in (λ q. cc, all, ground arith)
]

pub atoi-IsInteger : (text : Bytes) (n : ℤ) → atoi text ≡ some n → IsInteger text n
unfolding atoi
atoi-IsInteger [] n h = absurd (cc)
atoi-IsInteger (c ∷ s) n h = elim (Bool-cases (eqb c b'-')) [
  | inl minus ↦
      let (some_digit, all, e) = signed_digits true s n (ground arith) in
      record {
        digits = s;
        some_digit = some_digit;
        all = all;
        signed = inl (
          ap (λ x. x ∷ s) ((eqb_iff c b'-').0 minus),
          subst (IsNegated (numeral 0 s)) (sym e) (negated-IsNegated (numeral 0 s)),
        );
      }
  | inr none' ↦ elim (Bool-cases (eqb c b'+')) [
    | inl plus ↦
        let (some_digit, all, e) = signed_digits false s n (ground arith) in
        record {
          digits = s;
          some_digit = some_digit;
          all = all;
          signed = inr (inr (ap (λ x. x ∷ s) ((eqb_iff c b'+').0 plus)), e);
        }
    | inr bare ↦
        let (some_digit, all, e) = signed_digits false (c ∷ s) n (ground arith) in
        record { digits = c ∷ s; some_digit = some_digit; all = all; signed = inr (inl refl, e) }
  ]
]
