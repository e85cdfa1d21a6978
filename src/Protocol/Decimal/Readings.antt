-- ===== src/Protocol/Decimal/Readings.antt =====
-- How a literal of a JSON number is taken apart (`parseDecimal` of internal/protocol/payload.go).
use postie.Prelude.{
  ℕ, suc, ◌+◌, ◌-◌, ◌≤◌, ◌<◌, ◌≡◌, ◌≢◌, ◌∙◌, refl, sym, ap, ◌⊎◌, inl, inr, Bool, true, false,
  Option, none, some, [], ◌∷◌, ◌++◌, ltb, eqb, eqb_iff, ℤ, pos, negsuc, Bytes, cut, length, All,
  arith, Bool-cases,
}
use mathlib.Core.Path.{subst}
use postie.Encoding.{num}
use postie.Protocol.Decimal.{
  Decimal, split_sign, split_exponent, plus_ℤ, joined, drop_point, placed, pointed, parse_decimal,
}
use postie.Protocol.Decimal.Exponents.{HasExponent, split_exponent-HasExponent}

-- A natural number and an integer, added.
abbrev pub IsSum : ℕ → ℤ → ℤ → Type 0
IsSum k (pos m) n = n ≡ pos (k + m)
IsSum k (negsuc m) n = (m < k) × (n ≡ pos (k - suc m)) ⊎ (k ≤ m) × (n ≡ negsuc (m - k))

plus_ℤ-IsSum : (k : ℕ) (n : ℤ) → IsSum k n (plus_ℤ k n)
unfolding plus_ℤ
plus_ℤ-IsSum k (pos m) = refl
plus_ℤ-IsSum k (negsuc m) = elim (Bool-cases (ltb m k)) [
  | inl lt ↦ rw lt (inl (ground arith, ap pos (omega arith)))
  | inr ge ↦ rw ge (inr (ground arith, refl))
]

-- The digits of a mantissa and its exponent, joined.
pub record IsJoined (mantissa : Bytes) (exponent : ℤ) (ds : Bytes) (at : ℤ) : Type 0 where
  pub whole : Bytes
  pub fraction : Bytes
  pub pointless : All (λ c. c ≢ b'.') whole
  pub parts : (mantissa ≡ whole) × (fraction ≡ []) ⊎ (mantissa ≡ whole ++ b'.' ∷ fraction)
  pub digits : ds ≡ whole ++ fraction
  pub point : IsSum (length whole) exponent at

-- How a literal makes these digits, with the point behind so many of them.
pub record IsRead (literal : Bytes) (d : Decimal) : Type 0 where
  pub sign : Bytes
  pub number : Bytes
  pub mantissa : Bytes
  pub exponent : ℤ
  pub signed : literal ≡ sign ++ number
  pub negative :
      (d.negative ≡ true) × (sign ≡ b'-' ∷ [])
      ⊎ (d.negative ≡ false) × (sign ≡ []) × ((s : Bytes) → literal ≢ b'-' ∷ s)
  pub raised : HasExponent number mantissa exponent
  pub joins : IsJoined mantissa exponent d.digits d.point

-- The mantissa, cut at its point.
Halved : Bytes → Option (Bytes × Bytes) → Type 0
Halved s none = All (λ c. c ≢ b'.') s
Halved s (some (before, after)) = All (λ c. c ≢ b'.') before × (s ≡ before ++ b'.' ∷ after)

Halved-cons :
    (c : ℕ) (s : Bytes) (x : Option (Bytes × Bytes))
    → c ≢ b'.'
    → Halved s x
    → Halved (c ∷ s) (elim x [ none ↦ none | some (before, after) ↦ some (c ∷ before, after) ])
unfolding Halved
Halved-cons c s none n h = (n, h)
Halved-cons c s (some (before, after)) n (h, e) = ((n, h), ap (λ r. c ∷ r) e)

cut-Halved : (s : Bytes) → Halved s (cut b'.' s)
unfolding cut Halved
cut-Halved [] = tt
cut-Halved (c ∷ s) = elim (Bool-cases (eqb c b'.')) [
  | inl at ↦ rw at (tt, ap (λ x. x ∷ s) ((eqb_iff c b'.').0 at))
  | inr off ↦
      rw off
        (Halved-cons c s (cut b'.' s) (λ q. absurd (ground (arith, eqb_iff c b'.'))) (cut-Halved s))
]

joined-IsJoined :
    (mantissa : Bytes) (exponent : ℤ) (x : Option (Bytes × Bytes))
    → Halved mantissa x
    → IsJoined mantissa exponent (joined mantissa exponent x).0 (joined mantissa exponent x).1
unfolding joined Halved
joined-IsJoined mantissa exponent none h = record {
  whole = mantissa;
  fraction = [];
  pointless = h;
  parts = inl (refl, refl);
  digits = sym (append_nil mantissa);
  point = plus_ℤ-IsSum (length mantissa) exponent;
}
  where
    append_nil : (s : Bytes) → s ++ [] ≡ s
    append_nil [] = refl
    append_nil (c ∷ s) = ap (λ r. c ∷ r) (append_nil s)
joined-IsJoined mantissa exponent (some (before, after)) (h, e) = record {
  whole = before;
  fraction = after;
  pointless = h;
  parts = inr e;
  digits = refl;
  point = plus_ℤ-IsSum (length before) exponent;
}

drop_point-IsJoined :
    (mantissa : Bytes) (exponent : ℤ)
    → IsJoined mantissa exponent (drop_point mantissa exponent).0 (drop_point mantissa exponent).1
unfolding drop_point
drop_point-IsJoined mantissa exponent =
    joined-IsJoined mantissa exponent (cut b'.' mantissa) (cut-Halved mantissa)

placed-some :
    (negative : Bool) (x : Bytes × ℤ) (d : Decimal)
    → placed negative x ≡ some d
    → d ≡ record { negative = negative; digits = x.0; point = x.1 }
unfolding placed
placed-some negative ([], point) d h = absurd (cc)
placed-some negative (c ∷ s, point) d h = ground arith

pointed-some :
    (negative : Bool) (x : Option (Bytes × ℤ)) (d : Decimal)
    → pointed negative x ≡ some d
    → (m : Bytes) × (e : ℤ) × (x ≡ some (m, e))
      × (d.negative ≡ negative)
      × IsJoined m e d.digits d.point
unfolding pointed
pointed-some negative none d h = absurd (cc)
pointed-some negative (some (m, e)) d h =
    let same = placed-some negative (drop_point m e) d h in
    (
      m,
      e,
      refl,
      ap (λ (x : Decimal). x.negative) same,
      subst (λ (x : Decimal). IsJoined m e x.digits x.point) (sym same) (drop_point-IsJoined m e),
    )

Signed : Bytes → Bool × Bytes → Type 0
Signed literal (negative, number) =
    (negative ≡ true) × (literal ≡ b'-' ∷ number)
    ⊎ (negative ≡ false) × (literal ≡ number) × ((s : Bytes) → literal ≢ b'-' ∷ s)

split_sign-Signed : (literal : Bytes) → Signed literal (split_sign literal)
unfolding split_sign Signed
split_sign-Signed [] = inr (refl, refl, λ s q. cc)
split_sign-Signed (c ∷ s) = elim (Bool-cases (eqb c b'-')) [
  | inl minus ↦ rw minus (inl (refl, ap (λ x. x ∷ s) ((eqb_iff c b'-').0 minus)))
  | inr bare ↦ rw bare (inr (refl, refl, λ r q. absurd (ground (arith, eqb_iff c b'-'))))
]

number-IsRead :
    (literal : Bytes) (x : Bool × Bytes) (d : Decimal)
    → Signed literal x
    → pointed x.0 (split_exponent x.1) ≡ some d
    → IsRead literal d
unfolding Signed
number-IsRead literal (negative, number) d h k =
    let (m, e, split, neg, j) = pointed-some negative (split_exponent number) d k in
    let raised = split_exponent-HasExponent number m e split in
    elim h [
      | inl (is, written) ↦ record {
        sign = b'-' ∷ [];
        number = number;
        mantissa = m;
        exponent = e;
        signed = written;
        negative = inl (neg ∙ is, refl);
        raised = raised;
        joins = j;
      }
      | inr (is, written, bare) ↦ record {
        sign = [];
        number = number;
        mantissa = m;
        exponent = e;
        signed = written;
        negative = inr (neg ∙ is, refl, bare);
        raised = raised;
        joins = j;
      }
    ]

pub parse_decimal-IsRead :
    (literal : Bytes) (d : Decimal) → parse_decimal (some (num literal)) ≡ some d → IsRead literal d
unfolding parse_decimal
parse_decimal-IsRead literal d h =
    number-IsRead literal (split_sign literal) d (split_sign-Signed literal) h
