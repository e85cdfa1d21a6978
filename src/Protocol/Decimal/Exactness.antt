-- ===== src/Protocol/Decimal/Exactness.antt =====
-- What `decimal.String` (internal/protocol/payload.go) writes.
use postie.Prelude.{
  ℕ, zero, suc, ◌+◌, ◌-◌, ◌*◌, ◌≤◌, ◌≡◌, ◌≢◌, ◌∙◌, refl, sym, ap, Option, none, some, [], ◌∷◌, ◌++◌,
  inl, inr, leb, eqb, eqb_iff, ℤ, pos, negsuc, Bytes, cut, cut-append, length, length-append, All,
  arith, Bool-cases,
}
use mathlib.Core.Path.{subst}
use native.Mathlib.Nat.{mul_assoc}
use postie.Protocol.Decimal.{
  zeros, insert_point, place_point, trim_zeros, or_zero, trim_leading_zeros,
}

-- Reading a plain number: the value of its digits, and how many of them are behind the point.
abbrev pub IsDigit : ℕ → Type 0
IsDigit c = (b'0' ≤ c) × (c ≤ b'9')

abbrev pub numeral : ℕ → Bytes → ℕ
numeral a [] = a
numeral a (c ∷ s) = numeral (a * 10 + (c - b'0')) s

abbrev read_parts : Bytes → Option (Bytes × Bytes) → ℕ × ℕ
read_parts s none = (numeral 0 s, 0)
read_parts s (some (integer, fraction)) = (numeral (numeral 0 integer) fraction, length fraction)

pub read_number : Bytes → ℕ × ℕ
read_number s = read_parts s (cut b'.' s)

abbrev pub left_of : ℤ → ℕ
left_of (pos n) = 0
left_of (negsuc n) = suc n

abbrev pub right_of : ℤ → ℕ
right_of (pos n) = n
right_of (negsuc n) = 0

-- Ten to this power.
abbrev pub ten : ℕ → ℕ
ten zero = 1
ten (suc n) = ten n * 10

-- The number is the digits times ten to the power of the point less their count.
abbrev pub IsValue : Bytes → ℤ → ℕ × ℕ → Type 0
IsValue digits point (n, fraction) =
    n * ten (length digits + left_of point) ≡ numeral 0 digits * ten (fraction + right_of point)

pub numeral-append : (s t : Bytes) (a : ℕ) → numeral a (s ++ t) ≡ numeral (numeral a s) t
numeral-append [] t a = refl
numeral-append (c ∷ s) t a = numeral-append s t (a * 10 + (c - b'0'))

numeral-zeros : (k a : ℕ) → numeral a (zeros k) ≡ a * ten k
unfolding zeros
numeral-zeros zero a = omega arith
numeral-zeros (suc k) a = numeral-zeros k (a * 10 + (b'0' - b'0')) ∙ grind arith

length-zeros : (k : ℕ) → length (zeros k) ≡ k
unfolding zeros
length-zeros zero = refl
length-zeros (suc k) = ap suc (length-zeros k)

numeral-trim_zeros : (s : Bytes) → numeral 0 (trim_zeros s) ≡ numeral 0 s
unfolding trim_zeros
numeral-trim_zeros [] = refl
numeral-trim_zeros (c ∷ s) = elim (Bool-cases (eqb c b'0')) [
  | inl z ↦
      let zero_digit : 0 ≡ 0 * 10 + (c - b'0') = omega (arith, (eqb_iff c b'0').0 z) in
      rw z (numeral-trim_zeros s ∙ ap (λ a. numeral a s) zero_digit)
  | inr nz ↦ rw nz refl
]

numeral-or_zero : (s : Bytes) → numeral 0 (or_zero s) ≡ numeral 0 s
unfolding or_zero
numeral-or_zero [] = refl
numeral-or_zero (c ∷ s) = refl

pub no_point : (s : Bytes) → All IsDigit s → All (λ c. c ≢ b'.') s
no_point [] h = tt
no_point (c ∷ s) (x, xs) = (λ e. omega arith, no_point s xs)

pub cut-none : (s : Bytes) → All IsDigit s → cut b'.' s ≡ none
unfolding cut
cut-none [] h = refl
cut-none (c ∷ s) (x, xs) = ground (arith, cut-none s xs)

pub All-trim_zeros : (s : Bytes) → All IsDigit s → All IsDigit (or_zero (trim_zeros s))
unfolding trim_zeros or_zero
All-trim_zeros [] h = ((omega arith, omega arith), tt)
All-trim_zeros (c ∷ s) (x, xs) = elim (Bool-cases (eqb c b'0')) [
  | inl z ↦ rw z (All-trim_zeros s xs)
  | inr nz ↦ rw nz (x, xs)
]

ten_add : (a b : ℕ) → ten (a + b) ≡ ten a * ten b
ten_add zero b = ap ten (start b) ∙ grind arith
  where
    start : (b : ℕ) → 0 + b ≡ b
    start b = omega arith
ten_add (suc a) b = ap ten (next a b) ∙ ap (λ (n : ℕ). n * 10) (ten_add a b) ∙ grind arith
  where
    next : (a b : ℕ) → suc a + b ≡ suc (a + b)
    next a b = omega arith

pub All-left : (s t : Bytes) → All IsDigit (s ++ t) → All IsDigit s
All-left [] t h = tt
All-left (c ∷ s) t (x, xs) = (x, All-left s t xs)

pub All-zeros : (s : Bytes) (k : ℕ) → All IsDigit s → All IsDigit (s ++ zeros k)
unfolding zeros
All-zeros [] zero h = tt
All-zeros [] (suc k) h = ((omega arith, omega arith), All-zeros [] k tt)
All-zeros (c ∷ s) k (x, xs) = (x, All-zeros s k xs)

read_digits : (s : Bytes) → All IsDigit s → read_number s ≡ (numeral 0 s, 0)
unfolding read_number
read_digits s h = rw (cut-none s h) refl

read_pointed :
    (i f : Bytes)
    → All IsDigit i
    → read_number (i ++ b'.' ∷ f) ≡ (numeral (numeral 0 i) f, length f)
unfolding read_number
read_pointed i f h = rw (cut-append b'.' i f (no_point i h)) refl

numeral-trimmed : (s : Bytes) → numeral 0 (or_zero (trim_zeros s)) ≡ numeral 0 s
numeral-trimmed s = numeral-or_zero (trim_zeros s) ∙ numeral-trim_zeros s

read-trim_digits :
    (s : Bytes) → All IsDigit s → read_number (trim_leading_zeros s) ≡ (numeral 0 s, 0)
unfolding trim_leading_zeros
read-trim_digits s h = rw (cut-none s h) (
    read_digits (or_zero (trim_zeros s)) (All-trim_zeros s h)
    ∙ ap (λ n. (n, 0)) (numeral-trimmed s))

read-trim_pointed :
    (i f : Bytes)
    → All IsDigit i
    → read_number (trim_leading_zeros (i ++ b'.' ∷ f)) ≡ (numeral (numeral 0 i) f, length f)
unfolding trim_leading_zeros
read-trim_pointed i f h = rw (cut-append b'.' i f (no_point i h)) (
    read_pointed (or_zero (trim_zeros i)) f (All-trim_zeros i h)
    ∙ ap (λ n. (numeral n f, length f)) (numeral-trimmed i))

pub split :
    (n : ℕ) (s : Bytes)
    → n ≤ length s
    → (i : Bytes) × (f : Bytes) × (s ≡ i ++ f)
      × (insert_point n s ≡ i ++ b'.' ∷ f)
      × (length f + n ≡ length s)
unfolding insert_point
split zero s h = ([], s, refl, refl, omega arith)
split (suc n) [] h = absurd (omega arith)
split (suc n) (c ∷ s) h =
    let (i, f, e, p, l) = split n s (omega arith) in
    (c ∷ i, f, ap (λ t. c ∷ t) e, ap (λ t. c ∷ t) p, omega arith)

numeral-padded : (k : ℕ) (s : Bytes) → numeral 0 (zeros k ++ s) ≡ numeral 0 s
numeral-padded k s =
    numeral-append (zeros k) s 0 ∙ ap (λ n. numeral n s) (numeral-zeros k 0 ∙ grind arith)

-- Zeros behind the digits.
wide-IsValue :
    (digits : Bytes) (n : ℕ)
    → All IsDigit digits
    → length digits ≤ n
    → IsValue digits
        (pos n)
        (read_number (trim_leading_zeros (digits ++ zeros (n - length digits))))
wide-IsValue digits n h le =
    let k = n - length digits in
    let all : k + (length digits + 0) ≡ 0 + n = omega arith in
    subst (IsValue digits (pos n))
      (sym (read-trim_digits (digits ++ zeros k) (All-zeros digits k h)))
      (ap (λ (x : ℕ). x * ten (length digits + 0))
          (numeral-append digits (zeros k) 0 ∙ numeral-zeros k (numeral 0 digits))
        ∙ mul_assoc (numeral 0 digits) (ten k) (ten (length digits + 0))
        ∙ ap (λ (x : ℕ). numeral 0 digits * x) (sym (ten_add k (length digits + 0)) ∙ ap ten all))

-- The point among the digits.
inside-IsValue :
    (digits : Bytes) (n : ℕ)
    → All IsDigit digits
    → n ≤ length digits
    → IsValue digits (pos n) (read_number (trim_leading_zeros (insert_point n digits)))
inside-IsValue digits n h le =
    let (i, f, whole, cut_at, counted) = split n digits le in
    let before = All-left i f (subst (All IsDigit) whole h) in
    let all : length digits + 0 ≡ length f + n = omega arith in
    let value : numeral (numeral 0 i) f ≡ numeral 0 digits =
      sym (numeral-append i f 0) ∙ ap (numeral 0) (sym whole) in
    subst (IsValue digits (pos n))
      (sym (ap (λ t. read_number (trim_leading_zeros t)) cut_at ∙ read-trim_pointed i f before))
      (ap (λ (x : ℕ). x * ten (length digits + 0)) value
        ∙ ap (λ (x : ℕ). numeral 0 digits * ten x) all)

pub place-IsValue :
    (digits : Bytes) (point : ℤ)
    → All IsDigit digits
    → IsValue digits point (read_number (trim_leading_zeros (place_point digits point)))
unfolding place_point
place-IsValue digits (negsuc k) h =
    let counted : length digits + suc k ≡ suc (length (zeros k ++ digits)) + 0 =
      omega (arith, length-append (zeros k) digits, length-zeros k) in
    let tail = zeros (suc k) ++ digits in
    subst (IsValue digits (negsuc k))
      (sym (read-trim_pointed (b'0' ∷ []) tail ((omega arith, omega arith), tt)))
      (ap (λ (x : ℕ). x * ten (length digits + suc k)) (numeral-padded k digits)
        ∙ ap (λ (x : ℕ). numeral 0 digits * ten x) counted)
place-IsValue digits (pos zero) h =
    subst (IsValue digits (pos zero))
      (sym (read-trim_pointed (b'0' ∷ []) digits ((omega arith, omega arith), tt))) refl
place-IsValue digits (pos (suc n)) h = elim (Bool-cases (leb (length digits) (suc n))) [
  | inl wide ↦ rw (wide, place_point) (wide-IsValue digits (suc n) h (ground arith))
  | inr inside ↦ rw (inside, place_point) (inside-IsValue digits (suc n) h (ground arith))
]
