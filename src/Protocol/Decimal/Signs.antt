-- ===== src/Protocol/Decimal/Signs.antt =====
-- The sign that `decimal.String` (internal/protocol/payload.go) writes.
use mathlib.Core.Path.{subst}
use postie.Prelude.{
  if◌then◌else◌, ℕ, zero, suc, ◌-◌, ◌≤◌, ◌≡◌, refl, sym, ap, true, false, Bool, [], ◌∷◌, ◌++◌, inl,
  inr, ℤ, pos, negsuc, Bytes, cut-append, length, leb, All, arith, Bool-cases,
}
use postie.Protocol.Decimal.{
  Decimal, split_sign, zeros, insert_point, place_point, trim_zeros, or_zero, trim_leading_zeros,
  to_string,
}
use postie.Protocol.Decimal.Exactness.{
  IsDigit, IsValue, read_number, cut-none, no_point, All-trim_zeros, All-zeros, All-left, split,
  place-IsValue,
}

-- The text has no sign.
abbrev IsPlain : Bytes → Type 0
IsPlain s = split_sign s ≡ (false, s)

or_zero-IsPlain : (s t : Bytes) → All IsDigit (or_zero s) → IsPlain (or_zero s ++ t)
unfolding split_sign or_zero
or_zero-IsPlain [] t h = ground arith
or_zero-IsPlain (c ∷ s) t (x, xs) = ground arith

append_nil : (s : Bytes) → s ++ [] ≡ s
append_nil [] = refl
append_nil (c ∷ s) = ap (λ t. c ∷ t) (append_nil s)

digits-IsPlain : (s : Bytes) → All IsDigit s → IsPlain (trim_leading_zeros s)
unfolding trim_leading_zeros
digits-IsPlain s h = rw (cut-none s h) (
    subst IsPlain (append_nil (or_zero (trim_zeros s)))
      (or_zero-IsPlain (trim_zeros s) [] (All-trim_zeros s h)))

pointed-IsPlain : (i f : Bytes) → All IsDigit i → IsPlain (trim_leading_zeros (i ++ b'.' ∷ f))
unfolding trim_leading_zeros
pointed-IsPlain i f h =
    rw (cut-append b'.' i f (no_point i h))
      (or_zero-IsPlain (trim_zeros i) (b'.' ∷ f) (All-trim_zeros i h))

inside-IsPlain :
    (digits : Bytes) (n : ℕ)
    → All IsDigit digits
    → n ≤ length digits
    → IsPlain (trim_leading_zeros (insert_point n digits))
inside-IsPlain digits n h le =
    let (i, f, whole, cut_at, counted) = split n digits le in
    subst (λ t. IsPlain (trim_leading_zeros t)) (sym cut_at)
      (pointed-IsPlain i f (All-left i f (subst (All IsDigit) whole h)))

place-IsPlain :
    (digits : Bytes) (point : ℤ)
    → All IsDigit digits
    → IsPlain (trim_leading_zeros (place_point digits point))
unfolding place_point
place-IsPlain digits (negsuc k) h =
    pointed-IsPlain (b'0' ∷ []) (zeros (suc k) ++ digits) ((omega arith, omega arith), tt)
place-IsPlain digits (pos zero) h =
    pointed-IsPlain (b'0' ∷ []) digits ((omega arith, omega arith), tt)
place-IsPlain digits (pos (suc n)) h = elim (Bool-cases (leb (length digits) (suc n))) [
  | inl wide ↦
      rw (wide, place_point)
        (digits-IsPlain (digits ++ zeros (suc n - length digits)) (All-zeros digits _ h))
  | inr inside ↦ rw (inside, place_point) (inside-IsPlain digits (suc n) h (ground arith))
]

signed :
    (negative : Bool) (out : Bytes)
    → IsPlain out
    → split_sign (if negative then b'-' ∷ out else out) ≡ (negative, out)
unfolding split_sign
signed true out h = ground arith
signed false out h = h

-- A decimal whose digits are digits is written exactly and without an exponent: the text's sign is the
-- decimal's, and behind it, read as a plain number, stands the value of the digits times ten to the
-- power of the point less their count.
pub to_string-IsValue :
    (d : Decimal)
    → All IsDigit d.digits
    → ((split_sign (to_string d)).0 ≡ d.negative)
      × IsValue d.digits d.point (read_number (split_sign (to_string d)).1)
unfolding to_string
to_string-IsValue d h =
    let out = trim_leading_zeros (place_point d.digits d.point) in
    let e = signed d.negative out (place-IsPlain d.digits d.point h) in
    (
      ap (λ x. x.0) e,
      subst (λ x. IsValue d.digits d.point (read_number x.1)) (sym e)
          (place-IsValue d.digits d.point h),
    )
