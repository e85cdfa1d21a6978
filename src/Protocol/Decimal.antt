-- ===== src/Protocol/Decimal.antt =====
-- Decimal expansion of internal/protocol/payload.go. A number literal of JSON is its bytes, ASCII.
pub mod Exactness
pub mod Signs
pub mod Literals
pub mod Exponents
pub mod Readings
use postie.Prelude.{
  ℕ, zero, suc, ◌+◌, ◌-◌, ◌*◌, Bool, true, false, not, ◌&&◌, ◌||◌, Option, none, some, List, [],
  ◌∷◌, ◌++◌, if◌then◌else◌, ltb, leb, eqb, ℤ, pos, negsuc, ltb_ℤ, Bytes, cut, length,
}
use postie.Encoding.{Json, num}

abbrev pub max_expanded_digits : ℕ
max_expanded_digits = 1048576

-- `decimal`
pub record Decimal : Type 0 where
  pub negative : Bool
  pub digits : Bytes
  pub point : ℤ

unfoldable pub split_sign : Bytes → Bool × Bytes
split_sign [] = (false, [])
split_sign (c ∷ s) = if eqb c b'-' then (true, s) else (false, c ∷ s)

-- `strings.IndexAny(number, "eE")`: what is before the first of these letters, and what is behind.
unfoldable pub cut_exponent : Bytes → Bytes × Option Bytes
cut_exponent [] = ([], none)
cut_exponent (c ∷ s) =
    let rest = cut_exponent s in
    if eqb c b'e' || eqb c b'E' then ([], some s) else (c ∷ rest.0, rest.1)

unfoldable pub digits_value : ℕ → Bytes → Option ℕ
digits_value n [] = some n
digits_value n (c ∷ s) =
    let rest = digits_value (n * 10 + (c - b'0')) s in
    if leb b'0' c && leb c b'9' then rest else none

negated : ℕ → ℤ
negated zero = pos 0
negated (suc n) = negsuc n

-- `strconv.Atoi`. It fails beyond 64 bits; `splitExponent` refuses a number that large anyway.
atoi_digits : Bool → Bytes → Option ℤ
unfolding digits_value negated
atoi_digits negative [] = none
atoi_digits negative (c ∷ s) = elim (digits_value 0 (c ∷ s)) [
  | none ↦ none
  | some n ↦ some (if negative then negated n else pos n)
]

unfoldable pub atoi : Bytes → Option ℤ
unfolding atoi_digits
atoi [] = none
atoi (c ∷ s) =
    if eqb c b'-'
    then atoi_digits true s
    else if eqb c b'+'
    then atoi_digits false s
    else atoi_digits false (c ∷ s)

is_far : ℤ → Bool
is_far n = ltb_ℤ (pos max_expanded_digits) n || ltb_ℤ n (negsuc (max_expanded_digits - 1))

in_range : Bytes → Option ℤ → Option (Bytes × ℤ)
unfolding is_far
in_range mantissa none = none
in_range mantissa (some n) = if is_far n then none else some (mantissa, n)

exponent_of : Bytes × Option Bytes → Option (Bytes × ℤ)
unfolding in_range atoi
exponent_of (mantissa, none) = some (mantissa, pos 0)
exponent_of (mantissa, some text) = in_range mantissa (atoi text)

unfoldable pub split_exponent : Bytes → Option (Bytes × ℤ)
unfolding exponent_of cut_exponent
split_exponent number = exponent_of (cut_exponent number)

-- A natural number and an integer, added.
plus_ℤ : ℕ → ℤ → ℤ
plus_ℤ n (pos m) = pos (n + m)
plus_ℤ n (negsuc m) = if ltb m n then pos (n - (m + 1)) else negsuc (m - n)

joined : Bytes → ℤ → Option (Bytes × Bytes) → Bytes × ℤ
unfolding plus_ℤ
joined mantissa exponent none = (mantissa, plus_ℤ (length mantissa) exponent)
joined mantissa exponent (some (before, after)) = (before ++ after, plus_ℤ (length before) exponent)

unfoldable pub drop_point : Bytes → ℤ → Bytes × ℤ
unfolding joined
drop_point mantissa exponent = joined mantissa exponent (cut b'.' mantissa)

placed : Bool → Bytes × ℤ → Option Decimal
unfolding is_far
placed negative ([], point) = none
placed negative (c ∷ s, point) =
    if is_far point
    then none
    else some (record { negative = negative; digits = c ∷ s; point = point })

pointed : Bool → Option (Bytes × ℤ) → Option Decimal
unfolding placed drop_point
pointed negative none = none
pointed negative (some (mantissa, exponent)) = placed negative (drop_point mantissa exponent)

-- `parseDecimal`, behind `numberLiteral`: the JSON number is its literal.
unfoldable pub parse_decimal : Option Json → Option Decimal
unfolding split_sign split_exponent pointed
parse_decimal (some (num literal)) =
    let (negative, unsigned) = split_sign literal in pointed negative (split_exponent unsigned)
parse_decimal _ = none

unfoldable pub zeros : ℕ → Bytes
zeros zero = []
zeros (suc n) = b'0' ∷ zeros n

-- `digits[:n] + "." + digits[n:]`
unfoldable pub insert_point : ℕ → Bytes → Bytes
insert_point zero s = b'.' ∷ s
insert_point (suc n) [] = b'.' ∷ []
insert_point (suc n) (c ∷ s) = c ∷ insert_point n s

unfoldable pub place_point : Bytes → ℤ → Bytes
unfolding zeros insert_point
place_point digits (negsuc n) = b'0' ∷ b'.' ∷ zeros (suc n) ++ digits
place_point digits (pos zero) = b'0' ∷ b'.' ∷ digits
place_point digits (pos (suc n)) =
    if leb (length digits) (suc n)
    then digits ++ zeros (suc n - length digits)
    else insert_point (suc n) digits

-- `strings.TrimLeft(s, "0")`
unfoldable pub trim_zeros : Bytes → Bytes
trim_zeros [] = []
trim_zeros (c ∷ s) = let rest = trim_zeros s in if eqb c b'0' then rest else c ∷ s

unfoldable pub or_zero : Bytes → Bytes
or_zero [] = b'0' ∷ []
or_zero (c ∷ s) = c ∷ s

trimmed : Bytes → Option (Bytes × Bytes) → Bytes
unfolding or_zero trim_zeros
trimmed number none = or_zero (trim_zeros number)
trimmed number (some (integer, fraction)) = or_zero (trim_zeros integer) ++ b'.' ∷ fraction

unfoldable pub trim_leading_zeros : Bytes → Bytes
unfolding trimmed
trim_leading_zeros number = trimmed number (cut b'.' number)

-- `decimal.String`
unfoldable pub to_string : Decimal → Bytes
unfolding trim_leading_zeros place_point
to_string d =
    let out = trim_leading_zeros (place_point d.digits d.point) in
    if d.negative then b'-' ∷ out else out

expanded : Option Decimal → Option Bytes
unfolding to_string
expanded none = none
expanded (some d) = some (to_string d)

unfoldable pub expand_decimal : Option Json → Option Bytes
unfolding expanded parse_decimal
expand_decimal raw = expanded (parse_decimal raw)
