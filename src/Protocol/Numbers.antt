-- ===== src/Protocol/Numbers.antt =====
-- Whether `json.Unmarshal` can hold the numbers of a JSON value in Go's `any`, where a number becomes
-- a float64 (`isSuccess` of internal/protocol/protocol.go). It cannot where `strconv.ParseFloat`
-- rounds a literal beyond the largest one; the exponent is read in full.
use postie.Prelude.{
  ℕ, ◌+◌, ◌-◌, ◌*◌, ◌^◌, ◌<◌, Bool, true, false, ◌&&◌, ◌≡◌, ◌↔◌, Option, none, some, ltb, ℤ, pos,
  negsuc, Bytes, length, refl, arith, Option-cases, inl, inr,
}
use postie.Encoding.{Json, null, bool, num, str, arr, obj, Items, nil, cons, Members, end, member}
use postie.Protocol.Decimal.{split_sign, cut_exponent, atoi, drop_point, digits_value}

literal_exponent : Option Bytes → Option ℤ
unfolding atoi
literal_exponent none = some (pos 0)
literal_exponent (some text) = atoi text

-- A number without its sign: `value` times ten to the power of `point - count`.
pub record Literal : Type 0 where
  pub value : ℕ
  pub count : ℕ
  pub point : ℤ

counted : Bytes × ℤ → Option Literal
unfolding digits_value
counted (digits, point) = elim (digits_value 0 digits) [
  | none ↦ none
  | some n ↦ some (record { value = n; count = length digits; point = point })
]

placed_at : Bytes → Option ℤ → Option Literal
unfolding counted drop_point
placed_at mantissa none = none
placed_at mantissa (some exponent) = counted (drop_point mantissa exponent)

pub read_literal : Bytes → Option Literal
unfolding placed_at literal_exponent cut_exponent split_sign
read_literal literal =
    let (mantissa, exponent) = cut_exponent (split_sign literal).1 in
    placed_at mantissa (literal_exponent exponent)

-- The least magnitude beyond the largest float64 is 2^1024 - 2^970.
below_float64 : ℕ → ℕ → ℤ → Bool
below_float64 n count (pos point) =
    ltb (n * 10 ^ (point - count)) ((2 ^ 1024 - 2 ^ 970) * 10 ^ (count - point))
below_float64 n count (negsuc k) = ltb n ((2 ^ 1024 - 2 ^ 970) * 10 ^ (count + k + 1))

fits_float64 : Bytes → Bool
unfolding read_literal below_float64
fits_float64 literal = elim (read_literal literal) [
  | none ↦ false
  | some x ↦ below_float64 x.value x.count x.point
]

unfoldable mutual
  unfolding fits_float64

  pub numbers_fit : Json → Bool
  numbers_fit null = true
  numbers_fit (bool b) = true
  numbers_fit (num literal) = fits_float64 literal
  numbers_fit (str literal s) = true
  numbers_fit (arr items) = items_fit items
  numbers_fit (obj members) = members_fit members

  pub items_fit : Items → Bool
  items_fit nil = true
  items_fit (cons x xs) = numbers_fit x && items_fit xs

  pub members_fit : Members → Bool
  members_fit end = true
  members_fit (member k x xs) = numbers_fit x && members_fit xs

-- A number that rounds to a float64: its magnitude is below 2^1024 - 2^970.
abbrev pub IsBelow : ℕ → ℕ → ℤ → Type 0
IsBelow n count (pos point) = n * 10 ^ (point - count) < (2 ^ 1024 - 2 ^ 970) * 10 ^ (count - point)
IsBelow n count (negsuc k) = n < (2 ^ 1024 - 2 ^ 970) * 10 ^ (count + k + 1)

pub record IsFinite (literal : Bytes) : Type 0 where
  pub number : Literal
  pub reads : read_literal literal ≡ some number
  pub below : IsBelow number.value number.count number.point

-- Every number of a value, at any depth, rounds to a float64.
mutual
  pub AreFinite : Json → Type 0
  AreFinite (num literal) = IsFinite literal
  AreFinite (arr items) = ItemsFinite items
  AreFinite (obj members) = MembersFinite members
  AreFinite _ = Unit

  pub ItemsFinite : Items → Type 0
  ItemsFinite nil = Unit
  ItemsFinite (cons x xs) = AreFinite x × ItemsFinite xs

  pub MembersFinite : Members → Type 0
  MembersFinite end = Unit
  MembersFinite (member k x xs) = AreFinite x × MembersFinite xs

below_float64-IsBelow :
    (n count : ℕ) (point : ℤ) → (below_float64 n count point ≡ true) ↔ IsBelow n count point
unfolding below_float64
below_float64-IsBelow n count (pos point) = (λ h. ground arith, λ h. ground arith)
below_float64-IsBelow n count (negsuc k) = (λ h. ground arith, λ h. ground arith)

fits_float64-to : (literal : Bytes) → fits_float64 literal ≡ true → IsFinite literal
unfolding fits_float64
fits_float64-to literal h = elim (Option-cases (read_literal literal)) [
  | inl unread ↦ absurd (ground arith)
  | inr (x, reads) ↦ record {
    number = x;
    reads = reads;
    below = (below_float64-IsBelow x.value x.count x.point).0 (ground arith);
  }
]

fits_float64-from : (literal : Bytes) → IsFinite literal → fits_float64 literal ≡ true
unfolding fits_float64
fits_float64-from literal x =
    rw (x.reads, fits_float64)
      ((below_float64-IsBelow x.number.value x.number.count x.number.point).1 x.below)

mutual
  unfolding numbers_fit AreFinite

  fit-to : (x : Json) → numbers_fit x ≡ true → AreFinite x
  fit-to (num literal) h = fits_float64-to literal h
  fit-to (arr items) h = items-to items h
  fit-to (obj members) h = members-to members h
  fit-to _ h = tt

  items-to : (xs : Items) → items_fit xs ≡ true → ItemsFinite xs
  items-to nil h = tt
  items-to (cons x xs) h = (fit-to x (ground arith), items-to xs (ground arith))

  members-to : (ms : Members) → members_fit ms ≡ true → MembersFinite ms
  members-to end h = tt
  members-to (member k x xs) h = (fit-to x (ground arith), members-to xs (ground arith))

mutual
  unfolding numbers_fit AreFinite

  fit-from : (x : Json) → AreFinite x → numbers_fit x ≡ true
  fit-from (num literal) h = fits_float64-from literal h
  fit-from (arr items) h = items-from items h
  fit-from (obj members) h = members-from members h
  fit-from _ h = refl

  items-from : (xs : Items) → ItemsFinite xs → items_fit xs ≡ true
  items-from nil h = refl
  items-from (cons x xs) h = ground (arith, fit-from x h.0, items-from xs h.1)

  members-from : (ms : Members) → MembersFinite ms → members_fit ms ≡ true
  members-from end h = refl
  members-from (member k x xs) h = ground (arith, fit-from x h.0, members-from xs h.1)

pub members_fit-MembersFinite : (ms : Members) → (members_fit ms ≡ true) ↔ MembersFinite ms
members_fit-MembersFinite ms = (members-to ms, members-from ms)
