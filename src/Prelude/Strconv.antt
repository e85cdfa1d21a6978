-- ===== src/Prelude/Strconv.antt =====
-- Byte strings as lists of numbers, with what the program uses of `strings` and `strconv`.
use Prim.Native.Nat.{ℕ, zero, suc, ◌+◌, ◌-◌, ◌*◌, ◌/◌, ◌%◌, ◌<◌}
use mathlib.Core.Path.{◌≡◌, refl}
use mathlib.Core.Bool.{Bool, true, false, ◌&&◌}
use mathlib.Core.Logic.{◌≢◌}
use mathlib.Core.Option.{Option, none, some}
use mathlib.Core.List.{List, [], ◌∷◌, ◌++◌}
use native.Mathlib.Omega.{arith}
use postie.Prelude.Tests.{ltb, leb, eqb, if◌then◌else◌}
use postie.Prelude.Lists.{All}

abbrev pub Bytes : Type 0
Bytes = List ℕ

abbrev pub bytes_eq : Bytes → Bytes → Bool
bytes_eq [] [] = true
bytes_eq [] (y ∷ ys) = false
bytes_eq (x ∷ xs) [] = false
bytes_eq (x ∷ xs) (y ∷ ys) = eqb x y && bytes_eq xs ys

pub bytes_eq_refl : (xs : Bytes) → bytes_eq xs xs ≡ true
bytes_eq_refl [] = refl
bytes_eq_refl (x ∷ xs) = ground (arith, bytes_eq_refl xs)

-- `strings.Cut` at a one-byte separator: before and after its first occurrence.
unfoldable pub cut : ℕ → Bytes → Option (Bytes × Bytes)
cut sep [] = none
cut sep (c ∷ s) =
    if eqb c sep
    then some ([], s)
    else elim (cut sep s) [ none ↦ none | some (before, after) ↦ some (c ∷ before, after) ]

pub cut-append :
    (sep : ℕ) (before after : Bytes)
    → All (λ c. c ≢ sep) before
    → cut sep (before ++ sep ∷ after) ≡ some (before, after)
unfolding cut
cut-append sep [] after h = ground arith
cut-append sep (c ∷ s) after h = ground (arith, cut-append sep s after h.1)

-- `strconv.FormatUint(n, 10)`. Each round divides by ten, so `n + 1` rounds are enough.
digits_from : ℕ → ℕ → Bytes → Bytes
digits_from zero n acc = acc
digits_from (suc f) n acc =
    let rest = digits_from f (n / 10) ((b'0' + n % 10) ∷ acc) in
    if ltb n 10 then (b'0' + n) ∷ acc else rest

unfoldable pub format_uint : ℕ → Bytes
unfolding digits_from
format_uint n = digits_from (suc n) n []

abbrev pub u64_mod : ℕ
u64_mod = 18446744073709551616

-- `strconv.ParseUint(s, 10, 64)`: an error on an empty text, a byte that is no digit, or overflow.
parse_from : ℕ → Bytes → Option ℕ
parse_from n [] = some n
parse_from n (c ∷ s) =
    let n' = n * 10 + (c - b'0') in
    let rest = parse_from n' s in if leb b'0' c && leb c b'9' && ltb n' u64_mod then rest else none

unfoldable pub parse_uint : Bytes → Option ℕ
unfolding parse_from
parse_uint [] = none
parse_uint (c ∷ s) = parse_from 0 (c ∷ s)

parse_uint-digits_from :
    (f n : ℕ) (acc : Bytes)
    → n < f
    → n < u64_mod
    → parse_uint (digits_from f n acc) ≡ parse_from n acc
unfolding parse_uint digits_from
parse_uint-digits_from zero n acc h k = elim h [ ]
parse_uint-digits_from (suc f) n acc h k =
    ground (arith, parse_uint-digits_from f (n / 10) ((b'0' + n % 10) ∷ acc))

-- A number below 2^64 is read back from its digits.
pub parse_uint-format_uint : (n : ℕ) → n < u64_mod → parse_uint (format_uint n) ≡ some n
unfolding format_uint parse_from
parse_uint-format_uint n h = parse_uint-digits_from (suc n) n [] (omega arith) h
