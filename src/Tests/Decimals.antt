-- ===== src/Tests/Decimals.antt =====
-- A decimal of internal/protocol/payload.go, written out.
use postie.Prelude.{◌≡◌, refl, true, some, [], ◌∷◌, negsuc, cut, arith}
use postie.Encoding.{num}
use postie.Protocol.Decimal.{Decimal, split_sign, to_string, expand_decimal, parse_decimal}
use postie.Protocol.Decimal.Exactness.{IsValue, read_number}
use postie.Protocol.Decimal.Signs.{to_string-IsValue}

abbrev small : Decimal
small = record { negative = true; digits = b'2' ∷ b'5' ∷ []; point = negsuc 1 }

-- "-2.5E-3" becomes "-0.0025".
expanded_small :
    expand_decimal (some (num (b'-' ∷ b'2' ∷ b'.' ∷ b'5' ∷ b'E' ∷ b'-' ∷ b'3' ∷ [])))
    ≡ some (b'-' ∷ b'0' ∷ b'.' ∷ b'0' ∷ b'0' ∷ b'2' ∷ b'5' ∷ [])
unfolding expand_decimal parse_decimal to_string cut
expanded_small = refl

to_string-IsValue_example :
    ((split_sign (to_string small)).0 ≡ true)
    × IsValue (b'2' ∷ b'5' ∷ []) (negsuc 1) (read_number (split_sign (to_string small)).1)
to_string-IsValue_example =
    to_string-IsValue small ((omega arith, omega arith), ((omega arith, omega arith), tt))
