-- ===== src/Tests/Scans.antt =====
-- JSON texts, scanned.
use postie.Prelude.{◌≡◌, refl, true, false}
use postie.Encoding.{codes}
use postie.Encoding.Scanner.{valid_json}

scanned :
    (valid_json (codes "{\"a\": [1, -2.5e+3, \"x\\u00e9\", null], \"b\": {}} ") ≡ true)
    × (valid_json (codes "[1,]") ≡ false)
    × (valid_json (codes "01") ≡ false)
    × (valid_json (codes "\"a") ≡ false)
    × (valid_json (codes "{\"a\" 1}") ≡ false)
    × (valid_json (codes "-0.5") ≡ true)
    × (valid_json (codes "truex") ≡ false)
    × (valid_json (codes "") ≡ false)
    × (valid_json (codes "[[],[[]]]") ≡ true)
unfolding valid_json
scanned = (refl, refl, refl, refl, refl, refl, refl, refl, refl)
