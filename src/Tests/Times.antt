-- ===== src/Tests/Times.antt =====
-- Instants written out and read.
use postie.Prelude.{◌≡◌, refl, pos, negsuc, true, false, some, none}
use postie.Encoding.{codes}
use postie.Protocol.Times.{unix_micro, format_timestamp, parse_rfc3339}
use mathlib.Core.Option

of_micros :
    (format_timestamp (unix_micro (pos 1700000000000000)) false ≡ "2023-11-14 22:13:20")
    × (format_timestamp (unix_micro (pos 951782400500000)) false ≡ "2000-02-29 00:00:00.5")
    × (format_timestamp (unix_micro (negsuc 0)) false ≡ "1969-12-31 23:59:59.999999")
    × (format_timestamp (unix_micro (pos 9223372036854775807)) false
        ≡ "294247-01-10 04:00:54.775807")
    × (format_timestamp (unix_micro (negsuc 9223372036854775807)) false
        ≡ "-290308-12-21 19:59:05.224192")
unfolding unix_micro format_timestamp
of_micros = (refl, refl, refl, refl, refl)

of_text :
    (Option.map
        (λ t. format_timestamp t true)
        (parse_rfc3339 (codes "2024-02-29T23:30:00.25-01:30"))
      ≡ some "2024-03-01 01:00:00.25+00")
    × (parse_rfc3339 (codes "2023-02-29T00:00:00Z") ≡ none)
unfolding parse_rfc3339 format_timestamp
of_text = (refl, refl)
