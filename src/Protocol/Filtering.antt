-- ===== src/Protocol/Filtering.antt =====
-- When a record is kept from a destination (internal/protocol/protocol.go).
use postie.Prelude.{Bytes, String, false, ◌≡◌, ◌↔◌, Option, some, contains, refl}
use postie.Encoding.{Json, str, obj, Members, last_member}
use postie.Protocol.{Filter, matches_filter, value_matches}

-- The one reason to drop a record: the payload is an object whose last member of the filter's
-- column is a text that is not among the filter's values.
pub record IsExcluded (filter : Option Filter) (payload : Option Json) : Type 0 where
  pub rule : Filter
  pub members : Members
  pub text : String
  pub given : filter ≡ some rule
  pub readable : payload ≡ some (obj members)
  pub literal : Bytes
  pub column : last_member rule.column members ≡ some (str literal text)
  pub unlisted : contains rule.values text ≡ false

value_matches_text :
    (f : Filter) (ms : Members) (found : Option Json)
    → last_member f.column ms ≡ found
    → value_matches f.values found ≡ false
    → IsExcluded (some f) (some (obj ms))
unfolding value_matches
value_matches_text f ms (some (str l s)) e h = record {
  rule = f;
  members = ms;
  text = s;
  literal = l;
  given = refl;
  readable = refl;
  column = e;
  unlisted = h;
}
value_matches_text f ms _ e h = cc

to :
    (filter : Option Filter) (payload : Option Json)
    → matches_filter filter payload ≡ false
    → IsExcluded filter payload
unfolding matches_filter
to (some f) (some (obj ms)) h = value_matches_text f ms (last_member f.column ms) refl h
to _ _ h = cc

from :
    {filter : Option Filter} {payload : Option Json}
    → IsExcluded filter payload
    → matches_filter filter payload ≡ false
unfolding matches_filter value_matches
from x = rw (x.given, x.readable) (rw x.column x.unlisted)

-- A record is dropped exactly where the payload is an object whose last member of the filter's
-- column is a text that is not among the filter's values: no filter, an unreadable payload, a payload
-- that is no object, a missing column and a column that holds no text all let the record through. A
-- number that no float64 holds, in another member, does not.
pub matches_filter-IsExcluded :
    (filter : Option Filter) (payload : Option Json)
    → (matches_filter filter payload ≡ false) ↔ IsExcluded filter payload
unfolding matches_filter
matches_filter-IsExcluded filter payload = (to filter payload, from)
