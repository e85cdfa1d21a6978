-- ===== src/Encoding/Marshal.antt =====
-- `json.Marshal` of a map of raw messages: the members sorted by their keys, each compacted with the
-- escapes that make it safe in HTML.
pub mod Reading
use Prim.Native.Nat.{Ordering}
use Prim.Native.String.{compare}
use postie.Prelude.{
  ℕ, String, Bool, true, false, List, [], ◌∷◌, ◌++◌, if◌then◌else◌, eqb, ◌||◌, ◌&&◌, Bytes, Dict,
}
use postie.Encoding.{Json, null, bool, num, str, arr, obj, Items, nil, cons, Members, end, member}

-- `\u00` and the two digits of a byte below 64.
escaped : ℕ → ℕ → Bytes
escaped high low = b'\\' ∷ b'u' ∷ b'0' ∷ b'0' ∷ high ∷ low ∷ []

-- U+2028 and U+2029, by their last byte.
separator : ℕ → Bytes
separator low = b'\\' ∷ b'u' ∷ b'2' ∷ b'0' ∷ b'2' ∷ low ∷ []

escape_byte : ℕ → Bytes
unfolding escaped
escape_byte c =
    if eqb c b'<'
    then escaped b'3' b'c'
    else if eqb c b'>'
    then escaped b'3' b'e'
    else if eqb c b'&'
    then escaped b'2' b'6'
    else c ∷ []

is_separator : ℕ → ℕ → ℕ → Bool
is_separator a b c = eqb a 0xe2 && eqb b 0x80 && (eqb c 0xa8 || eqb c 0xa9)

unfoldable pub escape_html : Bytes → Bytes
unfolding escape_byte separator is_separator
escape_html [] = []
escape_html (a ∷ []) = escape_byte a
escape_html (a ∷ b ∷ []) = escape_byte a ++ escape_byte b
escape_html (a ∷ b ∷ c ∷ s) =
    let whole = separator (if eqb c 0xa8 then b'8' else b'9') ++ escape_html s in
    let first = escape_byte a ++ escape_html (b ∷ c ∷ s) in
    if is_separator a b c then whole else first

unfoldable mutual
  unfolding escape_html

  pub marshalled : Json → Json
  marshalled null = null
  marshalled (bool b) = bool b
  marshalled (num literal) = num literal
  marshalled (str literal s) = str (escape_html literal) s
  marshalled (arr items) = arr (marshalled_items items)
  marshalled (obj members) = obj (marshalled_members members)

  pub marshalled_items : Items → Items
  marshalled_items nil = nil
  marshalled_items (cons x xs) = cons (marshalled x) (marshalled_items xs)

  pub marshalled_members : Members → Members
  marshalled_members end = end
  marshalled_members (member k x xs) = member k (marshalled x) (marshalled_members xs)

-- One member in its place among sorted ones.
unfoldable pub place : String → Json → Members → Members
place k x end = member k x end
place k x (member j y rest) = elim (compare k j) [
  | Ordering.gt ↦ member j y (place k x rest)
  | _ ↦ member k x (member j y rest)
]

unfoldable pub marshal_map : Dict Json → Members
unfolding place marshalled
marshal_map [] = end
marshal_map ((k, x) ∷ rest) = place k (marshalled x) (marshal_map rest)
