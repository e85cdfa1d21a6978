-- ===== src/Encoding.antt =====
-- JSON values as encoding/json reads them. A `json.RawMessage` is an `Option Json`: `none` stands for
-- bytes that are no JSON text. A number keeps its literal, and so does a text, which may be spelled with
-- escapes: what stands between its quotes, in UTF-8, beside the text that it decodes to.
pub mod Scanner
pub mod Marshal
use Prim.Native.Char.{code}
use postie.Prelude.{
  ℕ, ◌-◌, String, Bool, ◌&&◌, Option, none, some, List, [], ◌∷◌, ◌==◌, if◌then◌else◌, leb, eqb,
  Bytes, bytes_eq, map,
}

mutual
  pub data Json : Type 0 where
    null : Json
    bool : Bool → Json
    num : Bytes → Json
    str : Bytes → String → Json
    arr : Items → Json
    obj : Members → Json

  pub data Items : Type 0 where
    nil : Items
    cons : Json → Items → Items

  pub data Members : Type 0 where
    end : Members
    member : String → Json → Members → Members

abbrev pub codes : String → List ℕ
codes String.[] = []
codes (String.◌∷◌ c s) = code c ∷ codes s

-- A text of ASCII letters, spelled without escapes.
abbrev pub plain : String → Json
plain s = str (codes s) s

-- `json.Unmarshal` into a string: `null` leaves it empty.
unfoldable pub decode_string : Json → Option String
decode_string null = some ""
decode_string (str literal s) = some s
decode_string _ = none

-- The folding of `foldName`, as far as it meets the ASCII letters of a field's name: U+017F folds
-- with `s` and U+212A with `k`.
abbrev pub fold_rune : ℕ → ℕ
fold_rune c =
    if leb b'a' c && leb c b'z'
    then c - 32
    else if eqb c 0x17f
    then b'S'
    else if eqb c 0x212a
    then b'K'
    else c

-- Whether a struct field of this name takes the member of this key.
unfoldable pub key_is : String → String → Bool
key_is name key = bytes_eq (map fold_rune (codes name)) (map fold_rune (codes key))

-- A map holds the last member of a key.
unfoldable pub last_member : String → Members → Option Json
last_member k end = none
last_member k (member j v rest) = elim (last_member k rest) [
  | some w ↦ some w
  | none ↦ if j == k then some v else none
]
