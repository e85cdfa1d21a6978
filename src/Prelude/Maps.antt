-- ===== src/Prelude/Maps.antt =====
-- Go maps with text keys, as association lists: at most one entry of a key is ever read.
use Prim.Native.String.{String}
use mathlib.Core.Path.{◌≡◌, refl}
use mathlib.Core.Bool.{false}
use mathlib.Core.Logic.{◌≢◌}
use mathlib.Core.Option.{Option, none, some}
use mathlib.Core.List.{List, [], ◌∷◌}
use native.Mathlib.Omega.{arith}
use text.Mathlib.Text.{◌==◌}
use text.Mathlib.TextEquality.{eq_iff}
use postie.Prelude.Tests.{if◌then◌else◌}

abbrev pub Dict {ℓ} : Type ℓ → Type ℓ
Dict V = List (String × V)

module _ {ℓ} {V : Type ℓ} where
  abbrev pub lookup : String → Dict V → Option V
  lookup key [] = none
  lookup key (pair ∷ rest) = if pair.0 == key then some pair.1 else lookup key rest

  -- `m[k]` as a value: the zero value for a missing key.
  abbrev pub lookup_or : String → Dict V → V → V
  lookup_or key [] zero_value = zero_value
  lookup_or key (pair ∷ rest) zero_value =
      if pair.0 == key then pair.1 else lookup_or key rest zero_value

  -- `m[k] = v`.
  unfoldable pub insert : String → V → Dict V → Dict V
  insert key new [] = (key, new) ∷ []
  insert key new (pair ∷ rest) =
      if pair.0 == key then (key, new) ∷ rest else pair ∷ insert key new rest

  pub lookup-insert :
      (key other : String) (new : V) (dict : Dict V)
      → lookup other (insert key new dict) ≡ (if key == other then some new else lookup other dict)
  unfolding insert
  lookup-insert key other new [] = refl
  lookup-insert key other new (pair ∷ rest) = ground (
    arith,
    eq_iff pair.0 key,
    eq_iff pair.0 other,
    eq_iff key other,
    lookup-insert key other new rest,
  )

  pub lookup_or-insert :
      (key other : String) (new zero_value : V) (dict : Dict V)
      → lookup_or other (insert key new dict) zero_value
        ≡ (if key == other then new else lookup_or other dict zero_value)
  unfolding insert
  lookup_or-insert key other new zero_value [] = refl
  lookup_or-insert key other new zero_value (pair ∷ rest) = ground (
    arith,
    eq_iff pair.0 key,
    eq_iff pair.0 other,
    eq_iff key other,
    lookup_or-insert key other new zero_value rest,
  )

pub ne_of_false : (a b : String) → (a == b) ≡ false → a ≢ b
ne_of_false a b h e = ground (arith, eq_iff a b)
