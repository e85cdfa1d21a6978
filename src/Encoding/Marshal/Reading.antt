-- ===== src/Encoding/Marshal/Reading.antt =====
-- A map that is marshalled has the members of the map.
use mathlib.Core.Option
use mathlib.Core.Path.{subst}
use postie.Prelude.{
  String, none, some, [], ◌∷◌, ◌==◌, ◌≡◌, refl, ◌∙◌, eq_iff, if◌then◌else◌, Dict, lookup, insert,
  lookup-insert, arith, Bool-cases, inl, inr, ap,
}
use postie.Encoding.{Json, Members, end, member, last_member}
use postie.Encoding.Marshal.{marshalled, marshal_map, place}

abbrev pub Unique : Dict Json → Type 0
Unique [] = Unit
Unique (pair ∷ rest) = (lookup pair.0 rest ≡ none) × Unique rest

pub insert-Unique : (k : String) (x : Json) (d : Dict Json) → Unique d → Unique (insert k x d)
unfolding insert
insert-Unique k x [] u = (refl, tt)
insert-Unique k x ((j, y) ∷ rest) u = elim (Bool-cases (j == k)) [
  | inl same ↦ rw same (subst (λ i. lookup i rest ≡ none) ((eq_iff j k).0 same) u.0, u.1)
  | inr other ↦
      rw other (
        ground (arith, eq_iff j k, eq_iff k j, lookup-insert k j x rest),
        insert-Unique k x rest u.1,
      )
]

last_member-place :
    (k j : String) (x : Json) (ms : Members)
    → last_member k ms ≡ none
    → last_member j (place k x ms) ≡ (if k == j then some x else last_member j ms)
unfolding last_member place
last_member-place k j x end h = refl
last_member-place k j x (member i y rest) h =
    ground (arith, eq_iff k j, eq_iff i k, eq_iff i j, last_member-place k j x rest)

-- The members are those of the map, marshalled.
pub last_member-marshal_map :
    (j : String) (d : Dict Json)
    → Unique d
    → last_member j (marshal_map d) ≡ Option.map marshalled (lookup j d)
unfolding last_member marshal_map
last_member-marshal_map j [] u = refl
last_member-marshal_map j ((k, x) ∷ rest) u =
    let alone = last_member-marshal_map k rest u.1 ∙ ap (Option.map marshalled) u.0 in
    last_member-place k j (marshalled x) (marshal_map rest) alone ∙ elim (Bool-cases (k == j)) [
      | inl same ↦ rw same
      | inr other ↦ rw other (last_member-marshal_map j rest u.1)
    ]
