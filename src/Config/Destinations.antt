-- ===== src/Config/Destinations.antt =====
-- The destinations of an application (internal/config/validate.go).
use postie.Prelude.{
  Distinct, String, true, false, ◌≡◌, ◌≢◌, refl, Option, none, some, List, [], ◌∷◌, ◌==◌, inl, inr,
  contains, eq_iff, ne_of_false, arith, All, map, Bool-cases, Option-cases,
}
use postie.Config.{
  Filter, Destination, is_empty, unknown, bad_filter, check_filter, validate_destination,
  next_destination, destinations_from,
}
use postie.Config.Sources.{Given, Given-test}

abbrev pub destination_ids : List Destination → List String
destination_ids = map (λ d. d.id)

abbrev pub IsUsable : Option Filter → Type 0
IsUsable none = Unit
IsUsable (some f) = Given f.column × (f.values ≢ [])

-- A destination that can be called and is fed by known sources only.
pub record IsReachable (known : List String) (d : Destination) : Type 0 where
  pub id : Given d.id
  pub description : Given d.description
  pub type : d.type ≡ "http-push"
  pub endpoint : Given d.endpoint
  pub username : Given d.username
  pub has_source : d.sources ≢ []
  pub known_sources : All (λ i. contains known i ≡ true) d.sources
  pub filter : IsUsable d.filter

unknown-none :
    (known ids : List String) → unknown known ids ≡ none → All (λ i. contains known i ≡ true) ids
unfolding unknown
unknown-none known [] h = tt
unknown-none known (i ∷ ids) h = elim (Bool-cases (contains known i)) [
  | inl there ↦ (there, unknown-none known ids (ground arith))
  | inr missing ↦ absurd (ground arith)
]

known-none :
    (known ids : List String) → All (λ i. contains known i ≡ true) ids → unknown known ids ≡ none
unfolding unknown
known-none known [] h = refl
known-none known (i ∷ ids) (x, xs) = ground (arith, known-none known ids xs)

pub empty_ne : {A : Type 0} (xs : List A) → is_empty xs ≡ false → xs ≢ []
empty_ne [] h = cc
empty_ne (x ∷ xs) h = cc

pub ne_empty : {A : Type 0} (xs : List A) → xs ≢ [] → is_empty xs ≡ false
ne_empty [] h = absurd (h refl)
ne_empty (x ∷ xs) h = refl

filter-IsUsable : (f : Option Filter) → bad_filter f ≡ false → IsUsable f
unfolding bad_filter
filter-IsUsable none h = tt
filter-IsUsable (some f) h =
    (ne_of_false f.column "" (ground arith), empty_ne f.values (ground arith))

IsUsable-filter : (f : Option Filter) → IsUsable f → bad_filter f ≡ false
unfolding bad_filter
IsUsable-filter none h = refl
IsUsable-filter (some f) (c, v) = ground (arith, Given-test f.column c, ne_empty f.values v)

destination-IsReachable :
    (known : List String) (d : Destination)
    → Given d.id
    → Given d.description
    → validate_destination known d ≡ none
    → IsReachable known d
unfolding validate_destination check_filter
destination-IsReachable known d i t h = elim (Option-cases (unknown known d.sources)) [
  | inl all_known ↦ record {
    id = i;
    description = t;
    type = ground (arith, eq_iff d.type "http-push");
    endpoint = ground (arith, eq_iff d.endpoint "");
    username = ground (arith, eq_iff d.username "");
    has_source = empty_ne d.sources (ground arith);
    known_sources = unknown-none known d.sources all_known;
    filter = filter-IsUsable d.filter (ground arith);
  }
  | inr (j, missing) ↦ absurd (ground arith)
]

IsReachable-none :
    (known : List String) (d : Destination)
    → IsReachable known d
    → validate_destination known d ≡ none
unfolding validate_destination check_filter
IsReachable-none known d x = ground (
  arith,
  (eq_iff d.type "http-push").1 x.type,
  Given-test d.endpoint x.endpoint,
  Given-test d.username x.username,
  ne_empty d.sources x.has_source,
  known-none known d.sources x.known_sources,
  IsUsable-filter d.filter x.filter,
)

destination_round :
    (known : List String) (d : Destination) (ds : List Destination) (ids : List String)
    → destinations_from known (d ∷ ds) ids ≡ none
    → ((d.id == "") ≡ false)
      × ((d.description == "") ≡ false)
      × (contains ids d.id ≡ false)
      × (validate_destination known d ≡ none)
      × (destinations_from known ds (d.id ∷ ids) ≡ none)
unfolding destinations_from next_destination
destination_round known d ds ids h = elim (Option-cases (validate_destination known d)) [
  | inl fine ↦ (ground arith, ground arith, ground arith, fine, ground arith)
  | inr (p, wrong) ↦ absurd (ground arith)
]

pub destinations_from-none :
    (known : List String) (ds : List Destination) (ids : List String)
    → destinations_from known ds ids ≡ none
    → All (IsReachable known) ds × Distinct ids (destination_ids ds)
unfolding destinations_from
destinations_from-none known [] ids h = (tt, tt)
destinations_from-none known (d ∷ ds) ids h =
    let (i, t, new', valid, rest) = destination_round known d ds ids h in
    let (all, fresh) = destinations_from-none known ds (d.id ∷ ids) rest in
    (
      (
        destination-IsReachable known d (ne_of_false d.id "" i) (ne_of_false d.description "" t)
            valid,
        all,
      ),
      (new', fresh),
    )

pub destinations_from-accepted :
    (known : List String) (ds : List Destination) (ids : List String)
    → All (IsReachable known) ds
    → Distinct ids (destination_ids ds)
    → destinations_from known ds ids ≡ none
unfolding destinations_from next_destination
destinations_from-accepted known [] ids h k = refl
destinations_from-accepted known (d ∷ ds) ids (x, xs) (new', fresh) = ground (
  arith,
  Given-test d.id x.id,
  Given-test d.description x.description,
  IsReachable-none known d x,
  destinations_from-accepted known ds (d.id ∷ ids) xs fresh,
)
