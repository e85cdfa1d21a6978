-- ===== src/Config/Validity.antt =====
-- Which applications internal/config/validate.go accepts.
use postie.Prelude.{
  Distinct, String, true, ◌≡◌, ◌≢◌, ◌↔◌, ◌∙◌, sym, refl, none, List, [], ◌∷◌, contains, eq_refl,
  arith, All,
}
use postie.Config.{
  Source, Destination, Application, Seen, seen, broken, sources_from, at_least_one,
  validate_sources, validate_destinations, with_sources, validate_application,
}
use postie.Config.Sources.{source_ids, IsSound, sources_from-seen, sources_from-found}
use postie.Config.Destinations.{
  destination_ids, IsReachable, destinations_from-none, destinations_from-accepted,
}

pub record IsValid (c : Application) : Type 0 where
  pub has_source : c.sources ≢ []
  pub sources : All IsSound c.sources
  pub distinct_sources : Distinct [] (source_ids c.sources)
  pub destinations : All (IsReachable (source_ids c.sources)) c.destinations
  pub distinct_destinations : Distinct [] (destination_ids c.destinations)

reachable_by :
    (known known' : List String)
    → ((j : String) → contains known j ≡ contains known' j)
    → (ds : List Destination) → All (IsReachable known) ds
    → All (IsReachable known') ds
reachable_by known known' same [] h = tt
reachable_by known known' same (d ∷ ds) (x, xs) = (moved d x, reachable_by known known' same ds xs)
  where
    all_known :
        (ids : List String)
        → All (λ i. contains known i ≡ true) ids
        → All (λ i. contains known' i ≡ true) ids
    all_known [] h = tt
    all_known (i ∷ ids) (y, ys) = (sym (same i) ∙ y, all_known ids ys)

    moved : (e : Destination) → IsReachable known e → IsReachable known' e
    moved e y = record {
      id = y.id;
      description = y.description;
      type = y.type;
      endpoint = y.endpoint;
      username = y.username;
      has_source = y.has_source;
      known_sources = all_known e.sources y.known_sources;
      filter = y.filter;
    }

some_source : (ss : List Source) (j : String) → contains (source_ids ss) j ≡ true → ss ≢ []
some_source [] j h = cc
some_source (s ∷ ss) j h = cc

accepted-IsValid :
    (c : Application) (x : Seen)
    → sources_from c.sources [] ≡ x
    → with_sources c.destinations (at_least_one x) ≡ none
    → IsValid c
unfolding with_sources at_least_one validate_destinations
accepted-IsValid c (broken p) e h = cc
accepted-IsValid c (seen []) e h = cc
accepted-IsValid c (seen (i ∷ ids)) e h =
    let (sound, fresh, same) = sources_from-seen c.sources [] (i ∷ ids) e in
    let (reachable, apart) = destinations_from-none (i ∷ ids) c.destinations [] h in
    record {
      has_source = some_source c.sources i (ground (arith, same i, eq_refl i));
      sources = sound;
      distinct_sources = fresh;
      destinations = reachable_by (i ∷ ids) (source_ids c.sources) same c.destinations reachable;
      distinct_destinations = apart;
    }

to : (c : Application) → validate_application c ≡ none → IsValid c
unfolding validate_application validate_sources
to c h = accepted-IsValid c (sources_from c.sources []) refl h

known_ids :
    (ss : List Source) (out : List String)
    → ss ≢ []
    → ((j : String) → contains out j ≡ contains (source_ids ss) j)
    → at_least_one (seen out) ≡ seen out
unfolding at_least_one
known_ids [] out h same = absurd (h refl)
known_ids (s ∷ ss) [] h same = absurd (ground (arith, same s.id, eq_refl s.id))
known_ids (s ∷ ss) (i ∷ ids) h same = refl

from : (c : Application) → IsValid c → validate_application c ≡ none
unfolding validate_application validate_sources with_sources validate_destinations
from c x =
    let (out, e) = sources_from-found c.sources [] x.sources x.distinct_sources in
    let (sound, fresh, same) = sources_from-seen c.sources [] out e in
    let reachable =
      reachable_by (source_ids c.sources) out (λ j. sym (same j)) c.destinations x.destinations in
    rw (e, known_ids c.sources out x.has_source same)
      (destinations_from-accepted out c.destinations [] reachable x.distinct_destinations)

-- An application is accepted exactly when it has a source, every source has an id, a description, the
-- type "postgres", a host, a positive port, a user, a database, a table, and its serial and partitioning
-- columns among its columns; every destination has an id, a description, the type "http-push", an
-- endpoint, a user, at least one source and only sources of the application, and a filter, if any,
-- with a column and values; and no two sources and no two destinations have the same id.
pub validate_application-IsValid : (c : Application) → (validate_application c ≡ none) ↔ IsValid c
validate_application-IsValid c = (to c, from c)
