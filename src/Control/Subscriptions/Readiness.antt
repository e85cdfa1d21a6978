-- ===== src/Control/Subscriptions/Readiness.antt =====
-- Which source keeps a destination from its records (`destinationReady` and `findDestination` of
-- internal/control/reconcile.go).
use Prim.Native.String
use postie.Prelude.{
  String, true, false, ◌≡◌, ◌≢◌, refl, ◌⊎◌, inl, inr, Option, none, some, List, [], ◌∷◌, ◌==◌, Dict,
  lookup, lookup_or, All, arith, Bool-cases, Option-cases, eq_iff,
}
use postie.Control.{SourceStatus, no_source_status, Destination}
use postie.Control.Subscriptions.{find_destination, unready}

-- The monitor reports this source as running.
pub record IsOn (states : Dict SourceStatus) (id : String) : Type 0 where
  pub status : SourceStatus
  pub reported : lookup id states ≡ some status
  pub runs : status.state ≡ "running"

-- The first of these sources that is not running.
abbrev pub FirstOff : List String → Dict SourceStatus → String → Type 0
FirstOff [] states off = ⊥
FirstOff (id ∷ ids) states off =
    ¬ IsOn states id × (off ≡ id) ⊎ IsOn states id × FirstOff ids states off

-- The sources of the first destination with this id; none, if there is no such destination.
abbrev pub AreSources : List Destination → String → List String → Type 0
AreSources [] id ids = ids ≡ []
AreSources (d ∷ ds) id ids = (d.id ≡ id) × (ids ≡ d.sources) ⊎ (d.id ≢ id) × AreSources ds id ids

pub find_destination-AreSources :
    (ds : List Destination) (id : String) → AreSources ds id (find_destination ds id).sources
unfolding find_destination
find_destination-AreSources [] id = refl
find_destination-AreSources (d ∷ ds) id = elim (Bool-cases (d.id == id)) [
  | inl same ↦ rw same (inl ((eq_iff d.id id).0 same, refl))
  | inr differ ↦ rw differ (inr (ground (arith, eq_iff d.id id), find_destination-AreSources ds id))
]

lookup_or-some :
    (m : Dict SourceStatus) (id : String) (z x : SourceStatus)
    → lookup id m ≡ some x
    → lookup_or id m z ≡ x
lookup_or-some [] id z x h = cc
lookup_or-some ((k, y) ∷ m) id z x h = ground (arith, lookup_or-some m id z x)

lookup_or-none :
    (m : Dict SourceStatus) (id : String) (z : SourceStatus)
    → lookup id m ≡ none
    → lookup_or id m z ≡ z
lookup_or-none [] id z h = refl
lookup_or-none ((k, y) ∷ m) id z h = ground (arith, lookup_or-none m id z)

unread : ("" == "running") ≢ true
unread h = cc

is_on :
    (states : Dict SourceStatus) (id : String)
    → ((lookup_or id states no_source_status).state == "running") ≡ true
    → IsOn states id
is_on states id h = elim (Option-cases (lookup id states)) [
  | inl absent ↦ absurd (unread (rw (lookup_or-none states id no_source_status absent) at h))
  | inr (x, e) ↦ record {
    status = x;
    reported = e;
    runs = ground (arith, lookup_or-some states id no_source_status x e, eq_iff x.state "running");
  }
]

not_on :
    (states : Dict SourceStatus) (id : String)
    → ((lookup_or id states no_source_status).state == "running") ≡ false
    → ¬ IsOn states id
not_on states id h x = absurd (
    ground (
      arith,
      lookup_or-some states id no_source_status x.status x.reported,
      x.runs,
      eq_iff x.status.state "running",
    ))

-- The outcome of `unready`.
abbrev pub Found : List String → Dict SourceStatus → Option String → Type 0
Found ids states none = All (IsOn states) ids
Found ids states (some reason) =
    (id : String) × FirstOff ids states id × (reason ≡ String.◌++◌ "source unavailable: " id)

one_more :
    (id : String) (ids : List String) (states : Dict SourceStatus)
    → IsOn states id
    → (x : Option String) → Found ids states x
    → Found (id ∷ ids) states x
one_more id ids states h none f = (h, f)
one_more id ids states h (some reason) (j, f, e) = (j, inr (h, f), e)

pub unready-Found :
    (ids : List String) (states : Dict SourceStatus) → Found ids states (unready ids states)
unfolding unready
unready-Found [] states = tt
unready-Found (id ∷ ids) states =
    elim (Bool-cases ((lookup_or id states no_source_status).state == "running")) [
      | inl runs ↦ rw runs (
          one_more id ids states (is_on states id runs) (unready ids states)
            (unready-Found ids states))
      | inr stands ↦ rw stands (id, inl (not_on states id stands, refl), refl)
    ]
