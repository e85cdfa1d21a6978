-- ===== src/Wiring/Workers/Delivered.antt =====
-- From a raw record to its commit, through all the parts that internal/app/app.go puts together.
use postie.Prelude.{
  ℕ, String, Option, none, some, List, [], ◌∷◌, ◌==◌, ◌≡◌, ◌⊎◌, inl, inr, refl, sym, ◌∙◌, Dict,
  lookup, lookup_or, lookup-insert, insert, Bool-cases, eq_iff, if◌then◌else◌,
}
use postie.Prelude.Tries.{Try}
use mathlib.Core.Path.{subst}
use mathlib.Core.List.{Memᴰ}
use postie.Stream.{Record, RawRecord}
use postie.Config
use postie.Control
use postie.Delivery.Effects.{Result, ok, Context}
use postie.Delivery.Worker.{Worker}
use postie.Delivery.Worker.Commit.{IsCommitted, process_raw-IsCommitted}
use postie.Debezium.{Failure}
use postie.Debezium.Fidelity.{IsDecoded, decode-IsDecoded}
use postie.Wiring.Workers.{
  Wiring, no_destination, lift_decoded, worker, source_of, registration_of, workers, process_with,
  process,
}

lifted :
    (explain : Failure → String) (x : Try Failure Record) (r : Record)
    → lift_decoded explain x ≡ ok r
    → x ≡ Try.ok r
lifted explain (Try.ok s) r h = cc
lifted explain (Try.err e) r h = cc

inserted :
    {V : Type 0} (topic t : String) (new k : V) (old : Option V)
    → (if t == topic then some new else old) ≡ some k
    → (t ≡ topic) × (k ≡ new) ⊎ (old ≡ some k)
inserted topic t new k old h = elim (Bool-cases (t == topic)) [
  | inl same ↦ let h' : some new ≡ some k = rw same at h in inl ((eq_iff t topic).0 same, cc)
  | inr other ↦ inr (rw other at h)
]

module _ {W : Type 0} (a : Wiring W) (input : Config.Destination) where
  -- The worker of a topic is that of a source of the destination whose stream has the topic.
  pub record IsRouted (ids : List String) (topic : String) (k : Worker W) : Type 0 where
    pub id : String
    pub member : Memᴰ id ids
    pub registered : (registration_of a id).names.topic ≡ topic
    pub built : k ≡ worker a input (source_of a id) (registration_of a id)

  later_route :
      (id : String) (ids : List String) (topic : String) (k : Worker W)
      → IsRouted ids topic k
      → IsRouted (id ∷ ids) topic k
  later_route id ids topic k r = record {
    id = r.id;
    member = Memᴰ.tail r.member;
    registered = r.registered;
    built = r.built;
  }

  workers-IsRouted :
      (ids : List String) (built : Dict (Worker W)) (topic : String) (k : Worker W)
      → lookup topic (workers a input ids built) ≡ some k
      → IsRouted ids topic k ⊎ (lookup topic built ≡ some k)
  unfolding workers
  workers-IsRouted [] built topic k h = inr h
  workers-IsRouted (id ∷ ids) built topic k h =
      let new = worker a input (source_of a id) (registration_of a id) in
      let t = (registration_of a id).names.topic in
      elim (workers-IsRouted ids (insert t new built) topic k h) [
        | inl r ↦ inl (later_route id ids topic k r)
        | inr e ↦
            elim (inserted topic t new k (lookup topic built)
              (sym (lookup-insert t topic new built) ∙ e)) [
                | inl (same, built_here) ↦ inl (record {
                  id = id;
                  member = Memᴰ.head refl;
                  registered = same;
                  built = built_here;
                })
                | inr there ↦ inr there
              ]
      ]

  -- The record is decoded for that source, faithfully, and committed.
  pub record IsDelivered (destination : Control.Destination) (c : Context W) (raw : RawRecord)
      (commit : RawRecord → W → W × Result (Unit {0})) (w w' : W) : Type 0 where
    pub worker_of : Worker W
    pub routed : IsRouted destination.sources raw.topic worker_of
    pub committed : IsCommitted worker_of c raw commit w w'
    pub decoded :
        IsDecoded
          (source_of a routed.id)
          (registration_of a routed.id).identity
          a.scope.generation
          raw
          committed.decoded

  routed-IsDelivered :
      (destination : Control.Destination) (c : Context W) (raw : RawRecord)
      (commit : RawRecord → W → W × Result (Unit {0})) (w w' : W) (k : Worker W)
      → IsRouted destination.sources raw.topic k
      → IsCommitted k c raw commit w w'
      → IsDelivered destination c raw commit w w'
  unfolding worker
  routed-IsDelivered destination c raw commit w w' k r done = record {
    worker_of = k;
    routed = r;
    committed = done;
    decoded =
        decode-IsDecoded (source_of a r.id) (registration_of a r.id).identity a.scope.generation raw
          done.decoded
          (lifted a.explain _ done.decoded
            (subst (λ k. k.decode raw ≡ ok done.decoded) r.built done.decodes));
  }

module _ {W : Type 0} (a : Wiring W) (destination : Control.Destination) where
  abbrev input_of : Config.Destination
  input_of = lookup_or destination.id a.destinations no_destination

  -- A record that the consumer of a destination processes without an error came by a topic of one of
  -- the sources that the destination is subscribed to; it was decoded for the source and the identity
  -- that are registered with that topic, faithfully; the gate was open when its
  -- processing began; and its successful commit, made while the context was live, came last but for
  -- the log's entry.
  pub process-IsDelivered :
      (fuel : ℕ) (c : Context W) (raw : RawRecord) (commit : RawRecord → W → W × Result (Unit {0}))
      (w w' : W)
      → process a destination fuel c raw commit w ≡ some (w', ok tt)
      → IsDelivered a input_of destination c raw commit w w'
  unfolding process
  process-IsDelivered fuel c raw commit w w' h =
      found (lookup raw.topic (workers a input_of destination.sources [])) refl h
    where
      found :
          (x : Option (Worker W))
          → lookup raw.topic (workers a input_of destination.sources []) ≡ x
          → process_with a x fuel c raw commit w ≡ some (w', ok tt)
          → IsDelivered a input_of destination c raw commit w w'
      found none e k = cc
      found (some worker_of) e k =
          elim (workers-IsRouted a input_of destination.sources [] raw.topic worker_of e) [
            | inr nothing ↦ cc
            | inl r ↦
                routed-IsDelivered a input_of destination c raw commit w w' worker_of r
                  (process_raw-IsCommitted worker_of c raw commit fuel w w' k)
          ]
