-- ===== src/Kafka/Topics/Established.antt =====
-- What `EnsureTopic` of internal/adapters/kafka/admin.go has established when it returns an ID, and that
-- it returns.
use postie.Prelude.{
  ℕ, zero, suc, String, Bool, true, false, Option, none, some, Option-cases, List, [], ◌∷◌, length,
  ◌==◌, ◌≡◌, refl, sym, ◌⊎◌, inl, inr, ℤ, pos, eqb_ℤ, eqb_ℤ_iff, Dict, lookup_or, eq_iff,
  Bool-cases,
}
use mathlib.Core.Path.{subst}
use postie.Provision.{failed, Result, ok, err}
use postie.Kafka.Topics.{
  PartitionDetail, TopicDetail, Creation, created, already_exists, refused, Admin, topic_configs,
  Checked, check_errors, check_replicas, validate_replication, verify_configs, Answer,
  configs_checked, found_unless, replicas_checked, existing_detail, existing_listed, existing_topic,
  after_pause, after_lookup, await_topic, after_creation, ensure_topic,
}

abbrev pub AllReplicated : ℤ → List PartitionDetail → Type 0
AllReplicated want [] = Unit
AllReplicated want (p ∷ rest) = (p.error ≡ none) × (p.replicas ≡ want) × AllReplicated want rest

abbrev pub AllSet : Dict String → Dict String → Type 0
AllSet current [] = Unit
AllSet current (pair ∷ rest) = (lookup_or pair.0 current "" ≡ pair.1) × AllSet current rest

replicated :
    (topic : String) (want : ℤ) (ps : List PartitionDetail)
    → check_errors failed ps ≡ none
    → check_replicas topic want ps ≡ none
    → AllReplicated want ps
unfolding check_errors check_replicas
replicated topic want [] h k = tt
replicated topic want (p ∷ rest) h k = elim (Option-cases p.error) [
  | inr (e, bad) ↦ let h' = rw bad at h in cc
  | inl fine ↦ elim (Bool-cases (eqb_ℤ p.replicas want)) [
    | inl same ↦ (
      fine,
      (eqb_ℤ_iff p.replicas want).0 same,
      replicated topic want rest (rw fine at h) (rw same at k),
    )
    | inr other ↦ let k' = rw other at k in cc
  ]
]

validated :
    (topic : String) (want : ℤ) (ps : List PartitionDetail)
    → validate_replication topic want ps ≡ none
    → AllReplicated want ps
unfolding validate_replication
validated topic want ps h = elim (Option-cases (check_errors failed ps)) [
  | inl fine ↦ replicated topic want ps fine (rw fine at h)
  | inr (e, bad) ↦ let h' = rw bad at h in cc
]

verified : (current want : Dict String) → verify_configs current want ≡ none → AllSet current want
unfolding verify_configs
verified current [] h = tt
verified current ((key, value) ∷ rest) h = elim (Bool-cases (lookup_or key current "" == value)) [
  | inl same ↦
      ((eq_iff (lookup_or key current "") value).0 same, verified current rest (rw same at h))
  | inr other ↦ let h' = rw other at h in cc
]

module _ {W : Type 0} (a : Admin W) (topic : String) (partitions replication : ℤ) where
  -- The topic was there, as it is wanted.
  pub record IsFound (id : List ℕ) (w' : W) : Type 0 where
    pub before : W
    pub between : W
    pub listed : String → Option TopicDetail
    pub detail : TopicDetail
    pub current : Dict String
    pub lists : a.list_topics topic before ≡ (between, ok listed)
    pub shown : listed topic ≡ some detail
    pub sound : detail.error ≡ none
    pub divided : pos (length detail.partitions) ≡ partitions
    pub replicated : AllReplicated replication detail.partitions
    pub describes : a.describe_configs topic between ≡ (w', ok current)
    pub configured : AllSet current (topic_configs replication)
    pub named : id ≡ detail.id

  pub record IsCreated (id : List ℕ) (w' : W) : Type 0 where
    pub before : W
    pub creates :
        a.create_topic partitions replication (topic_configs replication) topic before
        ≡ (w', created id)

  abbrev Looked : Answer W → Type 0
  Looked (w', err e) = Unit
  Looked (w', ok none) = Unit
  Looked (w', ok (some id)) = IsFound id w'

  abbrev pub Ensured : Option (W × Result (List ℕ)) → Type 0
  Ensured none = Unit
  Ensured (some (w', err e)) = Unit
  Ensured (some (w', ok id)) = IsFound id w' ⊎ IsCreated id w'

  module _ (w w1 : W) (listed : String → Option TopicDetail) (detail : TopicDetail)
      (lists : a.list_topics topic w ≡ (w1, ok listed)) (shown : listed topic ≡ some detail)
      (sound : detail.error ≡ none)
      (divided : eqb_ℤ (pos (length detail.partitions)) partitions ≡ true) where
    configs-Looked :
        (x : W × Result (Dict String))
        → a.describe_configs topic w1 ≡ x
        → AllReplicated replication detail.partitions
        → Looked (configs_checked a topic partitions replication detail.id x)
    unfolding configs_checked
    configs-Looked (w2, err e) d r = tt
    configs-Looked (w2, ok current) d r =
        unless (verify_configs current (topic_configs replication)) refl
      where
        unless :
            (x : Checked)
            → verify_configs current (topic_configs replication) ≡ x
            → Looked (found_unless a topic partitions replication detail.id w2 x)
        unless (some e) h = tt
        unless none h = record {
          before = w;
          between = w1;
          listed = listed;
          detail = detail;
          current = current;
          lists = lists;
          shown = shown;
          sound = sound;
          divided = (eqb_ℤ_iff (pos (length detail.partitions)) partitions).0 divided;
          replicated = r;
          describes = d;
          configured = verified current (topic_configs replication) h;
          named = refl;
        }

    replicas-Looked :
        (x : Checked)
        → validate_replication topic replication detail.partitions ≡ x
        → Looked (replicas_checked a topic partitions replication detail x w1)
    unfolding replicas_checked
    replicas-Looked (some e) h = tt
    replicas-Looked none h =
        configs-Looked (a.describe_configs topic w1) refl
          (validated topic replication detail.partitions h)

  detail-Looked :
      (w w1 : W) (listed : String → Option TopicDetail) (x : Option TopicDetail)
      → a.list_topics topic w ≡ (w1, ok listed)
      → listed topic ≡ x
      → Looked (existing_detail a topic partitions replication x w1)
  unfolding existing_detail
  detail-Looked w w1 listed none e s = tt
  detail-Looked w w1 listed (some detail) e s = elim (Option-cases detail.error) [
    | inr (x, bad) ↦ rw (bad, Looked) tt
    | inl sound ↦ elim (Bool-cases (eqb_ℤ (pos (length detail.partitions)) partitions)) [
      | inr other ↦ rw (sound, other, Looked) tt
      | inl same ↦ subst Looked (sym (taken detail w1 sound same)) (
          replicas-Looked w w1 listed detail e s sound same
            (validate_replication topic replication detail.partitions) refl)
    ]
  ]
    where
      taken :
          (detail : TopicDetail) (w1 : W)
          → detail.error ≡ none
          → eqb_ℤ (pos (length detail.partitions)) partitions ≡ true
          → existing_detail a topic partitions replication (some detail) w1
            ≡ replicas_checked a topic partitions replication detail
                (validate_replication topic replication detail.partitions)
                w1
      taken detail w1 sound same = rw (sound, same) refl

  existing_topic-Looked : (w : W) → Looked (existing_topic a topic partitions replication w)
  unfolding existing_topic
  existing_topic-Looked w = looked (a.list_topics topic w) refl
    where
      looked :
          (x : W × Result (String → Option TopicDetail))
          → a.list_topics topic w ≡ x
          → Looked (existing_listed a topic partitions replication x)
      looked (w1, err e) h = tt
      looked (w1, ok listed) h = detail-Looked w w1 listed (listed topic) h refl

  after_lookup-Ensured :
      (absent : W → Option (W × Result (List ℕ))) (x : Answer W)
      → ((w : W) → Ensured (absent w))
      → Looked x
      → Ensured (after_lookup a topic partitions replication absent x)
  unfolding after_lookup
  after_lookup-Ensured absent (w, err e) h l = tt
  after_lookup-Ensured absent (w, ok none) h l = h w
  after_lookup-Ensured absent (w, ok (some id)) h l = inl l

  await_topic-Ensured :
      (fuel : ℕ) (w : W) → Ensured (await_topic a topic partitions replication fuel w)
  unfolding await_topic
  await_topic-Ensured zero w = tt
  await_topic-Ensured (suc fuel) w =
      after_lookup-Ensured _ (existing_topic a topic partitions replication w)
        (λ w'. paused (a.pause w') (await_topic-Ensured fuel)) (existing_topic-Looked w)
    where
      paused :
          (x : W × Bool)
          → ((w : W) → Ensured (await_topic a topic partitions replication fuel w))
          → Ensured (
              after_pause a topic partitions replication
                (await_topic a topic partitions replication fuel)
                x)
      paused (w', true) ih = ih w'
      paused (w', false) ih = tt

  -- An ID is that of the topic that the call created with the wanted partitions, replication and
  -- configuration, or of one that it listed with them: no partition has an error, each has the
  -- wanted replicas, and every wanted setting is set.
  pub ensure_topic-Ensured :
      (fuel : ℕ) (w : W) → Ensured (ensure_topic a topic partitions replication fuel w)
  unfolding ensure_topic after_creation
  ensure_topic-Ensured fuel w =
      after_lookup-Ensured _ (existing_topic a topic partitions replication w)
        (λ w1.
          made w1 (a.create_topic partitions replication (topic_configs replication) topic w1) refl)
        (existing_topic-Looked w)
    where
      made :
          (w1 : W) (x : W × Creation)
          → a.create_topic partitions replication (topic_configs replication) topic w1 ≡ x
          → Ensured (after_creation a topic partitions replication fuel x)
      made w1 (w2, created id) e = inr (record { before = w1; creates = e })
      made w1 (w2, refused x) e = tt
      made w1 (w2, already_exists) e = await_topic-Ensured fuel w2
