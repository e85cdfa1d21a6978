-- ===== src/Kafka/Baseline/Settling.antt =====
-- What the end of an attempt does with the answers: `settle`.
use postie.Prelude.{
  String, Bool, true, false, ◌||◌, Option, none, some, ◌≡◌, ◌⊎◌, inl, inr, refl, sym, ◌∙◌, ℤ, pos,
  negsuc, ltb_ℤ, eqb_ℤ, eqb_ℤ_iff, arith, Bool-cases,
}
use mathlib.Core.Path.{subst, subst₂}
use postie.Delivery.Effects.{Result, ok, err}
use postie.Kafka.{
  PartitionWorker, Local, call, may_commit, commit, lose, settle_new, settle_known, settle,
}
use postie.Kafka.Baseline.{
  Answers, IsUncommitted, IsSettled, IsGone, IsLost, IsRefused, commit_failed,
}

module _ {W : Type 0} (p : PartitionWorker W) {w : W} (a : Answers p w) (h : ℤ) where
  -- The end of `settle`, behind the last answer.
  abbrev pub Settled : Option (Local W × Result (Unit {0})) → Type 0
  Settled none = ⊥
  Settled (some (s', ok u)) = IsSettled p a s'.1 × (s'.0 ≡ h)
  Settled (some (s', err e)) = IsLost p w s' e ⊎ IsRefused p w s' e

  lose-Settled : (reason : String) → IsGone p a → Settled (lose p reason (h, a.asked_at))
  unfolding lose
  lose-Settled reason gone =
      inl (record { answers = a; gone = gone; reason = reason; blocked = refl; ends = refl })

  called-Settled :
      (x : W × Result (Unit {0}))
      → commit p p.topic p.partition (negsuc 0) (negsuc 0) a.asked_at ≡ x
      → IsUncommitted a.offset
      → a.started ≡ false
      → a.first ≡ pos 0
      → Settled (some ((h, x.0), x.1))
  unfolding commit
  called-Settled (w, ok u) e un st fi = elim (Bool-cases (may_commit p a.asked_at)) [
    | inr shut ↦ absurd (ground arith)
    | inl allowed ↦ (
      inr (record {
        uncommitted = un;
        unstarted = st;
        whole = fi;
        allowed = allowed;
        committed = ground arith;
      }),
      refl,
    )
  ]
  called-Settled (w, err x) e un st fi = inr (commit_failed a e)

  settle_new-Settled :
      (first : ℤ) (started : Bool)
      → a.first ≡ first
      → a.started ≡ started
      → IsUncommitted a.offset
      → Settled (settle_new p first started (h, a.asked_at))
  unfolding settle_new call
  settle_new-Settled first true ef es un = lose-Settled _ (inl (un, inl es))
  settle_new-Settled first false ef es un = elim (Bool-cases (eqb_ℤ first (pos 0))) [
    | inr cut ↦ rw cut (
        lose-Settled _
          (inl (un, inr (λ e. true≢false ((eqb_ℤ_iff first (pos 0)).1 (sym ef ∙ e)) cut))))
    | inl whole ↦
        let e = (eqb_ℤ_iff first (pos 0)).0 whole in
        subst (λ f. Settled (settle_new p f false (h, a.asked_at))) (sym e)
          (called-Settled _ refl un es (ef ∙ e))
  ]
    where
      true≢false : {b : Bool} → b ≡ true → b ≡ false → ⊥
      true≢false x y = ground arith

  settle_known-Settled :
      (first last at : ℤ)
      → a.first ≡ first
      → a.last ≡ last
      → a.offset ≡ some at
      → Settled (settle_known p first last at (h, a.asked_at))
  unfolding settle_known
  settle_known-Settled first last at ef el eo =
      elim (Bool-cases (ltb_ℤ at first || ltb_ℤ last at)) [
        | inl out ↦ rw out (
            lose-Settled _ (
              inr (
                at,
                eo,
                subst₂ (λ f l. (ltb_ℤ at f ≡ true) ⊎ (ltb_ℤ l at ≡ true)) (sym ef) (sym el)
                    (ground arith),
              )))
        | inr inside ↦ rw inside (
          inl (
            record {
              at = at;
              committed = eo;
              not_before = subst (λ f. ltb_ℤ at f ≡ false) (sym ef) (ground arith);
              not_behind = subst (λ l. ltb_ℤ l at ≡ false) (sym el) (ground arith);
            },
            refl,
          ),
          refl,
        )
      ]

  pub settle-Settled :
      (offset : Option ℤ)
      → a.offset ≡ offset
      → Settled (settle p a.first a.last offset a.started (h, a.asked_at))
  unfolding settle
  settle-Settled none e =
      settle_new-Settled a.first a.started refl refl (subst IsUncommitted (sym e) tt)
  settle-Settled (some at) e = elim (Bool-cases (ltb_ℤ at (pos 0))) [
    | inl below ↦
        rw below
          (settle_new-Settled a.first a.started refl refl (subst IsUncommitted (sym e) below))
    | inr known ↦ rw known (settle_known-Settled a.first a.last at refl refl e)
  ]
