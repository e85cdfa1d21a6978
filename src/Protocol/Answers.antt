-- ===== src/Protocol/Answers.antt =====
-- What a destination must answer for a record to be given up (internal/protocol/protocol.go).
use postie.Prelude.{
  String, true, false, Option-cases, ◌≡◌, ◌≢◌, ◌↔◌, Option, none, some, arith, is_some, refl, Dict,
  lookup, inl, inr, eq_iff, Bool-cases,
}
use postie.Encoding.{Json, obj, Members}
use postie.Protocol.Numbers.{MembersFinite, members_fit-MembersFinite}
use postie.Protocol.{
  answer, success, keep_going, decode_acknowledgement, response_result, is_success, error_policy,
  answer_of, ErrorFields, decode_error, policy_of, named_policy,
}

abbrev pub no_fields : ErrorFields
no_fields = record { policy = none; class = none; description = none; failed = false }

-- A success: an object whose numbers, at any depth, round to a float64.
pub record IsSuccess (value : Option Json) : Type 0 where
  pub members : Members
  pub object : value ≡ some (obj members)
  pub finite : MembersFinite members

is_success-to : (value : Option Json) → is_success value ≡ true → IsSuccess value
unfolding is_success
is_success-to (some (obj ms)) h = record {
  members = ms;
  object = refl;
  finite = (members_fit-MembersFinite ms).0 h;
}
is_success-to _ h = cc

is_success-from : {value : Option Json} → IsSuccess value → is_success value ≡ true
unfolding is_success
is_success-from x = rw x.object ((members_fit-MembersFinite x.members).1 x.finite)

not_successful : (value : Option Json) → (is_success value ≡ false) ↔ ¬ IsSuccess value
not_successful value = (
  λ h x. absurd (ground (arith, is_success-from x)),
  λ n. elim (Bool-cases (is_success value)) [
    | inl given ↦ absurd (n (is_success-to value given))
    | inr none_given ↦ none_given
  ],
)

-- The answer can be read, and carries a success.
pub record HasSuccess (body : Option Json) : Type 0 where
  pub result : Dict Json
  pub readable : response_result body ≡ some result
  pub success_given : IsSuccess (lookup "success" result)

policy_of-success : (e : ErrorFields) → policy_of e ≢ some success
unfolding policy_of named_policy
policy_of-success e h = elim (Option-cases e.policy) [
  | inl absent ↦ ground arith
  | inr (p, given) ↦ ground arith
]

error_policy-success : (value : Option Json) → error_policy value ≢ some success
unfolding error_policy
error_policy-success (some (obj ms)) h = policy_of-success (decode_error ms no_fields) h
error_policy-success _ h = cc

answer_of-success :
    (success_value error_value : Option Json)
    → answer_of success_value error_value ≡ answer success
    → IsSuccess success_value
unfolding answer_of
answer_of-success success_value error_value h = elim (Bool-cases (is_success success_value)) [
  | inl given ↦ is_success-to success_value given
  | inr none_given ↦ absurd (ground (arith, error_policy-success error_value))
]

-- An answer for which a record counts as delivered carries a success.
pub decode_acknowledgement-success :
    (body : Option Json) → decode_acknowledgement body ≡ answer success → HasSuccess body
unfolding decode_acknowledgement
decode_acknowledgement-success body h = elim (Option-cases (response_result body)) [
  | inl failed ↦ absurd (ground arith)
  | inr (m, readable) ↦ record {
    result = m;
    readable = readable;
    success_given = answer_of-success (lookup "success" m) (lookup "error" m) (ground arith);
  }
]

-- The answer carries no success, and a whole error with this policy.
pub record HasPolicy (policy : String) (body : Option Json) : Type 0 where
  pub result : Dict Json
  pub members : Members
  pub readable : response_result body ≡ some result
  pub not_success : ¬ IsSuccess (lookup "success" result)
  pub has_error : lookup "error" result ≡ some (obj members)
  pub well_typed : (decode_error members no_fields).failed ≡ false
  pub policy_given : (decode_error members no_fields).policy ≡ some policy
  pub class_given : is_some (decode_error members no_fields).class ≡ true
  pub description_given : is_some (decode_error members no_fields).description ≡ true

named_policy-keep_going : (p : String) → named_policy p ≡ some keep_going → p ≡ "keep_going"
unfolding named_policy
named_policy-keep_going p h = ground (arith, eq_iff p "keep_going")

policy_of-keep_going :
    (e : ErrorFields)
    → policy_of e ≡ some keep_going
    → (e.failed ≡ false)
      × (e.policy ≡ some "keep_going")
      × (is_some e.class ≡ true)
      × (is_some e.description ≡ true)
unfolding policy_of
policy_of-keep_going e h = elim (Option-cases e.policy) [
  | inl absent ↦ ground arith
  | inr (p, given) ↦ ground (arith, named_policy-keep_going p)
]

answer_of-keep_going :
    (success_value error_value : Option Json)
    → answer_of success_value error_value ≡ answer keep_going
    → (is_success success_value ≡ false) × (error_policy error_value ≡ some keep_going)
unfolding answer_of
answer_of-keep_going success_value error_value h = ground arith

error_policy-obj :
    (value : Option Json)
    → error_policy value ≡ some keep_going
    → (ms : Members) × (value ≡ some (obj ms))
      × (policy_of (decode_error ms no_fields) ≡ some keep_going)
unfolding error_policy
error_policy-obj (some (obj ms)) h = (ms, refl, h)
error_policy-obj _ h = cc

rejected :
    (body : Option Json)
    → decode_acknowledgement body ≡ answer keep_going
    → HasPolicy "keep_going" body
unfolding decode_acknowledgement
rejected body h = elim (Option-cases (response_result body)) [
  | inl failed ↦ absurd (ground arith)
  | inr (m, readable) ↦
      let (plain, policy) =
        answer_of-keep_going (lookup "success" m) (lookup "error" m) (ground arith) in
      let (ms, has, known) = error_policy-obj (lookup "error" m) policy in
      let (typed, given, class, description) =
        policy_of-keep_going (decode_error ms no_fields) known in
      record {
        result = m;
        members = ms;
        readable = readable;
        not_success = (not_successful (lookup "success" m)).0 plain;
        has_error = has;
        well_typed = typed;
        policy_given = given;
        class_given = class;
        description_given = description;
      }
]

policy_known :
    (e : ErrorFields)
    → e.failed ≡ false
    → e.policy ≡ some "keep_going"
    → is_some e.class ≡ true
    → is_some e.description ≡ true
    → policy_of e ≡ some keep_going
unfolding policy_of
policy_known e h p c d = rw (h, c, d, p)

answer_of-known :
    (success_value error_value : Option Json)
    → is_success success_value ≡ false
    → error_policy error_value ≡ some keep_going
    → answer_of success_value error_value ≡ answer keep_going
unfolding answer_of
answer_of-known success_value error_value h k = rw (h, k)

accepted :
    (body : Option Json)
    → HasPolicy "keep_going" body
    → decode_acknowledgement body ≡ answer keep_going
unfolding decode_acknowledgement error_policy
accepted body x =
    let known : policy_of (decode_error x.members no_fields) ≡ some keep_going =
      policy_known _ x.well_typed x.policy_given x.class_given x.description_given in
    rw (x.readable, decode_acknowledgement)
      (answer_of-known (lookup "success" x.result) (lookup "error" x.result)
        ((not_successful (lookup "success" x.result)).1 x.not_success) (rw x.has_error known))

-- A record is given up exactly when the answer can be decoded, holds no success, that is, no object
-- whose numbers all round to a float64, and holds an error with a class, a description and the policy
-- `keep_going`.
pub decode_acknowledgement-keep_going :
    (body : Option Json)
    → (decode_acknowledgement body ≡ answer keep_going) ↔ HasPolicy "keep_going" body
decode_acknowledgement-keep_going body = (rejected body, accepted body)
