-- ===== src/Protocol.antt =====
-- internal/protocol/protocol.go: the filter of a destination and its answer to a record.
pub mod Filtering
pub mod Answers
pub mod Decimal
pub mod Numbers
pub mod Times
pub mod Values
use postie.Prelude.{
  String, Bool, true, false, not, ◌||◌, Option, none, some, List, ◌==◌, if◌then◌else◌, is_some,
  contains, Dict, lookup, insert, [],
}
use postie.Encoding.{Json, null, str, obj, Members, end, member, key_is, last_member}
use postie.Protocol.Numbers.{members_fit}

-- `Acknowledgement`
pub data Acknowledgement : Type 0 where
  retry success keep_going : Acknowledgement

-- A result with the error's text.
pub data Answer : Type 0 where
  answer : Acknowledgement → Answer
  retry_with_error : Answer

-- `response.Result` while the members of the body are decoded: a nil map or its entries, and
-- whether a member had another type than a map.
pub record Decoding : Type 0 where
  pub result : Option (Dict Json)
  pub failed : Bool

-- The entries of a decoded object: the last member of a key stays.
unfoldable pub add_members : Dict Json → Members → Dict Json
add_members m end = m
add_members m (member k v rest) = add_members (insert k v m) rest

or_empty : Option (Dict Json) → Dict Json
or_empty none = []
or_empty (some m) = m

-- A map that is decoded into twice keeps its first entries; `null` makes it nil.
decode_map : Json → Decoding → Decoding
unfolding add_members or_empty
decode_map null d = record d { result = none }
decode_map (obj ms) d = record d { result = some (add_members (or_empty d.result) ms) }
decode_map _ d = record d { failed = true }

decode_response : Members → Decoding → Decoding
unfolding decode_map
decode_response end d = d
decode_response (member k v rest) d =
    decode_response rest (if key_is "result" k then decode_map v d else d)

-- `json.Unmarshal(body, &response)`: `none` is an error. The body `null` changes nothing.
unfoldable pub response_result : Option Json → Option (Dict Json)
unfolding decode_response or_empty
response_result (some null) = some []
response_result (some (obj ms)) =
    let d = decode_response ms (record { result = none; failed = false }) in
    if d.failed then none else some (or_empty d.result)
response_result _ = none

-- A `map[string]any` takes an object whose numbers, at any depth, a float64 holds.
unfoldable pub is_success : Option Json → Bool
unfolding members_fit
is_success (some (obj ms)) = members_fit ms
is_success _ = false

-- The structured error while its members are decoded.
pub record ErrorFields : Type 0 where
  pub policy : Option String
  pub class : Option String
  pub description : Option String
  pub failed : Bool

-- Decoding into a `*string`: `none` is a value of another type.
text_or_null : Json → Option (Option String)
text_or_null null = some none
text_or_null (str literal s) = some (some s)
text_or_null _ = none

set_field : String → Option (Option String) → ErrorFields → ErrorFields
set_field k none e =
    if key_is "policy" k
    then record e { failed = true }
    else if key_is "class" k
    then record e { failed = true }
    else if key_is "description" k
    then record e { failed = true }
    else e
set_field k (some v) e =
    if key_is "policy" k
    then record e { policy = v }
    else if key_is "class" k
    then record e { class = v }
    else if key_is "description" k
    then record e { description = v }
    else e

pub decode_error : Members → ErrorFields → ErrorFields
unfolding set_field text_or_null
decode_error end e = e
decode_error (member k v rest) e = decode_error rest (set_field k (text_or_null v) e)

named_policy : String → Option Acknowledgement
named_policy p =
    if p == "must_retry" then some retry else if p == "keep_going" then some keep_going else none

policy_of : ErrorFields → Option Acknowledgement
unfolding named_policy
policy_of e =
    if e.failed || not (is_some e.class) || not (is_some e.description)
    then none
    else elim e.policy [ none ↦ none | some p ↦ named_policy p ]

unfoldable pub error_policy : Option Json → Option Acknowledgement
unfolding decode_error policy_of
error_policy (some (obj ms)) =
    policy_of
      (decode_error ms (record { policy = none; class = none; description = none; failed = false }))
error_policy _ = none

answer_of : Option Json → Option Json → Answer
unfolding is_success error_policy
answer_of success_value error_value =
    if is_success success_value
    then answer success
    else elim (error_policy error_value) [ none ↦ retry_with_error | some p ↦ answer p ]

unfoldable pub decode_acknowledgement : Option Json → Answer
unfolding response_result answer_of
decode_acknowledgement body = elim (response_result body) [
  | none ↦ retry_with_error
  | some m ↦ answer_of (lookup "success" m) (lookup "error" m)
]

-- `Envelope`: the HTTP payload.
pub record Envelope : Type 0 where
  pub data_source_id : String
  pub data_source_description : String
  pub data_destination_id : String
  pub data_destination_description : String
  pub payload : Option Json

pub record Filter : Type 0 where
  pub column : String
  pub values : List String

-- The value of the filter's column, or that there is none.
value_matches : List String → Option Json → Bool
value_matches values (some (str literal s)) = contains values s
value_matches values _ = true

unfoldable pub matches_filter : Option Filter → Option Json → Bool
unfolding value_matches
matches_filter none payload = true
matches_filter (some f) (some (obj ms)) = value_matches f.values (last_member f.column ms)
matches_filter (some f) _ = true
