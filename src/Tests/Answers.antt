-- ===== src/Tests/Answers.antt =====
-- The filter and the answers of internal/protocol/protocol.go on concrete texts.
use postie.Prelude.{◌≡◌, ◌↔◌, refl, insert, cut, false, some, [], ◌∷◌, Option}
use postie.Encoding.{Json, num, plain, obj, end, member, key_is, last_member}
use postie.Protocol.{
  Filter, matches_filter, decode_acknowledgement, answer, success, keep_going, retry_with_error,
}
use postie.Protocol.Filtering.{IsExcluded, matches_filter-IsExcluded}
use postie.Protocol.Answers.{HasPolicy, decode_acknowledgement-keep_going}

abbrev rule : Option Filter
rule = some (record { column = "kind"; values = "created" ∷ [] })

abbrev payload : Option Json
payload = some (obj (member "kind" (plain "deleted") end))

abbrev body : Option Json
body = some (
    obj (
      member "result"
        (obj (
          member "error"
            (obj (
              member "policy" (plain "keep_going")
                (member "class" (plain "Gone") (member "description" (plain "no such user") end))))
            end))
        end))

matches_filter-IsExcluded_example : (matches_filter rule payload ≡ false) ↔ IsExcluded rule payload
matches_filter-IsExcluded_example = matches_filter-IsExcluded rule payload

decode_acknowledgement-keep_going_example :
    (decode_acknowledgement body ≡ answer keep_going) ↔ HasPolicy "keep_going" body
decode_acknowledgement-keep_going_example = decode_acknowledgement-keep_going body

-- A number that no float64 holds.
abbrev huge : Json
huge = num (b'1' ∷ b'e' ∷ b'9' ∷ b'9' ∷ b'9' ∷ [])

abbrev answer_with : Json → Option Json
answer_with x =
    some (obj (member "result" (obj (member "success" (obj (member "a" x end)) end)) end))

huge_success :
    (decode_acknowledgement (answer_with huge) ≡ retry_with_error)
    × (decode_acknowledgement (answer_with (num (b'1' ∷ []))) ≡ answer success)
unfolding decode_acknowledgement key_is insert cut
huge_success = (refl, refl)

huge_dropped :
    matches_filter rule (some (obj (member "kind" (plain "deleted") (member "x" huge end)))) ≡ false
unfolding matches_filter last_member
huge_dropped = refl
