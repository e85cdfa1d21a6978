-- ===== src/ControlStore/Streams.antt =====
-- `GetStream`, `RegisterStream` and `BlockSource` of internal/adapters/controlpg/streams.go.
use postie.Prelude.{
  String, Bool, not, ◌&&◌, ◌||◌, Option, none, some, ◌==◌, if◌then◌else◌, any, bytes_eq,
}
use postie.Encoding.{Json}
use postie.Stream.{Scope, Registration, Identity, Names}
use postie.Delivery.Effects.{failed, Result, ok, err}
use postie.ControlStore.{
  StreamRow, Tables, Call, transaction, checked, same_scope, valid_scope, is_blank, find,
  insert_new, update,
}

-- `encoding/json` on the two types, and `jsonEqual`.
pub record Codec : Type 0 where
  pub encode_identity : Identity → Json
  pub encode_names : Names → Json
  pub decode_identity : Json → Option Identity
  pub decode_names : Json → Option Names
  pub json_equal : Json → Json → Bool

abbrev pub is_stream : Scope → String → StreamRow → Bool
is_stream s id r = same_scope r.scope s && r.source_id == id

abbrev pub registration :
    String → StreamRow → Option Identity → Option Names → Result (Option Registration)
registration id r none names = err (failed "control: decode stream identity")
registration id r (some identity) none = err (failed "control: decode stream names")
registration id r (some identity) (some names) = ok (
    some (record {
      source_id = id;
      identity = identity;
      names = names;
      topic_id = r.topic_id;
      blocked = r.blocked;
    }))

unfoldable pub stream_of : Codec → String → Option StreamRow → Result (Option Registration)
stream_of k id none = ok none
stream_of k id (some r) = registration id r (k.decode_identity r.identity) (k.decode_names r.names)

unfoldable pub get_stream : Codec → Scope → String → Call (Option Registration)
unfolding valid_scope find stream_of
get_stream k s id =
    checked (valid_scope s) "control: invalid scope" (
      transaction "control: get stream"
        (λ t. (t, stream_of k id (find (is_stream s id) t.streams))))

-- The comparison with the row that is there now.
unfoldable pub agreed : Codec → StreamRow → Tables → Option StreamRow → Tables × Result (Unit {0})
agreed k new t none = (t, err (failed "control: read registered stream"))
agreed k new t (some old) =
    if not (k.json_equal old.identity new.identity)
      || not (k.json_equal old.names new.names)
      || not (bytes_eq old.topic_id new.topic_id)
    then (
      t,
      err (failed "control: stream is already registered with different identity, names, or topic"),
    )
    else (t, ok tt)

unfoldable pub register_stream : Codec → Scope → Registration → Call (Unit {0})
unfolding valid_scope insert_new find agreed
register_stream k s r =
    let row : StreamRow = record {
      scope = s;
      source_id = r.source_id;
      identity = k.encode_identity r.identity;
      names = k.encode_names r.names;
      topic_id = r.topic_id;
      blocked = r.blocked;
    } in
    checked (valid_scope s) "control: invalid scope" (
      checked (not (r.source_id == "")) "control: stream source ID is required" (
        transaction "control: register stream" (λ t.
          let rows = insert_new (is_stream s r.source_id) row t.streams in
          agreed k row (record t { streams = rows }) (find (is_stream s r.source_id) rows))))

unfoldable pub block_source : Scope → String → String → Call (Unit {0})
unfolding valid_scope is_blank update
block_source s id reason = checked (valid_scope s) "control: invalid scope" (
    checked (not (is_blank reason)) "control: block reason is required" (
      transaction "control: block source" (λ t.
        if any (is_stream s id) t.streams
        then (
          record t {
            streams = update (is_stream s id) (λ r. record r { blocked = reason }) t.streams;
          },
          ok tt,
        )
        else (t, err (failed "control: stream is not registered")))))
