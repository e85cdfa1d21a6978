-- ===== src/ControlStore/Growth/Streams.antt =====
-- Registrations and blocks keep what is remembered.
use postie.Prelude.{
  String, Bool, true, false, not, Option, none, some, ◌==◌, ◌≡◌, refl, inl, inr, ap, sym, ◌∙◌, any,
  if◌then◌else◌, arith, Bool-cases, eq_iff,
}
use mathlib.Core.Path.{subst}
use postie.Stream.{Scope, Registration}
use postie.Delivery.Effects.{ok}
use postie.ControlStore.{StreamRow, Tables, Connection, is_blank, valid_scope, insert_new, update}
use postie.ControlStore.Streams.{Codec, is_stream, agreed, register_stream, block_source}
use postie.ControlStore.Subscriptions.{}
use postie.ControlStore.Calls.{}
use postie.ControlStore.Rows.{find-insert_new, find-update, transaction-post, checked-post}
use postie.ControlStore.Growth.{
  IsLaterStream, IsLater, same_stream, same_subscription, same_tables, if-IsLater,
}

block_key :
    (s s' : Scope) (id id' reason : String) (r : StreamRow)
    → is_stream s id (if is_stream s' id' r then record r { blocked = reason } else r)
      ≡ is_stream s id r
block_key s s' id id' reason r = elim (Bool-cases (is_stream s' id' r)) [
  | inl e ↦ rw e refl
  | inr e ↦ rw e refl
]

if-IsLaterStream :
    (b : Bool) (reason : String) (r : StreamRow)
    → (reason == "") ≡ false
    → IsLaterStream r (if b then record r { blocked = reason } else r)
if-IsLaterStream true reason r h = record {
  identity = refl;
  names = refl;
  topic_id = refl;
  blocked = λ e. h;
}
if-IsLaterStream false reason r h = same_stream r

true≢false : false ≡ true → ⊥
true≢false h = cc

not_blank : (s : String) → not (is_blank s) ≡ true → (s == "") ≡ false
unfolding is_blank
not_blank s h = elim (Bool-cases (s == "")) [
  | inr e ↦ e
  | inl e ↦
      let e' = (eq_iff s "").0 e in absurd (true≢false (subst (λ s. not (is_blank s) ≡ true) e' h))
]

agreed-tables :
    (k : Codec) (new : StreamRow) (t : Tables) (x : Option StreamRow) → (agreed k new t x).0 ≡ t
unfolding agreed
agreed-tables k new t none = refl
agreed-tables k new t (some old) = ground arith

agreed-IsLater :
    (k : Codec) (s : Scope) (id : String) (row : StreamRow) (t t' : Tables) (x : Option StreamRow)
    (a : Unit {0})
    → agreed k row (record t { streams = insert_new (is_stream s id) row t.streams }) x ≡ (t', ok a)
    → IsLater t t'
agreed-IsLater k s id row t t' x a e =
    subst (IsLater t)
      (sym
          (agreed-tables k row (record t { streams = insert_new (is_stream s id) row t.streams }) x)
        ∙ ap (λ x. x.0) e)
      (record {
        streams = λ s' id' r h.
            (r, find-insert_new (is_stream s' id') (is_stream s id) row t.streams h, same_stream r);
        subscriptions = λ s' id' r h. (r, h, same_subscription r);
        started = λ q h. h;
        skips = λ q h. h;
      })

pub register_stream-IsLater :
    (k : Codec) (s : Scope) (r : Registration) (c : Connection) (t : Tables)
    → IsLater t (register_stream k s r c t).0
unfolding register_stream
register_stream-IsLater k s r c t =
    checked-post (IsLater t) (valid_scope s) _ _ c t (same_tables t) (λ v.
      checked-post (IsLater t) (not (r.source_id == "")) _ _ c t (same_tables t) (λ n.
        transaction-post (IsLater t) _ _ c t (same_tables t)
          (λ t' a e. agreed-IsLater k s r.source_id _ t t' _ a e)))

blocked-IsLater :
    (s : Scope) (id reason : String) (t : Tables)
    → (reason == "") ≡ false
    → IsLater t (record t {
      streams = update (is_stream s id) (λ r. record r { blocked = reason }) t.streams;
    })
blocked-IsLater s id reason t h = record {
  streams = λ s' id' r e. (
    _,
    find-update (is_stream s' id') (is_stream s id) (λ r. record r { blocked = reason }) t.streams
        (block_key s' s id' id reason) e,
    if-IsLaterStream (is_stream s id r) reason r h,
  );
  subscriptions = λ s' id' r e. (r, e, same_subscription r);
  started = λ q e. e;
  skips = λ q e. e;
}

pub block_source-IsLater :
    (s : Scope) (id reason : String) (c : Connection) (t : Tables)
    → IsLater t (block_source s id reason c t).0
unfolding block_source
block_source-IsLater s id reason c t =
    checked-post (IsLater t) (valid_scope s) _ _ c t (same_tables t) (λ v.
      checked-post (IsLater t) (not (is_blank reason)) _ _ c t (same_tables t) (λ n.
        transaction-post (IsLater t) _ _ c t (same_tables t) (λ t' a e.
          if-IsLater (any (is_stream s id) t.streams) t _ t' _ _ a e
            (blocked-IsLater s id reason t (not_blank reason n)))))
