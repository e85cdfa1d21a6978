-- ===== src/ControlStore/Growth.antt =====
-- What the control store of internal/adapters/controlpg remembers from one time to a later one.
pub mod Streams
pub mod Subscriptions
pub mod Run
use postie.Prelude.{
  ℕ, suc, String, Bool, true, false, not, ◌&&◌, ◌||◌, Option, none, some, List, [], ◌∷◌, ◌==◌, ◌≡◌,
  ◌≤◌, refl, inl, inr, ap, sym, ◌∙◌, any, if◌then◌else◌, arith, Bool-cases, eq_iff, ℤ, leb, ltb,
}
use mathlib.Core.Path.{subst}
use postie.Stream.{Scope, Registration, Record}
use postie.Delivery.Effects.{Error, Result, ok, err}
use postie.ControlStore.{
  is_started, is_skip, LeaseRow, ObservationRow, StreamRow, SubscriptionRow, StartedRow, SkipRow,
  Tables, Connection, Call, transaction, checked, same_scope, is_blank, valid_scope, find,
  insert_new, update, mark_partition_started, save_skip,
}
use postie.ControlStore.Streams.{Codec, is_stream, agreed, register_stream, block_source}
use postie.ControlStore.Leases.{renew_lease, release_lease}
use postie.ControlStore.Subscriptions.{
  is_subscription, set_row, updated, max_bigint, ensure_rows, ensure_subscriptions, set_desired,
  observe_subscription, DesiredRow,
}
use postie.ControlStore.Calls.{
  StoreCall, registers, blocks, ensures, sets, observes, renews, releases, marks, skips, apply, run,
}
use postie.ControlStore.Rows.{
  any-insert_new, find-insert_new, find-update, transaction-post, checked-post,
}

-- A registration stays as it is, and a blocked one stays blocked.
pub record IsLaterStream (r r' : StreamRow) : Type 0 where
  pub identity : r'.identity ≡ r.identity
  pub names : r'.names ≡ r.names
  pub topic_id : r'.topic_id ≡ r.topic_id
  pub blocked : (r.blocked == "") ≡ false → (r'.blocked == "") ≡ false

-- The revision does not fall, and one revision is one desired state.
pub record IsLaterSubscription (r r' : SubscriptionRow) : Type 0 where
  pub rises : r.revision ≤ r'.revision
  pub fixed : r.revision ≡ r'.revision → r.desired ≡ r'.desired

pub record IsLater (t t' : Tables) : Type 0 where
  pub streams :
      (s : Scope) (id : String) (r : StreamRow)
      → find (is_stream s id) t.streams ≡ some r
      → (r' : StreamRow) × (find (is_stream s id) t'.streams ≡ some r') × IsLaterStream r r'
  pub subscriptions :
      (s : Scope) (id : String) (r : SubscriptionRow)
      → find (is_subscription s id) t.subscriptions ≡ some r
      → (r' : SubscriptionRow) × (find (is_subscription s id) t'.subscriptions ≡ some r')
        × IsLaterSubscription r r'
  pub started : (q : StartedRow → Bool) → any q t.started ≡ true → any q t'.started ≡ true
  pub skips : (q : SkipRow → Bool) → any q t.skips ≡ true → any q t'.skips ≡ true

pub same_stream : (r : StreamRow) → IsLaterStream r r
same_stream r = record { identity = refl; names = refl; topic_id = refl; blocked = λ h. h }

pub same_subscription : (r : SubscriptionRow) → IsLaterSubscription r r
same_subscription r = record { rises = omega arith; fixed = λ h. refl }

pub same_tables : (t : Tables) → IsLater t t
same_tables t = record {
  streams = λ s id r h. (r, h, same_stream r);
  subscriptions = λ s id r h. (r, h, same_subscription r);
  started = λ q h. h;
  skips = λ q h. h;
}

later_subscription :
    (r r' r'' : SubscriptionRow)
    → IsLaterSubscription r r'
    → IsLaterSubscription r' r''
    → IsLaterSubscription r r''
later_subscription r r' r'' a b = record {
  rises = let x = a.rises in let y = b.rises in omega arith;
  fixed = λ h. let x = a.rises in let y = b.rises in a.fixed (omega arith) ∙ b.fixed (omega arith);
}

pub IsLater-tables : (t t' t'' : Tables) → IsLater t t' → IsLater t' t'' → IsLater t t''
IsLater-tables t t' t'' a b = record {
  streams = λ s id r h.
      let (r', h', x) = a.streams s id r h in
      let (r'', h'', y) = b.streams s id r' h' in
      (
        r'',
        h'',
        record {
          identity = y.identity ∙ x.identity;
          names = y.names ∙ x.names;
          topic_id = y.topic_id ∙ x.topic_id;
          blocked = λ e. y.blocked (x.blocked e);
        },
      );
  subscriptions = λ s id r h.
      let (r', h', x) = a.subscriptions s id r h in
      let (r'', h'', y) = b.subscriptions s id r' h' in (r'', h'', later_subscription r r' r'' x y);
  started = λ q h. b.started q (a.started q h);
  skips = λ q h. b.skips q (a.skips q h);
}

-- A statement that checks something first, and so leaves the tables or changes them.
pub if-IsLater :
    {A : Type 0} (b : Bool) (t t1 t' : Tables) (x : A) (e : Error) (a : A)
    → ◌≡◌ {A = Tables × Result A} (if b then (t1, ok x) else (t, err e)) (t', ok a)
    → IsLater t t1
    → IsLater t t'
if-IsLater true t t1 t' x e a h l = subst (IsLater t) (ap (λ p. p.0) h) l
if-IsLater false t t1 t' x e a h l = cc

-- The same with its cases in the other order.
pub if_not-IsLater :
    {A : Type 0} (b : Bool) (t t1 t' : Tables) (x : A) (e : Error) (a : A)
    → ◌≡◌ {A = Tables × Result A} (if b then (t, err e) else (t1, ok x)) (t', ok a)
    → IsLater t t1
    → IsLater t t'
if_not-IsLater true t t1 t' x e a h l = cc
if_not-IsLater false t t1 t' x e a h l = subst (IsLater t) (ap (λ p. p.0) h) l
