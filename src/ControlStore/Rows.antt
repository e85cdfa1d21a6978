-- ===== src/ControlStore/Rows.antt =====
-- Rows that are found stay found, and what a transaction keeps.
use postie.Prelude.{
  Bool, true, false, some, List, [], ◌∷◌, ◌++◌, ◌≡◌, refl, inl, inr, any, if◌then◌else◌, Bool-cases,
  String,
}
use postie.Delivery.Effects.{Result, ok, err}
use postie.ControlStore.{
  Tables, Connection, answers, refuses, breaks, Call, settled, transaction, checked, find,
  insert_new, update,
}

module _ {R : Type 0} where
  any-append :
      (q : R → Bool) (rows : List R) (r : R) → any q rows ≡ true → any q (rows ++ r ∷ []) ≡ true
  any-append q [] r h = cc
  any-append q (x ∷ rows) r h = elim (Bool-cases (q x)) [
    | inl e ↦ rw e refl
    | inr e ↦ rw e (any-append q rows r (rw e at h))
  ]

  find-append :
      (q : R → Bool) (rows : List R) (r : R) {x : R}
      → find q rows ≡ some x
      → find q (rows ++ r ∷ []) ≡ some x
  unfolding find
  find-append q [] r h = cc
  find-append q (y ∷ rows) r h = elim (Bool-cases (q y)) [
    | inl e ↦ rw e (rw e at h)
    | inr e ↦ rw e (find-append q rows r (rw e at h))
  ]

  pub any-insert_new :
      (q p : R → Bool) (r : R) (rows : List R)
      → any q rows ≡ true
      → any q (insert_new p r rows) ≡ true
  unfolding insert_new
  any-insert_new q p r rows h = elim (Bool-cases (any p rows)) [
    | inl e ↦ rw e h
    | inr e ↦ rw e (any-append q rows r h)
  ]

  pub find-insert_new :
      (q p : R → Bool) (r : R) (rows : List R) {x : R}
      → find q rows ≡ some x
      → find q (insert_new p r rows) ≡ some x
  unfolding insert_new
  find-insert_new q p r rows h = elim (Bool-cases (any p rows)) [
    | inl e ↦ rw e h
    | inr e ↦ rw e (find-append q rows r h)
  ]

  pub find-update :
      (q p : R → Bool) (f : R → R) (rows : List R) {x : R}
      → ((r : R) → q (if p r then f r else r) ≡ q r)
      → find q rows ≡ some x
      → find q (update p f rows) ≡ some (if p x then f x else x)
  unfolding find update
  find-update q p f [] {x} same h = cc
  find-update q p f (y ∷ rows) {x} same h = elim (Bool-cases (q y)) [
    | inl e ↦ let h' : some y ≡ some x = rw e at h in rw (same y, e) (cc)
    | inr e ↦ rw (same y, e) (find-update q p f rows same (rw e at h))
  ]

module _ {A : Type 0} (P : Tables → Type 0) where
  pub transaction-post :
      (what : String) (f : Tables → Tables × Result A) (c : Connection) (t : Tables)
      → P t
      → ((t' : Tables) (a : A) → f t ≡ (t', ok a) → P t')
      → P (transaction what f c t).0
  unfolding transaction
  transaction-post what f refuses t here next = here
  transaction-post what f answers t here next = ended (f t) refl
    where
      ended : (x : Tables × Result A) → f t ≡ x → P (settled t x).0
      ended (t', ok a) e = next t' a e
      ended (t', err x) e = here
  transaction-post what f breaks t here next = ended (f t) refl
    where
      ended : (x : Tables × Result A) → f t ≡ x → P (settled t x).0
      ended (t', ok a) e = next t' a e
      ended (t', err x) e = here

  pub checked-post :
      (b : Bool) (what : String) (call : Call A) (c : Connection) (t : Tables)
      → P t
      → (b ≡ true → P (call c t).0)
      → P (checked b what call c t).0
  unfolding checked
  checked-post true what call c t here next = next refl
  checked-post false what call c t here next = here
