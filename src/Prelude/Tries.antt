-- ===== src/Prelude/Tries.antt =====
-- A Go result with its error: `ok`, or `err` with the reason. For `do` blocks.
use mathlib.Core.Path.{◌≡◌, refl}
use mathlib.Core.Logic.{◌⊎◌, inl, inr}
use mathlib.Core.Bool.{Bool, true, false}
use mathlib.Core.Option.{Option, none, some}
use native.Mathlib.Omega.{arith}

pub data Try {ℓ κ} (E : Type ℓ) (A : Type κ) : Type (ℓ ⊔ κ) where
  ok : A → Try E A
  err : E → Try E A

infixl 5 ◌>>=◌ ◌>>◌
abbrev pub ◌>>=◌ {ℓ κ ι} :
    {E : Type ℓ} {A : Type κ} {B : Type ι} → Try E A → (A → Try E B) → Try E B
ok a >>= f = f a
err e >>= f = err e

abbrev pub ◌>>◌ {ℓ κ} : {E : Type ℓ} {B : Type κ} → Try E (Unit {0}) → Try E B → Try E B
m >> k = m >>= λ _. k

-- An early return with an error, where a test holds.
abbrev pub fail_if {ℓ} : {E : Type ℓ} → Bool → E → Try E (Unit {0})
fail_if true e = err e
fail_if false e = ok tt

abbrev pub or_fail {ℓ κ} : {E : Type ℓ} {A : Type κ} → Option A → E → Try E A
or_fail none e = err e
or_fail (some a) e = ok a

pub Try-cases {ℓ κ} :
    {E : Type ℓ} {A : Type κ} (m : Try E A) → ((a : A) × (m ≡ ok a)) ⊎ ((e : E) × (m ≡ err e))
Try-cases (ok a) = inl (a, refl)
Try-cases (err e) = inr (e, refl)

pub ok-injective {ℓ κ} :
    {E : Type ℓ} {A : Type κ} {a b : A} → ◌≡◌ {A = Try E A} (ok a) (ok b) → a ≡ b
ok-injective h = cc

-- Inversion of a chain that succeeds.
pub >>=-ok {ℓ κ ι} :
    {E : Type ℓ} {A : Type κ} {B : Type ι} (m : Try E A) (f : A → Try E B) {b : B}
    → (m >>= f) ≡ ok b
    → (a : A) × (m ≡ ok a) × (f a ≡ ok b)
>>=-ok (ok a) f h = (a, refl, h)
>>=-ok (err e) f h = cc

-- The same for a goal, so that a proof names the parts as variables.
pub >>=-elim {ℓ κ ι ν} :
    {E : Type ℓ} {A : Type κ} {B : Type ι} {P : Type ν} (m : Try E A) (f : A → Try E B) {b : B}
    → (m >>= f) ≡ ok b
    → ((a : A) → m ≡ ok a → f a ≡ ok b → P)
    → P
>>=-elim (ok a) f h k = k a refl h
>>=-elim (err e) f h k = absurd (cc)

pub fail_if-ok {ℓ} :
    {E : Type ℓ} (test : Bool) (e : E) {u : Unit {0}} → fail_if test e ≡ ok u → test ≡ false
fail_if-ok true e h = cc
fail_if-ok false e h = refl

pub or_fail-ok {ℓ κ} :
    {E : Type ℓ} {A : Type κ} (o : Option A) (e : E) {a : A} → or_fail o e ≡ ok a → o ≡ some a
or_fail-ok none e h = cc
or_fail-ok (some x) e h = ground arith
