-- ===== src/Delivery/Effects.antt =====
-- The effects of internal/delivery. Everything outside (clock, store, broker, destination, log) is a
-- world `W`, a parameter; a call takes the world to the next one. `none` is a computation that ran
-- out of fuel.
use postie.Prelude.{ℕ, String, Bool, ◌≡◌, refl, Option, none, some, if◌then◌else◌}

-- Go's `error`: the context's two errors, and any other with its text.
pub data Error : Type 0 where
  canceled deadline_exceeded : Error
  failed : String → Error

pub data Result {ℓ} (A : Type ℓ) : Type ℓ where
  ok : A → Result A
  err : Error → Result A

abbrev pub M : Type 0 → Type 0 → Type 0
M W A = W → Option (W × Result A)

-- `context.Context` and `time.NewTimer`. `wait` is the `select` on a timer and `ctx.Done()`: it says
-- whether the timer's arm was taken.
pub record Context (W : Type 0) : Type 0 where
  pub error : W → Option Error
  pub wait : ℕ → W → W × Bool

unfoldable pub ctx_sleep : {W : Type 0} → Context W → ℕ → W → W × Option Error
ctx_sleep c delay w =
    let (w', fired) = c.wait delay w in if fired then (w', none) else (w', c.error w')

abbrev pub bind_result {ℓ} :
    {W A : Type 0} {B : Type ℓ}
    → (A → W → Option (W × Result B))
    → Option (W × Result A)
    → Option (W × Result B)
bind_result f none = none
bind_result f (some (w, ok a)) = f a w
bind_result f (some (w, err e)) = some (w, err e)

infixl 5 ◌>>=◌ ◌>>◌
abbrev pub ◌>>=◌ : {W A B : Type 0} → M W A → (A → M W B) → M W B
◌>>=◌ m f w = bind_result f (m w)

abbrev pub ◌>>◌ : {W A B : Type 0} → M W A → M W B → M W B
◌>>◌ m k w = bind_result (λ _. k) (m w)

abbrev pub pure : {W A : Type 0} → A → M W A
pure a w = some (w, ok a)

-- Inversion of a bind that succeeds.
pub bind_result-ok :
    {W A B : Type 0} (f : A → M W B) (x : Option (W × Result A)) {w : W} {b : B}
    → bind_result f x ≡ some (w, ok b)
    → (w0 : W) × (a : A) × (x ≡ some (w0, ok a)) × (f a w0 ≡ some (w, ok b))
bind_result-ok f none h = cc
bind_result-ok f (some (w0, ok a)) h = (w0, a, refl, h)
bind_result-ok f (some (w0, err e)) h = cc

-- A postcondition of a bind, from one of each of its ends.
pub bind_result-post {ν} :
    {W A B : Type 0} (P : Option (W × Result B) → Type ν) (f : A → M W B)
    (x : Option (W × Result A))
    → ((w : W) (a : A) → x ≡ some (w, ok a) → P (f a w))
    → ((w : W) (e : Error) → x ≡ some (w, err e) → P (some (w, err e)))
    → (x ≡ none → P none)
    → P (bind_result f x)
bind_result-post P f none good bad out = out refl
bind_result-post P f (some (w, ok a)) good bad out = good w a refl
bind_result-post P f (some (w, err e)) good bad out = bad w e refl
