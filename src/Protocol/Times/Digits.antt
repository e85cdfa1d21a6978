-- ===== src/Protocol/Times/Digits.antt =====
-- The numbers in the text of an instant (`formatTimestamp` of internal/protocol/payload.go), read
-- back.
use Prim.Native.String.append
use Prim.Native.Char.{code}
use postie.Prelude.{
  ℕ, zero, suc, ◌+◌, ◌*◌, ◌/◌, ◌%◌, ◌≤◌, ◌<◌, ◌≡◌, ◌≢◌, ◌∙◌, refl, sym, ap, ◌⊎◌, inl, inr, String,
  [], ◌∷◌, ◌++◌, Bytes, All, arith, Bool-cases, eqb, eqb_iff, length, length-append,
}
use postie.Encoding.{codes}
use mathlib.Core.Path.{subst}
use postie.Protocol.Decimal.Exactness.{IsDigit, numeral, numeral-append, ten}
use postie.Protocol.Times.{◌<>◌, digit, padded, fraction}

-- Digits of this count that read as `n`.
pub record Reads (count n : ℕ) (s : Bytes) : Type 0 where
  pub width : length s ≡ count
  pub digits : All IsDigit s
  pub value : numeral 0 s ≡ n

pub codes-append : (a b : String) → codes (a <> b) ≡ codes a ++ codes b
codes-append (String.[]) b = ap codes (λ i. append.nil b i)
codes-append (String.◌∷◌ c a) b =
    ap codes (λ i. append.cons c a b i) ∙ ap (λ s. code c ∷ s) (codes-append a b)

codes-digit : (d : ℕ) → d < 10 → codes (digit d) ≡ (b'0' + d) ∷ []
unfolding digit
codes-digit zero h = refl
codes-digit (suc zero) h = refl
codes-digit (suc (suc zero)) h = refl
codes-digit (suc (suc (suc zero))) h = refl
codes-digit (suc (suc (suc (suc zero)))) h = refl
codes-digit (suc (suc (suc (suc (suc zero))))) h = refl
codes-digit (suc (suc (suc (suc (suc (suc zero)))))) h = refl
codes-digit (suc (suc (suc (suc (suc (suc (suc zero))))))) h = refl
codes-digit (suc (suc (suc (suc (suc (suc (suc (suc zero)))))))) h = refl
codes-digit (suc (suc (suc (suc (suc (suc (suc (suc (suc zero))))))))) h = refl
codes-digit (suc (suc (suc (suc (suc (suc (suc (suc (suc (suc d)))))))))) h = absurd (omega arith)

-- One digit more.
Reads-snoc :
    (w n d : ℕ) (s : Bytes)
    → d < 10
    → Reads w n s
    → Reads (suc w) (n * 10 + d) (s ++ (b'0' + d) ∷ [])
Reads-snoc w n d s h r = record {
  width = length-append s ((b'0' + d) ∷ []) ∙ omega (arith, r.width);
  digits = All-snoc s (b'0' + d) r.digits (omega arith, omega arith);
  value = numeral-append s ((b'0' + d) ∷ []) 0 ∙ omega (arith, r.value);
}
  where
    All-snoc : (s : Bytes) (c : ℕ) → All IsDigit s → IsDigit c → All IsDigit (s ++ c ∷ [])
    All-snoc [] c h k = (k, tt)
    All-snoc (x ∷ s) c (h, hs) k = (h, All-snoc s c hs k)

pub padded-Reads : (w n : ℕ) → n < ten w → Reads w n (codes (padded w n))
unfolding padded
padded-Reads zero n h = record { width = refl; digits = tt; value = omega arith }
padded-Reads (suc w) n h =
    let last : n % 10 < 10 = omega arith in
    let same : codes (padded (suc w) n) ≡ codes (padded w (n / 10)) ++ (b'0' + n % 10) ∷ [] =
      codes-append (padded w (n / 10)) (digit (n % 10))
      ∙ ap (λ s. codes (padded w (n / 10)) ++ s) (codes-digit (n % 10) last) in
    subst (Reads (suc w) n) (sym same) (
      subst (λ k. Reads (suc w) k (codes (padded w (n / 10)) ++ (b'0' + n % 10) ∷ [])) (omega arith)
        (Reads-snoc w (n / 10) (n % 10) (codes (padded w (n / 10))) last
          (padded-Reads w (n / 10) (omega arith))))

-- Digits behind the point, the last of them not 0: with `missing` zeros more they read as `n`.
pub record Trims (w n : ℕ) (s : Bytes) : Type 0 where
  pub missing : ℕ
  pub value : ℕ
  pub count : ℕ
  pub some_digit : 1 ≤ count
  pub width : count + missing ≡ w
  pub reads : Reads count value s
  pub last : value % 10 ≢ 0
  pub exact : value * ten missing ≡ n

pub fraction-Trims :
    (w n : ℕ) → n < ten w → (n ≡ 0) × (codes (fraction w n) ≡ []) ⊎ Trims w n (codes (fraction w n))
unfolding fraction
fraction-Trims zero n h = inl (omega arith, refl)
fraction-Trims (suc w) n h = elim (Bool-cases (eqb (n % 10) 0)) [
  | inl z ↦
      let ends : n % 10 ≡ 0 = (eqb_iff (n % 10) 0).0 z in
      rw (z, fraction)
        (elim (fraction-Trims w (n / 10) (omega arith)) [
          | inl (e, empty) ↦ inl (omega arith, empty)
          | inr t ↦ inr (record {
            missing = suc t.missing;
            value = t.value;
            count = t.count;
            some_digit = t.some_digit;
            width = omega (arith, t.width);
            reads = t.reads;
            last = t.last;
            exact = grind (arith, t.exact, ends);
          })
        ])
  | inr nz ↦
      rw (nz, fraction)
        (inr (record {
          missing = 0;
          value = n;
          count = suc w;
          some_digit = omega arith;
          width = omega arith;
          reads = padded-Reads (suc w) n h;
          last = λ e. absurd (ground (arith, eqb_iff (n % 10) 0));
          exact = omega arith;
        }))
]
