-- ===== src/Traceability/Beater/Health.antt =====
-- The wait of New for the health checks.
use native.Mathlib.Decide.{dec_lt}
use agents_kong.Prelude.{
  ℕ, zero, suc, ◌+◌, ◌≤◌, ◌<◌, ◌≡◌, refl, Bool, true, false, some, arith, inl, inr, Bool-cases,
}
use agents_kong.Traceability.Beater.{health_loop}

-- The check that is OK comes after one that is not.
past :
    (check : ℕ → Bool) (attempt k : ℕ)
    → attempt ≤ k
    → check attempt ≡ false
    → check k ≡ true
    → suc attempt ≤ k
past check attempt k from_k fails h = elim (dec_lt attempt k) [
  | yes below ↦ omega (arith, below)
  | no last ↦
      let same : attempt ≡ k = omega (arith, last, from_k) in
      let passes : check attempt ≡ true = rw same h in cc
]

fails_before :
    (check : ℕ → Bool) (attempt n : ℕ)
    → check attempt ≡ false
    → ((i : ℕ) → suc attempt ≤ i → i < n → check i ≡ false)
    → (i : ℕ) → attempt ≤ i
    → i < n
    → check i ≡ false
fails_before check attempt n fails before i low high = elim (dec_lt attempt i) [
  | yes above ↦ before i (omega (arith, above)) high
  | no first ↦ let same : i ≡ attempt = omega (arith, first, low) in rw same fails
]

-- Where some check is OK, New returns, and with the first check that is. The fuel covers the checks
-- up to the one that is given.
pub health_loop_returns :
    (check : ℕ → Bool) (fuel attempt k : ℕ)
    → attempt ≤ k
    → k < attempt + fuel
    → check k ≡ true
    → (n : ℕ) × (health_loop check fuel attempt ≡ some n)
      × (check n ≡ true)
      × (n ≤ k)
      × ((i : ℕ) → attempt ≤ i → i < n → check i ≡ false)
unfolding health_loop
health_loop_returns check zero attempt k from_k within h = absurd (omega arith)
health_loop_returns check (suc fuel) attempt k from_k within h = elim (Bool-cases (check attempt)) [
  | inl passes ↦
      rw passes (attempt, refl, passes, from_k, λ i low high. absurd (omega (arith, low, high)))
  | inr fails ↦
      let later : suc attempt ≤ k = past check attempt k from_k fails h in
      let (n, found, passes, bound, before) =
        health_loop_returns check fuel (suc attempt) k later (omega (arith, within)) h in
      rw fails (n, found, passes, bound, fails_before check attempt n fails before)
]
