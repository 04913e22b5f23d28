-- ===== src/Traceability/Beater/Counts.antt =====
-- Counting the data of the goroutines.
use agents_kong.Prelude.{ℕ, zero, suc, String, ◌≡◌, refl, Option, none, some, List, [], ◌∷◌, arith}
use agents_kong.Traceability.Beater.{pull}
use agents_kong.Prelude.Counts.{count}

abbrev pub Holds : {A : Type 0} → (A → Type 0) → Option A → Type 0
Holds P none = Unit
Holds P (some a) = P a

-- The list has what was taken out of it and the others.
abbrev pub IsSplit : List String → String × List String → Type 0
IsSplit jobs (x, others) = (d : String) → count d jobs ≡ count d (x ∷ others)

put_back :
    (x : String) (xs : List String) (pulled : Option (String × List String))
    → Holds (IsSplit xs) pulled
    → Holds (IsSplit (x ∷ xs)) (elim pulled [ none ↦ none | some r ↦ some (r.0, x ∷ r.1) ])
unfolding count
put_back x xs none h = tt
put_back x xs (some (y, others)) h = λ d. omega (arith, h d)

pub pull-IsSplit : (n : ℕ) (jobs : List String) → Holds (IsSplit jobs) (pull n jobs)
unfolding pull
pull-IsSplit n [] = tt
pull-IsSplit zero (x ∷ xs) = λ d. refl
pull-IsSplit (suc n) (x ∷ xs) = put_back x xs (pull n xs) (pull-IsSplit n xs)
