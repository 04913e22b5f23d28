-- ===== src/Traceability/Status/Ranges.antt =====
-- The two statuses of one response, by its code.
use agents_kong.Prelude.{ℕ, ◌≤◌, ◌<◌, ◌⊎◌, inl, inr, Bool-cases, ◌≡◌, ◌↔◌, leb, arith}
use agents_kong.Prelude.Int.{pos}
use agents_kong.Traceability.Status.{
  pass, fail, unknown, success, failure, exception, get_transaction_event_status,
  get_transaction_summary_status,
}

-- The summary of a code that is not negative is a success exactly where the event passed and the code
-- is at least 200, a failure exactly where the event failed below 500, and an exception exactly where
-- it failed from 500 to 510; the status is unknown exactly below 200 and from 511 on.
pub statuses_agree_iff :
    (n : ℕ)
    → ((get_transaction_summary_status (pos n) ≡ success)
        ↔ (get_transaction_event_status (pos n) ≡ pass) × (200 ≤ n))
      × ((get_transaction_summary_status (pos n) ≡ failure)
          ↔ (get_transaction_event_status (pos n) ≡ fail) × (n < 500))
      × ((get_transaction_summary_status (pos n) ≡ exception)
          ↔ (get_transaction_event_status (pos n) ≡ fail) × (500 ≤ n) × (n < 511))
      × ((get_transaction_summary_status (pos n) ≡ unknown) ↔ (n < 200) ⊎ (511 ≤ n))
unfolding get_transaction_summary_status get_transaction_event_status
statuses_agree_iff n = (
  (λ e. (ground arith, ground arith), λ (f, h). ground arith),
  (λ e. (ground arith, ground arith), λ (f, h). ground arith),
  (λ e. (ground arith, ground arith, ground arith), λ (f, h, k). ground arith),
  (
    λ e. elim (Bool-cases (leb 200 n)) [ inl y ↦ inr (ground arith) | inr y ↦ inl (ground arith) ],
    λ h. elim h [ inl y ↦ ground arith | inr y ↦ ground arith ],
  ),
)
