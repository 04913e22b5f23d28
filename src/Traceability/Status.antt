-- ===== src/Traceability/Status.antt =====
-- pkg/traceability/processor/util.go: the status of a transaction, by the code of the response.
pub mod Ranges
use agents_kong.Prelude.{ℕ, Bool, false, leb, not, ◌&&◌, if◌then◌else◌}
use agents_kong.Prelude.Int.{ℤ, pos, negsuc}

pub data TxEventStatus : Type 0 where
  pass : TxEventStatus
  fail : TxEventStatus

pub data TxSummaryStatus : Type 0 where
  unknown : TxSummaryStatus
  success : TxSummaryStatus
  failure : TxSummaryStatus
  exception : TxSummaryStatus

-- `code >= n`
abbrev pub at_least : ℕ → ℤ → Bool
at_least n (pos c) = leb n c
at_least n (negsuc c) = false

unfoldable pub get_transaction_event_status : ℤ → TxEventStatus
get_transaction_event_status code = if at_least 400 code then fail else pass

-- 511 is http.StatusNetworkAuthenticationRequired.
unfoldable pub get_transaction_summary_status : ℤ → TxSummaryStatus
get_transaction_summary_status code =
    if at_least 200 code && not (at_least 400 code)
    then success
    else if at_least 400 code && not (at_least 500 code)
    then failure
    else if at_least 500 code && not (at_least 511 code)
    then exception
    else unknown
