-- ===== src/Traceability/Handler.antt =====
-- pkg/traceability/processor/handler.go and metrics.go: a batch of log entries.
pub mod Batch
pub mod Order
mod Tests
use agents_kong.Prelude.{
  Bool, false, not, ◌||◌, is_some, Option, none, some, List, [], ◌∷◌, ◌++◌, if◌then◌else◌,
}
use agents_kong.Prelude.Text.{◌<>◌}
use agents_kong.Prelude.Go.{Result, ok, err}
use agents_kong.Prelude.Int.{pos}
use agents_kong.Prelude.Exec.{Exec, pure, call, ◌>>=◌}
use agents_kong.Traceability.Entry.{Service, Route}
use agents_kong.Traceability.Sdk.{Sdk, TransactionDetails}
use agents_kong.Traceability.Transaction.{Entry, process}

abbrev pub error_service : Service
error_service = record {
  host = "";
  created_at = pos 0;
  connect_timeout = pos 0;
  id = "ErrorServiceID";
  protocol = "";
  name = "ErrorService";
  read_timeout = pos 0;
  port = pos 0;
  path = "";
  updated_at = pos 0;
  write_timeout = pos 0;
  retries = pos 0;
  ws_id = "";
}

abbrev pub error_route : Route
error_route = record {
  id = "ErrorRouteID";
  updated_at = pos 0;
  protocols = [];
  strip_path = false;
  created_at = pos 0;
  ws_id = "";
  service = [];
  name = "ErrorRoute";
  hosts = [];
  preserve_host = false;
  regex_priority = pos 0;
  paths = [];
  response_buffering = false;
  https_redirect_status_code = pos 0;
  path_handling = "";
  request_buffering = false;
}

-- `p` unless it is nil
abbrev pub or_else {ℓ} : {A : Type ℓ} → Option A → A → A
or_else none a = a
or_else (some b) a = b

module _ (sdk : Sdk) where
  unfoldable pub validate_transaction : Entry sdk → Entry sdk
  validate_transaction entry = record entry {
    service = some (or_else entry.service error_service);
    route = some (or_else entry.route error_route);
    latencies =
        some (or_else entry.latencies (record { request = pos 0; kong = pos 0; proxy = pos 0 }));
  }

  unfoldable pub transaction_details : Entry sdk → TransactionDetails
  transaction_details entry = record {
    status = elim entry.response [ none ↦ "" | some r ↦ sdk.summary_status r.status ];
    api_id = elim entry.service [
      | none ↦ ""
      | some service ↦ elim entry.route [
        | none ↦ service.id
        | some route ↦ service.id <> ("-" <> route.id)
      ]
    ];
    sub_id = elim entry.consumer [ none ↦ "" | some c ↦ c.id ];
  }

  abbrev pub with_sample : Entry sdk → Result Bool → Result (Entry sdk)
  with_sample entry (err e) = err e
  with_sample entry (ok sample) = ok (record entry { should_sample = sample })

  unfoldable pub metrics_process : Entry sdk → Exec sdk.State (Result (Entry sdk))
  unfolding transaction_details
  metrics_process entry = do
    sampled ← call (sdk.should_sample (transaction_details entry))
    pure (with_sample entry sampled)

  -- An error is logged, and there are no events.
  unfoldable pub handle_transaction : Entry sdk → Exec sdk.State (List sdk.Event)
  unfolding process
  handle_transaction entry = do
    events ← process sdk entry
    pure (elim events [ err _ ↦ [] | ok new_events ↦ new_events ])

  -- what Handle does with the answer of the metrics: an error skips the entry
  unfoldable pub handle_measured : Result (Entry sdk) → Exec sdk.State (List sdk.Event)
  unfolding handle_transaction
  handle_measured (err e) = pure []
  handle_measured (ok updated) = handle_transaction updated

  -- the entries without request or response
  abbrev pub is_skipped : Entry sdk → Bool
  is_skipped entry = not (is_some entry.request) || not (is_some entry.response)

  -- the body of Handle's loop: the events that it appends, none where it continues
  unfoldable pub handle_entry : Entry sdk → Exec sdk.State (List sdk.Event)
  unfolding validate_transaction metrics_process handle_measured
  handle_entry entry =
      if is_skipped entry
      then pure []
      else do measured ← metrics_process (validate_transaction entry); handle_measured measured

  unfoldable pub handle_loop : List (Entry sdk) → List sdk.Event → Exec sdk.State (List sdk.Event)
  unfolding handle_entry
  handle_loop [] events = pure events
  handle_loop (entry ∷ rest) events = do
    new_events ← handle_entry entry
    handle_loop rest (events ++ new_events)

  unfoldable pub handle : List (Entry sdk) → Exec sdk.State (List sdk.Event)
  unfolding handle_loop
  handle entries = handle_loop entries []
