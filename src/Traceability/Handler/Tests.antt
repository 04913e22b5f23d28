-- ===== src/Traceability/Handler/Tests.antt =====
-- A batch of three entries, the second without a response.
use agents_kong.Prelude.{
  refl, length, String, ◌≡◌, ◌↔◌, ◌≤◌, ◌<◌, ◌⊎◌, true, false, none, some, List, [], ◌∷◌, ◌++◌,
}
use agents_kong.Prelude.Go.{ok, ret}
use agents_kong.Prelude.Int.{pos}
use agents_kong.Prelude.Exec.{pure, ◌>>=◌}
use agents_kong.Traceability.Entry.{TrafficLogEntry}
use agents_kong.Traceability.Sdk.{EventReport}
use agents_kong.Traceability.Status.{
  pass, fail, unknown, success, failure, exception, get_transaction_event_status,
  get_transaction_summary_status,
}
use agents_kong.Traceability.Status.Ranges.{statuses_agree_iff}
use agents_kong.Traceability.Transaction.{Entry, create_report}
use agents_kong.Traceability.Transaction.Legs.{create_report_legs}
use agents_kong.Traceability.Transaction.Report.{Returned}
use agents_kong.Traceability.Samples.{sdk, full}
use agents_kong.Traceability.Handler.{error_service, error_route, handle}
use agents_kong.Traceability.Handler.Batch.{handle-Returned}
use agents_kong.Traceability.Handler.Order.{handle-append, handle-usable}

abbrev partial : TrafficLogEntry String
partial = record full { response = none }

abbrev batch : List (Entry sdk)
batch = full ∷ partial ∷ full ∷ []

abbrev start : List String
start = []

handle-Returned_example : Returned (handle sdk batch start).0
handle-Returned_example = handle-Returned sdk batch start

handle-append_example :
    handle sdk (batch ++ batch) start
    ≡ (do earlier ← handle sdk batch; later ← handle sdk batch; pure (earlier ++ later)) start
handle-append_example = handle-append sdk batch batch start

handle-usable_example : handle sdk batch start ≡ handle sdk (full ∷ full ∷ []) start
handle-usable_example = handle-usable sdk batch start

statuses_agree_iff_example :
    ((get_transaction_summary_status (pos 503) ≡ success)
      ↔ (get_transaction_event_status (pos 503) ≡ pass) × (200 ≤ 503))
    × ((get_transaction_summary_status (pos 503) ≡ failure)
        ↔ (get_transaction_event_status (pos 503) ≡ fail) × (503 < 500))
    × ((get_transaction_summary_status (pos 503) ≡ exception)
        ↔ (get_transaction_event_status (pos 503) ≡ fail) × (500 ≤ 503) × (503 < 511))
    × ((get_transaction_summary_status (pos 503) ≡ unknown) ↔ (503 < 200) ⊎ (511 ≤ 503))
statuses_agree_iff_example = statuses_agree_iff 503

abbrev sampled : Entry sdk
sampled = record full {
  latencies = some (record { request = pos 3; kong = pos 1; proxy = pos 2 });
  service = some error_service;
  route = some error_route;
  should_sample = true;
}

abbrev report : EventReport String
report = record {
  summary = "id";
  legs = "/pets" ∷ [];
  event_time = pos 1;
  only_track_metrics = false;
}

reported : create_report sdk sampled "t" ≡ ret (ok report)
unfolding create_report
reported = refl

create_report_legs_example : (length report.legs ≡ 1) × (report.only_track_metrics ≡ false)
create_report_legs_example = create_report_legs sdk sampled "t" report reported
