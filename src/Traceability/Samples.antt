-- ===== src/Traceability/Samples.antt =====
-- A concrete SDK and a log entry for the tests.
use agents_kong.Prelude.{String, true, false, none, some, List, [], ◌∷◌}
use agents_kong.Prelude.Go.{ok, err}
use agents_kong.Prelude.Int.{pos}
use agents_kong.Traceability.Entry.{TrafficLogEntry, Request}
use agents_kong.Traceability.Sdk.{Sdk}

-- An SDK that samples every transaction and whose events are the identifiers of proxies.
abbrev pub sdk : Sdk
sdk = record {
  State = List String;
  Value = String;
  Protocol = String;
  LogEvent = String;
  Report = String;
  Event = String;
  sprint = λ v. v;
  itoa = λ n. "200";
  status_text = λ n. "OK";
  marshal = λ d. err "unsupported";
  new_uuid = λ s. ("u", "u" ∷ s);
  format_proxy_id = λ id. id;
  format_application_id = λ id. id;
  summary_status = λ n. "Success";
  should_sample = λ d s. (ok true, d.api_id ∷ s);
  build_protocol = λ p. ok p.uri;
  build_transaction = λ e. ok e.protocol_detail;
  build_summary = λ e. ok e.team;
  build_report = λ r. ok r.summary;
  create_from_event_report = λ r s. (ok (r ∷ []), s);
}

abbrev request : Request String
request = record {
  query_string = [];
  size = pos 10;
  uri = "/pets";
  url = "http://api/pets";
  headers = ("host", "api") ∷ [];
  method = "GET";
  tls = none;
}

abbrev pub full : TrafficLogEntry String
full = record {
  client_ip = "10.0.0.1";
  started_at = pos 1;
  upstream_uri = "/";
  latencies = none;
  request = some request;
  response = some (record { headers = []; status = pos 200; size = pos 5 });
  route = none;
  service = none;
  consumer = none;
  should_sample = false;
}
