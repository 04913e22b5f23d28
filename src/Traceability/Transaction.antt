-- ===== src/Traceability/Transaction.antt =====
-- pkg/traceability/processor/transaction.go, and what it uses of util.go: the events of one entry.
pub mod Report
pub mod Legs
use agents_kong.Prelude.{String, not, Option, none, some, List, [], ◌∷◌, map, if◌then◌else◌}
use agents_kong.Prelude.Dict.{Dict, lookup}
use agents_kong.Prelude.Go.{Result, ok, err, Ret, ret, deref, ◌>>=◌}
use agents_kong.Prelude.Exec.{Exec}
use agents_kong.Prelude.Exec
use agents_kong.Traceability.Entry.{TrafficLogEntry}
use agents_kong.Traceability.Status.{get_transaction_event_status, get_transaction_summary_status}
use agents_kong.Traceability.Sdk.{Sdk, HttpProtocol, TransactionEvent, EventReport}

abbrev pub host : String
host = "host"

abbrev pub user_agent : String
user_agent = "user-agent"

abbrev pub leg0 : String
leg0 = "leg0"

abbrev pub inbound : String
inbound = "inbound"

unfoldable pub process_query_args : Dict String → Dict (List String)
process_query_args = map (λ (key, value). (key, value ∷ []))

module _ (sdk : Sdk) where
  abbrev pub Entry : Type 0
  Entry = TrafficLogEntry sdk.Value

  -- The error of the JSON encoder is logged, and the text is then empty.
  unfoldable pub build_headers : Dict sdk.Value → String
  build_headers headers = elim (sdk.marshal (map (λ (key, val). (key, sdk.sprint val)) headers)) [
    | ok json ↦ json
    | err _ ↦ ""
  ]

  unfoldable pub build_ssl_info_if_available : Entry → Ret (String × String × String)
  build_ssl_info_if_available entry = do
    request ← deref entry.request
    ret (elim request.tls [
      | none ↦ ("", "", "")
      | some tls ↦ (tls.version, request.url, request.url)
    ])

  -- the value of a header as a text, "" without it
  unfoldable pub header : String → Dict sdk.Value → String
  header key headers = elim (lookup key headers) [ none ↦ "" | some value ↦ sdk.sprint value ]

  unfoldable pub http_protocol : Entry → Ret HttpProtocol
  unfolding process_query_args build_headers build_ssl_info_if_available header
  http_protocol entry = do
    request ← deref entry.request
    response ← deref entry.response
    service ← deref entry.service
    ssl ← build_ssl_info_if_available entry
    ret (record {
      uri = request.uri;
      method = request.method;
      args = process_query_args request.query_string;
      status = response.status;
      status_text = sdk.status_text response.status;
      host = header host request.headers;
      request_headers = build_headers request.headers;
      response_headers = build_headers response.headers;
      request_length = request.size;
      response_length = response.size;
      local_address = entry.client_ip;
      remote_port = service.port;
      ssl = ssl;
      user_agent = header user_agent request.headers;
    })

  -- the event that is built of a protocol detail
  unfoldable pub transaction_event :
      Entry → String → sdk.Protocol → Ret (TransactionEvent sdk.Protocol)
  unfolding header
  transaction_event entry txn_id protocol = do
    request ← deref entry.request
    response ← deref entry.response
    latencies ← deref entry.latencies
    ret (record {
      timestamp = entry.started_at;
      transaction_id = txn_id;
      id = leg0;
      source = entry.client_ip;
      destination = header host request.headers;
      duration = latencies.request;
      direction = inbound;
      status = get_transaction_event_status response.status;
      protocol_detail = protocol;
    })

  -- what follows the building of the protocol detail
  unfoldable pub with_protocol :
      Entry → String → Result sdk.Protocol → Ret (Result (Option sdk.LogEvent))
  unfolding transaction_event
  with_protocol entry txn_id (err e) = ret (err e)
  with_protocol entry txn_id (ok protocol) = do
    event ← transaction_event entry txn_id protocol
    ret (elim (sdk.build_transaction event) [ err e ↦ err e | ok leg ↦ ok (some leg) ])

  -- `none` is the nil event of an entry that is not sampled.
  unfoldable pub create_transaction_event : Entry → String → Ret (Result (Option sdk.LogEvent))
  unfolding http_protocol with_protocol
  create_transaction_event entry txn_id =
      if not entry.should_sample
      then ret (ok none)
      else do fields ← http_protocol entry; with_protocol entry txn_id (sdk.build_protocol fields)

  unfoldable pub create_summary_event : Entry → String → String → Ret (Result sdk.LogEvent)
  create_summary_event entry team_id txn_id = do
    response ← deref entry.response
    service ← deref entry.service
    request ← deref entry.request
    latencies ← deref entry.latencies
    route ← deref entry.route
    ret (
        sdk.build_summary (record {
          timestamp = entry.started_at;
          transaction_id = txn_id;
          status = get_transaction_summary_status response.status;
          status_detail = sdk.itoa response.status;
          team = team_id;
          entry_point = (service.protocol, request.method, request.uri, request.url);
          duration = latencies.request;
          proxy = (sdk.format_proxy_id service.id, service.name, route.id);
          application = elim entry.consumer [
            | none ↦ none
            | some consumer ↦ some (sdk.format_application_id consumer.id, consumer.username)
          ];
        }))

  -- the legs of the report: the event of the transaction, if there is one
  unfoldable pub legs : Option sdk.LogEvent → List sdk.LogEvent
  legs none = []
  legs (some event) = event ∷ []

  -- what follows the building of the summary
  unfoldable pub with_summary :
      Entry → Option sdk.LogEvent → Result sdk.LogEvent → Result (EventReport sdk.LogEvent)
  unfolding legs
  with_summary entry event (err e) = err e
  with_summary entry event (ok summary_event) = ok (record {
    summary = summary_event;
    legs = legs event;
    event_time = entry.started_at;
    only_track_metrics = not entry.should_sample;
  })

  -- what follows the building of the leg
  unfoldable pub with_leg :
      Entry → String → Result (Option sdk.LogEvent) → Ret (Result (EventReport sdk.LogEvent))
  unfolding create_summary_event with_summary
  with_leg entry txn_id (err e) = ret (err e)
  with_leg entry txn_id (ok event) = do
    summary ← create_summary_event entry "id" txn_id
    ret (with_summary entry event summary)

  -- The report of an entry, up to its building.
  unfoldable pub create_report : Entry → String → Ret (Result (EventReport sdk.LogEvent))
  unfolding create_transaction_event with_leg
  create_report entry txn_id = do
    leg ← create_transaction_event entry txn_id
    with_leg entry txn_id leg

  unfoldable pub send : Result sdk.Report → Exec sdk.State (Result (List sdk.Event))
  send (err e) = Exec.pure (err e)
  send (ok report) = Exec.call (sdk.create_from_event_report report)

  -- the rest of `process`
  unfoldable pub publish :
      Result (EventReport sdk.LogEvent) → Exec sdk.State (Result (List sdk.Event))
  unfolding send
  publish (err e) = Exec.pure (err e)
  publish (ok fields) = send (sdk.build_report fields)

  -- The event generator is always set.
  unfoldable pub process : Entry → Exec sdk.State (Result (List sdk.Event))
  unfolding create_report publish
  process entry s =
      let (txn_id, after) = sdk.new_uuid s in
      Exec.continue (create_report entry txn_id, after) publish
