-- ===== src/Traceability/Sdk.antt =====
-- What the processor uses of github.com/Axway/agent-sdk, of encoding/json, fmt and uuid: parameters,
-- over an unknown state. A builder is the record of what is set on it.
use agents_kong.Prelude.{String, Bool, Option, List}
use agents_kong.Prelude.Dict.{Dict}
use agents_kong.Prelude.Int.{ℤ}
use agents_kong.Prelude.Go.{Result}
use agents_kong.Prelude.Exec.{Call}
use agents_kong.Traceability.Status.{TxEventStatus, TxSummaryStatus}

-- sampling.TransactionDetails
pub record TransactionDetails : Type 0 where
  pub status : String
  pub api_id : String
  pub sub_id : String

-- transaction.NewHTTPProtocolBuilder
pub record HttpProtocol : Type 0 where
  pub uri : String
  pub method : String
  pub args : Dict (List String)
  pub status : ℤ
  pub status_text : String
  pub host : String
  pub request_headers : String
  pub response_headers : String
  pub request_length : ℤ
  pub response_length : ℤ
  pub local_address : String
  pub remote_port : ℤ
  pub ssl : String × String × String
  pub user_agent : String

-- transaction.NewTransactionEventBuilder, with the protocol detail that was built
pub record TransactionEvent (Protocol : Type 0) : Type 0 where
  pub timestamp : ℤ
  pub transaction_id : String
  pub id : String
  pub source : String
  pub destination : String
  pub duration : ℤ
  pub direction : String
  pub status : TxEventStatus
  pub protocol_detail : Protocol

-- transaction.NewTransactionSummaryBuilder; the last is the application's ID and name.
pub record SummaryEvent : Type 0 where
  pub timestamp : ℤ
  pub transaction_id : String
  pub status : TxSummaryStatus
  pub status_detail : String
  pub team : String
  pub entry_point : String × String × String × String
  pub duration : ℤ
  pub proxy : String × String × String
  pub application : Option (String × String)

-- transaction.NewEventReportBuilder, on which SetSkipSampleHandling is called too
pub record EventReport (LogEvent : Type 0) : Type 0 where
  pub summary : LogEvent
  pub legs : List LogEvent
  pub event_time : ℤ
  pub only_track_metrics : Bool

pub record Sdk : Type 1 where
  pub State : Type 0
  pub Value : Type 0
  pub Protocol : Type 0
  pub LogEvent : Type 0
  pub Report : Type 0
  pub Event : Type 0
  pub sprint : Value → String
  pub itoa : ℤ → String
  pub status_text : ℤ → String
  pub marshal : Dict String → Result String
  pub new_uuid : State → String × State
  pub format_proxy_id : String → String
  pub format_application_id : String → String
  pub summary_status : ℤ → String
  pub should_sample : TransactionDetails → Call State Bool
  pub build_protocol : HttpProtocol → Result Protocol
  pub build_transaction : TransactionEvent Protocol → Result LogEvent
  pub build_summary : SummaryEvent → Result LogEvent
  pub build_report : EventReport LogEvent → Result Report
  pub create_from_event_report : Report → Call State (List Event)
