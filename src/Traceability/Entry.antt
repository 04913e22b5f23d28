-- ===== src/Traceability/Entry.antt =====
-- pkg/traceability/processor/definitions.go: an entry of Kong's HTTP log. A pointer is an `Option`; a
-- value of Go's `interface{}`, as JSON gives it, is of a type `Value` that is not looked into.
use agents_kong.Prelude.{String, Bool, Option, List}
use agents_kong.Prelude.Dict.{Dict}
use agents_kong.Prelude.Int.{ℤ}

pub record Latencies : Type 0 where
  pub request : ℤ
  pub kong : ℤ
  pub proxy : ℤ

pub record Tls : Type 0 where
  pub version : String
  pub cipher : String
  pub supported_client_ciphers : String
  pub client_verify : String

pub record Request (Value : Type 0) : Type 0 where
  pub query_string : Dict String
  pub size : ℤ
  pub uri : String
  pub url : String
  pub headers : Dict Value
  pub method : String
  pub tls : Option Tls

pub record Response (Value : Type 0) : Type 0 where
  pub headers : Dict Value
  pub status : ℤ
  pub size : ℤ

pub record Route : Type 0 where
  pub id : String
  pub updated_at : ℤ
  pub protocols : List String
  pub strip_path : Bool
  pub created_at : ℤ
  pub ws_id : String
  pub service : Dict String
  pub name : String
  pub hosts : List String
  pub preserve_host : Bool
  pub regex_priority : ℤ
  pub paths : List String
  pub response_buffering : Bool
  pub https_redirect_status_code : ℤ
  pub path_handling : String
  pub request_buffering : Bool

pub record Service : Type 0 where
  pub host : String
  pub created_at : ℤ
  pub connect_timeout : ℤ
  pub id : String
  pub protocol : String
  pub name : String
  pub read_timeout : ℤ
  pub port : ℤ
  pub path : String
  pub updated_at : ℤ
  pub write_timeout : ℤ
  pub retries : ℤ
  pub ws_id : String

pub record Consumer (Value : Type 0) : Type 0 where
  pub custom_id : String
  pub created_at : ℤ
  pub id : String
  pub tags : Option Value
  pub username : String

pub record TrafficLogEntry (Value : Type 0) : Type 0 where
  pub client_ip : String
  pub started_at : ℤ
  pub upstream_uri : String
  pub latencies : Option Latencies
  pub request : Option (Request Value)
  pub response : Option (Response Value)
  pub route : Option Route
  pub service : Option Service
  pub consumer : Option (Consumer Value)
  pub should_sample : Bool
