-- ===== src/Agent/Sdk.antt =====
-- What discovery uses of the SDK and of Go: packages apic and cache, net/url's printing of an
-- address, fmt's printing of a value and SHA-256. A builder of the SDK is the record of what is set
-- on it; slices of bytes are texts.
use agents_kong.Prelude.{String, Bool, Option, List}
use agents_kong.Prelude.Dict.{Dict}
use agents_kong.Prelude.Int.{ℤ}
use agents_kong.Prelude.Go.{Result}
use agents_kong.Agent.Route.{EndpointDefinition}

-- pkg/discovery/agent/definitions.go. `agent_details` and `tags` are nil until they are set, and so
-- is `crds`: the three are read alike whether nil or empty.
pub record KongApi : Type 0 where
  pub spec : String
  pub id : String
  pub name : String
  pub description : String
  pub version : String
  pub url : String
  pub documentation : String
  pub resource_type : String
  pub endpoints : List EndpointDefinition
  pub image : String
  pub image_content_type : String
  pub crds : List String
  pub api_update_severity : String
  pub agent_details : Dict String
  pub tags : List String
  pub stage : String
  pub stage_name : String
  pub ard : String

pub data KeyLocation : Type 0 where
  query_param : KeyLocation
  header : KeyLocation

-- One flow of the OAuth scheme: its scopes and the addresses that are set on it.
pub data OAuthFlow : Type 0 where
  implicit : Dict String → String → OAuthFlow
  authorization_code : Dict String → String → String → OAuthFlow
  client_credentials : Dict String → String → OAuthFlow
  password : Dict String → String → OAuthFlow

-- What GetSecurityBuilder builds.
pub data SecurityScheme : Type 0 where
  http_basic : SecurityScheme
  api_key : String → KeyLocation → SecurityScheme
  oauth : List OAuthFlow → SecurityScheme

-- The last calls on the builder of a service body: how access is asked for.
pub data AccessMode : Type 0 where
  request_definitions : String → List String → AccessMode
  auth_policy : String → AccessMode

-- What is set on apic.NewServiceBodyBuilder().
pub record ServiceBodyBuilder : Type 0 where
  pub api_name : String
  pub api_spec : String
  pub api_update_severity : String
  pub description : String
  pub documentation : String
  pub id : String
  pub image : String
  pub image_content_type : String
  pub resource_type : String
  pub service_agent_details : Dict String
  pub service_attribute : Dict String
  pub stage : String
  pub stage_display_name : String
  pub stage_descriptor : String
  pub state : String
  pub status : String
  pub tags : Dict Bool
  pub title : String
  pub url : String
  pub version : String
  pub service_endpoints : List EndpointDefinition
  pub source_dataplane_type : String
  pub access : AccessMode

-- `new_spec_processor` is NewSpecResourceParser, Parse and GetSpecProcessor: the error of Parse, or
-- the processor, which may be nil. `is_oas` tests a processor for the methods of OasSpecProcessor.
pub record Platform : Type 1 where
  pub SpecProcessor : Type 0
  pub ServiceBody : Type 0
  pub unstructured : String
  pub oas2 : String
  pub oas3 : String
  pub published_status : String
  pub passthrough : String
  pub kong : String
  pub new_spec_processor : String → String → Result (Option SpecProcessor)
  pub get_resource_type : SpecProcessor → String
  pub get_description : SpecProcessor → String
  pub get_version : SpecProcessor → String
  pub get_spec_bytes : SpecProcessor → String
  pub is_oas : SpecProcessor → Bool
  pub strip_spec_auth : SpecProcessor → SpecProcessor
  pub add_security_schemes : SecurityScheme → SpecProcessor → SpecProcessor
  pub build : ServiceBodyBuilder → Result ServiceBody
  pub url_string : String → String → String → String
  pub itoa : ℤ → String
  pub sprint : KongApi → String
  pub sha256 : String → String
