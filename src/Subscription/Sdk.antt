-- ===== src/Subscription/Sdk.antt =====
-- What the provisioners use of github.com/Axway/agent-sdk: its constants, which are parameters, and
-- the request status, as the calls that are made on its builder.
use agents_kong.Prelude.{String, Bool, true, false, List, []}

-- The names of package provisioning. Two cases of one Go switch are distinct, so these are.
pub record Names : Type 0 where
  pub api_key_crd : String
  pub api_key_ard : String
  pub basic_auth_crd : String
  pub basic_auth_ard : String
  pub oauth_secret_crd : String
  pub daily : String
  pub weekly : String
  pub monthly : String
  pub annually : String

pub record RequestStatus : Type 0 where
  pub success : Bool
  pub message : String
  pub properties : List (String × String)

-- rs.SetMessage(message).Failed()
abbrev pub failed : String → RequestStatus
failed message = record { success = false; message = message; properties = [] }

-- rs.Success()
abbrev pub succeeded : RequestStatus
succeeded = record { success = true; message = ""; properties = [] }

-- rs.SetMessage(message).Success()
abbrev pub succeeded_with : String → RequestStatus
succeeded_with message = record { success = true; message = message; properties = [] }
