-- ===== src/Subscription/Credential/Tests.antt =====
-- Concrete credential definitions and requests.
use agents_kong.Prelude.{String, ◌≡◌, ◌≢◌, ◌↔◌, refl, false, none, List, [], ◌∷◌, arith, eq_iff}
use agents_kong.Prelude.Text.{contains, has_prefix, cut_prefix, trim_suffix, cut_suffix}
use agents_kong.Prelude.Go.{ok, ret}
use agents_kong.Common.{wks_prefix_name}
use agents_kong.Subscription.Samples.{sample_names}
use agents_kong.Subscription.Credential.{
  CredentialClient, CredRequest, parse_workspace, parse_credential_type,
}
use agents_kong.Subscription.Credential.Parsing.{
  parse_credential_type_oauth_iff, parse_credential_type_api_key,
}
use agents_kong.Subscription.Credential.Update.{update}
use agents_kong.Subscription.Credential.Renewal.{update_any_workspace}

-- A client that keeps the calls that it answers.
abbrev client : CredentialClient (List String)
client = record {
  delete_oauth2 = λ ctx c id s. (ret none, "delete oauth2" ∷ s);
  delete_http_basic = λ ctx c id s. (ret none, "delete basic" ∷ s);
  delete_auth_key = λ ctx c id s. (ret none, "delete key" ∷ s);
  create_http_basic = λ ctx c b s. (ret (ok b), "create basic" ∷ s);
  create_oauth2 = λ ctx c o s. (ret (ok o), "create oauth2" ∷ s);
  create_auth_key = λ ctx c k s. (ret (ok k), "create key" ∷ s);
  new_uuid = λ s. (ret "uuid", s);
}

abbrev request : CredRequest
request = record {
  application_details_value = λ name. "c1";
  credential_details_value = λ name. "id";
  credential_type = "team-http-basic";
}

abbrev start : List String
start = []

team_named : (parse_credential_type sample_names "team-http-basic").0 ≢ ""
unfolding parse_credential_type parse_workspace contains has_prefix cut_prefix trim_suffix
    cut_suffix
team_named e = ground (arith, eq_iff "team" "")

sales_named : (parse_credential_type sample_names "sales-http-basic").0 ≢ ""
unfolding parse_credential_type parse_workspace contains has_prefix cut_prefix trim_suffix
    cut_suffix
sales_named e = ground (arith, eq_iff "sales" "")

same_type :
    (parse_credential_type sample_names "team-http-basic").1
    ≡ (parse_credential_type sample_names "sales-http-basic").1
unfolding parse_credential_type contains has_prefix cut_prefix
same_type = refl

update_any_workspace_example :
    (update sample_names client request start).1
    ≡ (update sample_names client (record request { credential_type = "sales-http-basic" }) start).1
update_any_workspace_example =
    update_any_workspace sample_names client request "sales-http-basic" start team_named sales_named
      same_type

api_differs : ◌≢◌ {A = String} "api-key" "oauth-secret"
api_differs e = ground (arith, eq_iff "api-key" "oauth-secret")

basic_differs : ◌≢◌ {A = String} "http-basic" "oauth-secret"
basic_differs e = ground (arith, eq_iff "http-basic" "oauth-secret")

parse_credential_type_oauth_iff_example :
    (parse_credential_type sample_names (wks_prefix_name "team" "oauth-secret")
      ≡ ("team", "oauth-secret"))
    ↔ (contains (wks_prefix_name "team" "oauth-secret") "api-key" ≡ false)
      × (contains (wks_prefix_name "team" "oauth-secret") "http-basic" ≡ false)
parse_credential_type_oauth_iff_example =
    parse_credential_type_oauth_iff sample_names "team" api_differs basic_differs

parse_credential_type_api_key_example :
    parse_credential_type sample_names (wks_prefix_name "team" "api-key") ≡ ("team", "api-key")
parse_credential_type_api_key_example = parse_credential_type_api_key sample_names "team"
