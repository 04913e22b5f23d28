-- ===== src/Subscription/Credential/ProvData/Tests.antt =====
-- The data of a request with origins and redirect URLs.
use agents_kong.Prelude.{◌≡◌, refl, some, [], ◌∷◌}
use agents_kong.Prelude.Dict.{Dict, lookup}
use agents_kong.Prelude.Go.{ret, panic}
use agents_kong.Subscription.Credential.Builder.{new_kong_credential_builder}
use agents_kong.Subscription.Credential.ProvData.{
  ProvValue, text, items, string, not_string, with_prov_data,
}

abbrev prov_data : Dict ProvValue
prov_data =
    ("redirectURLs", items (string "https://app/callback" ∷ []))
    ∷ ("cors", items (string "https://app" ∷ []))
    ∷ ("applicationType", text "public")
    ∷ []

-- the origins become the redirect URIs
origins :
    with_prov_data prov_data new_kong_credential_builder
    ≡ ret (record new_kong_credential_builder {
      redirect_uris = "https://app" ∷ [];
      client_type = some "public";
    })
unfolding with_prov_data lookup
origins = refl

-- an origin that is no string
no_origin :
    with_prov_data (("cors", items (not_string ∷ [])) ∷ []) new_kong_credential_builder ≡ panic
unfolding with_prov_data lookup
no_origin = refl
