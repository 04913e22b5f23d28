-- ===== src/Kong/Spec.antt =====
-- The specification of a service, in pkg/discovery/kong/kongclient.go: from a local file, from the
-- developer portal or from the service's backend. A nil slice of bytes is `none`.
pub mod Backend
mod Tests
use agents_kong.Prelude.{
  ℕ, String, Bool, true, false, not, nat_eq, Option, none, some, List, [], ◌∷◌, ◌==◌, is_empty,
  if◌then◌else◌,
}
use agents_kong.Prelude.Text.{◌<>◌, has_prefix, trim_prefix, trim_suffix}
use agents_kong.Prelude.Go.{Result, ok, err}
use agents_kong.Prelude.Exec.{Call, Exec, pure, call, load, ◌>>=◌}
use agents_kong.Common.{Context, context_workspace, default_workspace, get_string_value_from_ctx}
use agents_kong.Kong.Klib.{Service}
use agents_kong.Kong.Client.{KongClient}

abbrev pub tag_prefix : String
tag_prefix = "spec_local_"

abbrev pub unstructured_spec : String
unstructured_spec = "Unstructured API Example"

-- An answer to a request: its status and what reading its body gives.
pub record Response : Type 0 where
  pub status_code : ℕ
  pub body : Result String

-- The file system, net/http, encoding/json and the SDK's parser, over an unknown state. `parses` is
-- whether the parser takes a specification; `documents` reads the paths of the portal's documents.
pub record Outside : Type 1 where
  pub State : Type 0
  pub join : String → String → String
  pub is_not_exist : String → State → Bool × State
  pub read_file : String → Call State String
  pub new_request : String → Result String
  pub execute : String → Call State Response
  pub documents : String → Result (List String)
  pub contents : String → Result String
  pub parses : String → Bool

abbrev pub Spec : Type 0
Spec = Result (Option String)

module _ (outside : Outside) (k : KongClient) where
  -- the specification that a body holds: nil if the parser refuses it
  unfoldable pub parsed : String → Spec
  parsed content = if outside.parses content then ok (some content) else ok none

  unfoldable pub spec_of_body : Bool → Result String → Spec
  unfolding parsed
  spec_of_body from_dev_portal (err e) = err e
  spec_of_body false (ok bytes) = parsed bytes
  spec_of_body true (ok bytes) = elim (outside.contents bytes) [
    | err e ↦ err e
    | ok content ↦ parsed content
  ]

  unfoldable pub spec_of_answer : Bool → Result Response → Spec
  unfolding spec_of_body
  spec_of_answer from_dev_portal (err e) = err e
  spec_of_answer from_dev_portal (ok res) =
      if not (nat_eq res.status_code 200) then ok none else spec_of_body from_dev_portal res.body

  unfoldable pub send_spec : Bool → Result String → Exec outside.State Spec
  unfolding spec_of_answer
  send_spec from_dev_portal (err e) = pure (err e)
  send_spec from_dev_portal (ok request) = do
    answer ← call (outside.execute request)
    pure (spec_of_answer from_dev_portal answer)

  unfoldable pub get_spec : String → Bool → Exec outside.State Spec
  unfolding send_spec
  get_spec endpoint from_dev_portal = send_spec from_dev_portal (outside.new_request endpoint)

  abbrev pub backend_endpoint : String → String → String
  backend_endpoint backend_url spec_path =
      trim_suffix backend_url "/" <> ("/" <> trim_prefix spec_path "/")

  -- the rest of the loop is run only if the path has no specification
  abbrev pub or_next : Exec outside.State Spec → Spec → Exec outside.State Spec
  or_next rest (err e) = pure (err e)
  or_next rest (ok (some spec)) = pure (ok (some spec))
  or_next rest (ok none) = rest

  unfoldable pub backend_loop : String → List String → Exec outside.State Spec
  unfolding get_spec
  backend_loop backend_url [] = pure (ok none)
  backend_loop backend_url (spec_path ∷ rest) = do
    spec ← get_spec (backend_endpoint backend_url spec_path) false
    or_next (backend_loop backend_url rest) spec

  unfoldable pub get_spec_from_backend : String → Exec outside.State Spec
  unfolding backend_loop
  get_spec_from_backend backend_url =
      if is_empty k.spec_url_paths
      then pure (ok none)
      else backend_loop backend_url k.spec_url_paths

  unfoldable pub load_spec_file : String → Exec outside.State Spec
  load_spec_file path s =
      let (missing, s') = outside.is_not_exist path s in
      if missing
      then pure (ok none) s'
      else (do
        bytes ← call (outside.read_file path)
        pure (elim bytes [ err e ↦ err e | ok content ↦ ok (some content) ]))
          s'

  -- the first tag with the prefix, "" without one
  unfoldable pub spec_tag : List String → String
  spec_tag [] = ""
  spec_tag (tag ∷ tags) =
      let later = spec_tag tags in if has_prefix tag tag_prefix then tag else later

  unfoldable pub load_tagged : String → Exec outside.State Spec
  unfolding load_spec_file
  load_tagged tag =
      if tag == ""
      then pure (err "no specification tag found")
      else load_spec_file (outside.join k.spec_local_path (trim_prefix tag tag_prefix))

  unfoldable pub get_spec_from_local : Service → Exec outside.State Spec
  unfolding spec_tag load_tagged
  get_spec_from_local service = do name ← load service.name; load_tagged (spec_tag service.tags)

  abbrev pub portal_endpoint : String → String → String
  portal_endpoint workspace service_id =
      if not (workspace == "")
      then k.kong_admin_endpoint
        <> ("/" <> (workspace <> ("/services/" <> (service_id <> "/document_objects"))))
      else k.kong_admin_endpoint <> ("/services/" <> (service_id <> "/document_objects"))

  -- what follows the reading of the documents; of their paths the first counts
  unfoldable pub first_document : String → Result (List String) → Exec outside.State Spec
  unfolding get_spec
  first_document workspace (err e) = pure (err e)
  first_document workspace (ok []) = pure (ok none)
  first_document workspace (ok (path ∷ _)) =
      get_spec
        (k.kong_admin_endpoint
          <> ("/"
              <> ((if workspace == "" then default_workspace else workspace)
                  <> ("/files/" <> path))))
        true

  abbrev pub portal_documents : Result Response → Result (List String)
  portal_documents (err e) = err e
  portal_documents (ok res) = elim res.body [ err e ↦ err e | ok bytes ↦ outside.documents bytes ]

  unfoldable pub send_portal : String → Result String → Exec outside.State Spec
  unfolding first_document
  send_portal workspace (err e) = pure (err e)
  send_portal workspace (ok request) = do
    answer ← call (outside.execute request)
    first_document workspace (portal_documents answer)

  unfoldable pub get_spec_from_dev_portal : Context → String → Exec outside.State Spec
  unfolding send_portal
  get_spec_from_dev_portal ctx service_id =
      let workspace = get_string_value_from_ctx ctx context_workspace in
      send_portal workspace (outside.new_request (portal_endpoint workspace service_id))

  -- the specification, with whether it is the unstructured one
  abbrev pub structured : Spec → Spec × Bool
  structured spec = (spec, false)

  abbrev pub or_unstructured : Spec → Spec × Bool
  or_unstructured (ok none) =
      if k.create_unstructured_api then (ok (some unstructured_spec), true) else (ok none, false)
  or_unstructured spec = (spec, false)

  abbrev pub with_path : String → Option String → String
  with_path url none = url
  with_path url (some path) = url <> path

  -- the part for the backend; both pointers are followed unless both are nil
  unfoldable pub get_spec_from_url :
      Option String → Option String → Option String → Exec outside.State (Spec × Bool)
  unfolding get_spec_from_backend
  get_spec_from_url none none path = pure (err "fields for backend URL are not set", false)
  get_spec_from_url service_protocol service_host path = do
    protocol ← load service_protocol
    host ← load service_host
    spec ← get_spec_from_backend (with_path (protocol <> ("://" <> host)) path)
    pure (or_unstructured spec)

  -- what follows the reading of the service's name
  unfoldable pub spec_by_source : Context → Service → Exec outside.State (Spec × Bool)
  unfolding get_spec_from_local get_spec_from_dev_portal get_spec_from_url
  spec_by_source ctx service =
      if not (k.spec_local_path == "")
      then (do spec ← get_spec_from_local service; pure (structured spec))
      else if k.dev_portal_enabled
      then (do id ← load service.id; spec ← get_spec_from_dev_portal ctx id; pure (structured spec))
      else get_spec_from_url service.protocol service.host service.path

  unfoldable pub get_spec_for_service : Context → Service → Exec outside.State (Spec × Bool)
  unfolding spec_by_source
  get_spec_for_service ctx service = do name ← load service.name; spec_by_source ctx service
