-- ===== src/Subscription/Credential/Renewal.antt =====
-- What Update changes in the gateway.
use agents_kong.Prelude.{
  String, ◌≡◌, ◌≢◌, refl, ap, sym, ◌∙◌, arith, eq_iff, Bool, true, false, Option, none, some, ◌==◌,
  if◌then◌else◌,
}
use agents_kong.Prelude.Go.{Result, ok, err, Ret, ret, panic, deref}
use agents_kong.Prelude.Exec.{Exec, continue}
use agents_kong.Common.{background, attr_app_id, attr_credential_id, attr_cred_updater}
use agents_kong.Subscription.Credential.Builder.{
  with_name, with_auth_key, with_username, with_password, with_client_id, with_client_secret,
  to_oauth2, to_basic_auth, to_key_auth,
}
use agents_kong.Subscription.Sdk.{Names, RequestStatus}
use agents_kong.Kong.Klib.{BasicAuth}
use agents_kong.Subscription.Credential.{CredentialClient, CredRequest, parse_credential_type}
use agents_kong.Subscription.Credential.Provision.{
  Answer, refused, tagged, key_answer, basic_properties, oauth2_answer,
}
use agents_kong.Subscription.Credential.Update.{
  renew_key, updated_answer, updated_basic, renew_basic, renew_oauth2, update_typed, update,
}

continue_state :
    {S A B : Type 0} (out : Ret A × S) (f g : A → Exec S B)
    → ((a : A) (s : S) → (f a s).1 ≡ (g a s).1)
    → (continue out f).1 ≡ (continue out g).1
continue_state (ret a, s) f g h = h a s
continue_state (panic, s) f g h = refl

if_state :
    {S A : Type 0} (b : Bool) (m n m' n' : Exec S A) (s : S)
    → (m s).1 ≡ (m' s).1
    → (n s).1 ≡ (n' s).1
    → ((if b then m else n) s).1 ≡ ((if b then m' else n') s).1
if_state true m n m' n' s e h = e
if_state false m n m' n' s e h = h

pure_lem :
    {S A B : Type 0} (m : Ret A) (f : A → Exec S B) (s : S)
    → ((a : A) (s : S) → (f a s).1 ≡ s)
    → (continue (m, s) f).1 ≡ s
pure_lem (ret a) f s h = h a s
pure_lem panic f s h = refl

continue_pure :
    {S A B : Type 0} (out : Ret A × S) (f : A → Exec S B) (s : S)
    → out.1 ≡ s
    → ((a : A) (s : S) → (f a s).1 ≡ s)
    → (continue out f).1 ≡ s
continue_pure (ret a, s') f s e h = h a s' ∙ e
continue_pure (panic, s') f s e h = e

if_at :
    {S A : Type 0} (b : Bool) (m n : Exec S A) (s : S)
    → (if b then m else n) s ≡ (if b then m s else n s)
if_at true m n s = refl
if_at false m n s = refl

is_named : (x : String) → x ≢ "" → x == "" ≡ false
is_named x h = ground (arith, eq_iff x "")

module _ (names : Names) {S : Type 0} (client : CredentialClient S) where
  key_state :
      (w v : String) (r : Result _) (s : S)
      → (key_answer names client w r s).1 ≡ (key_answer names client v r s).1
  unfolding key_answer
  key_state w v (err e) s = refl
  key_state w v (ok resp) s =
      continue_state (deref resp.consumer, s) _ _
        (λ consumer s.
          continue_state (deref consumer.id, s) _ _
            (λ consumer_id s.
              continue_state (deref resp.id, s) _ _
                (λ id s. continue_state (deref resp.key, s) _ _ (λ key s. refl))))

  oauth2_state :
      (w v : String) (r : Result _) (s : S)
      → (oauth2_answer names client w r s).1 ≡ (oauth2_answer names client v r s).1
  unfolding oauth2_answer
  oauth2_state w v (err e) s = refl
  oauth2_state w v (ok resp) s =
      continue_state (deref resp.consumer, s) _ _
        (λ consumer s.
          continue_state (deref consumer.id, s) _ _
            (λ consumer_id s.
              continue_state (deref resp.id, s) _ _
                (λ id s.
                  continue_state (deref resp.client_id, s) _ _
                    (λ client_id s.
                      continue_state (deref resp.client_secret, s) _ _ (λ secret s. refl)))))

  -- No pointer is followed to change the state.
  properties_pure :
      (w : String) (resp : BasicAuth) (s : S) → (basic_properties names client w resp s).1 ≡ s
  unfolding basic_properties
  properties_pure w resp s = pure_lem (deref resp.consumer) _ s (λ consumer s.
      pure_lem (deref consumer.id) _ s (λ consumer_id s.
        pure_lem (deref resp.id) _ s
          (λ id s. pure_lem (deref resp.username) _ s (λ username s. refl))))

  answer_state :
      (resp : BasicAuth) (status : RequestStatus) (s : S)
      → (updated_answer names client resp status s).1 ≡ s
  unfolding updated_answer
  answer_state resp status s =
      pure_lem (deref resp.username) _ s
        (λ username s. pure_lem (deref resp.password) _ s (λ password s. refl))

  basic_state :
      (w : String) (r : Result BasicAuth) (s : S) → (updated_basic names client w r s).1 ≡ s
  unfolding updated_basic
  basic_state w (err e) s = refl
  basic_state w (ok resp) s =
      continue_pure (basic_properties names client w resp s) _ s (properties_pure w resp s)
        (λ status s. answer_state resp status s)

  renew_key_state :
      (w v c i : String) (d : Option String) (s : S)
      → (renew_key names client w c i d s).1 ≡ (renew_key names client v c i d s).1
  unfolding renew_key
  renew_key_state w v c i (some e) s = refl
  renew_key_state w v c i none s =
      continue_state (with_auth_key client.new_uuid "" tagged s) _ _ (λ b s.
        continue_state (client.create_auth_key background c (to_key_auth b) s) _ _
          (λ r s. key_state w v r s))

  renew_basic_state :
      (w v c i k : String) (d : Option String) (s : S)
      → (renew_basic names client w c i k d s).1 ≡ (renew_basic names client v c i k d s).1
  unfolding renew_basic
  renew_basic_state w v c i k (some e) s = refl
  renew_basic_state w v c i k none s =
      continue_state (with_username client.new_uuid k tagged s) _ _ (λ b s.
        continue_state (with_password client.new_uuid "" b s) _ _ (λ p s.
          continue_state (client.create_http_basic background c (to_basic_auth p) s) _ _
            (λ r s. basic_state w r s ∙ sym (basic_state v r s))))

  renew_oauth2_state :
      (w v c i k : String) (d : Option String) (s : S)
      → (renew_oauth2 names client w c i k d s).1 ≡ (renew_oauth2 names client v c i k d s).1
  unfolding renew_oauth2
  renew_oauth2_state w v c i k (some e) s = refl
  renew_oauth2_state w v c i k none s =
      continue_state (with_client_id client.new_uuid k tagged s) _ _ (λ b s.
        continue_state (with_client_secret client.new_uuid "" b s) _ _ (λ p s.
          continue_state (with_name client.new_uuid "" p s) _ _ (λ q s.
            continue_state (client.create_oauth2 background c (to_oauth2 q) s) _ _
              (λ r s. oauth2_state w v r s))))

  typed_state :
      (w v t c i k : String) (s : S)
      → (update_typed names client w t c i k s).1 ≡ (update_typed names client v t c i k s).1
  unfolding update_typed
  typed_state w v t c i k s =
      if_state (t == names.api_key_ard) _ _ _ _ s
        (continue_state (client.delete_auth_key background c i s) _ _
          (λ d s. renew_key_state w v c i d s))
        (if_state (t == names.basic_auth_ard) _ _ _ _ s
          (continue_state (client.delete_http_basic background c i s) _ _
            (λ d s. renew_basic_state w v c i k d s))
          (if_state (t == names.oauth_secret_crd) _ _ _ _ s
            (continue_state (client.delete_oauth2 background c i s) _ _
              (λ d s. renew_oauth2_state w v c i k d s))
            refl))

  abbrev guarded_update : String → String → (String → String) → S → Ret Answer × S
  guarded_update w t details s =
      if details attr_credential_id == ""
      then (ret (refused "kongCredentialId cannot be empty"), s)
      else update_typed names client w t (details attr_app_id) (details attr_credential_id)
          (details attr_cred_updater) s

  update_guarded :
      (r : CredRequest) (s : S)
      → (parse_credential_type names r.credential_type).0 ≢ ""
      → update names client r s
        ≡ guarded_update
            (parse_credential_type names r.credential_type).0
            (parse_credential_type names r.credential_type).1
            r.credential_details_value
            s
  unfolding update
  update_guarded r s named =
      rw (is_named (parse_credential_type names r.credential_type).0 named)
        (if_at (r.credential_details_value attr_credential_id == "") _ _ s)

  guarded_state :
      (w v t : String) (details : String → String) (s : S)
      → (guarded_update w t details s).1 ≡ (guarded_update v t details s).1
  guarded_state w v t details s = go (details attr_credential_id == "")
    where
      go :
          (b : Bool)
          → (if b
              then (ret (refused "kongCredentialId cannot be empty"), s)
              else update_typed names client w t
                  (details attr_app_id)
                  (details attr_credential_id)
                  (details attr_cred_updater)
                  s).1
            ≡ (if b
                then (ret (refused "kongCredentialId cannot be empty"), s)
                else update_typed names client v t
                    (details attr_app_id)
                    (details attr_credential_id)
                    (details attr_cred_updater)
                    s).1
      go true = refl
      go false = typed_state w v t _ _ _ s

  -- Update does the same to the gateway whatever the workspace of the credential: two definitions'
  -- names of one type, each with a workspace, leave the same state.
  pub update_any_workspace :
      (r : CredRequest) (other : String) (s : S)
      → (parse_credential_type names r.credential_type).0 ≢ ""
      → (parse_credential_type names other).0 ≢ ""
      → (parse_credential_type names r.credential_type).1 ≡ (parse_credential_type names other).1
      → (update names client r s).1
        ≡ (update names client (record r { credential_type = other }) s).1
  update_any_workspace r other s named named' same =
      ap (λ out. out.1) (update_guarded r s named)
      ∙ (guarded_state (parse_credential_type names r.credential_type).0
            (parse_credential_type names other).0 (parse_credential_type names r.credential_type).1
            r.credential_details_value s
          ∙ (ap
                (λ t.
                  (guarded_update (parse_credential_type names other).0 t r.credential_details_value
                    s).1)
                same
              ∙ sym (
                  ap (λ out. out.1)
                    (update_guarded (record r { credential_type = other }) s named'))))
