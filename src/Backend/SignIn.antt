-- ===== src/Backend/SignIn.antt =====
-- services/carpayin-backend/app/application/auth: create_qr_session.py, start_hyundai_oauth.py,
-- handle_hyundai_oauth_callback.py and get_login_session_status.py, with the stores of
-- app/infra/redis/stores.py that they use.
pub mod Completed
use car_pay_in.Backend.Accounts.{
  Car, LoginResult, OauthState, QrSession, QrStatus, StateStatus, qr_expired, qr_failed, qr_pending,
  unused, used,
}
use car_pay_in.Backend.Cards.{same_ttl}
use car_pay_in.Backend.Env.{
  Env, State, exchange_code, get_profile, get_vehicles, record_call, text_of,
}
use car_pay_in.Backend.Plates.{chars, is_char, rstrip}
use car_pay_in.Backend.Tokens.{Codec, issue_temp}
use car_pay_in.Backend.Vehicles.{upsert_user}
use car_pay_in.Base.{
  Bool, List, Option, String, [], false, if◌then◌else◌, none, refl, some, true, ℕ, ◌*◌, ◌<>◌, ◌==◌,
  ◌||◌, ◌∷◌, ◌≡◌,
}
use car_pay_in.Exec.{
  Exception, Exec, Result, catch, gets, lift, modify, ok, or_raise, pure, raise, raise_if,
  value_error, ◌>>=◌, ◌>>◌,
}
use Prim.Native.Char.{Char}

abbrev pub qr_session_ttl_seconds : ℕ
qr_session_ttl_seconds = 15 * 60

abbrev pub oauth_state_ttl_seconds : ℕ
oauth_state_ttl_seconds = 15 * 60

abbrev pub oauth_result_ttl_seconds : ℕ
oauth_result_ttl_seconds = 15 * 60

abbrev pub app_login_result_ttl_seconds : ℕ
app_login_result_ttl_seconds = 5 * 60

abbrev pub qr_key : String → String
qr_key session_id = "qr_session:" <> session_id

abbrev pub state_key : String → String
state_key oauth_state = "oauth_state:" <> oauth_state

abbrev pub oauth_result_key : String → String
oauth_result_key session_id = "hyundai_oauth:" <> session_id

abbrev pub login_result_key : String → String
login_result_key session_id = "app_login_result:" <> session_id

abbrev pub is_unused : StateStatus → Bool
is_unused unused = true
is_unused used = false

abbrev pub session_of : Option OauthState → Option String
session_of none = none
session_of (some state) = if is_unused state.status then some state.session_id else none

-- how the calls of the manufacturer's service end: an access token, the user's id and name, and the
-- cars of the account
pub record OauthOutcome : Type 0 where
  pub exchange : Result String
  pub profile : Result (String × String)
  pub vehicles : Result (List Car)

pub data LoginStatus : Type 0 where
  login_complete : LoginResult → LoginStatus
  login_pending : LoginStatus

-- what a service is configured with; `urlencode` is Python's
pub record OauthConfig : Type 0 where
  pub public_base_url : String
  pub hyundai_authorize_url : String
  pub hyundai_client_id : String
  pub urlencode : List (String × String) → String

-- `"?" in text`
unfoldable pub has_mark : List Char → Bool
has_mark [] = false
has_mark (c ∷ cs) = let rest = has_mark cs in is_char b'?' c || rest

module _ (E : Env) where
  unfoldable pub save_pending_session : ℕ → String → String → Exec (State E) (Unit {0})
  save_pending_session now session_id vin_hash = modify (λ s. record s {
    qr_sessions =
        E.qr_sessions.set now (qr_key session_id)
          (record { vin_hash = vin_hash; status = qr_pending; debug_message = "" })
          (some qr_session_ttl_seconds) s.qr_sessions;
  })

  unfoldable pub get_session : ℕ → String → State E → Option QrSession
  get_session now session_id s = E.qr_sessions.get now (qr_key session_id) s.qr_sessions

  unfoldable pub write_failed : ℕ → String → String → Option QrSession → State E → State E
  write_failed now session_id reason none s = s
  write_failed now session_id reason (some q) s = record s {
    qr_sessions =
        E.qr_sessions.set now (qr_key session_id)
          (record q { status = qr_failed; debug_message = reason })
          (same_ttl (E.qr_sessions.ttl now (qr_key session_id) s.qr_sessions)) s.qr_sessions;
  }

  unfoldable pub mark_failed : ℕ → String → String → Exec (State E) (Unit {0})
  mark_failed now session_id reason = do
    payload ← gets (get_session now session_id)
    modify (write_failed now session_id reason payload)

  unfoldable pub save_oauth_state : ℕ → String → String → Exec (State E) (Unit {0})
  save_oauth_state now oauth_state session_id = modify (λ s. record s {
    oauth_states =
        E.oauth_states.set now (state_key oauth_state)
          (record { session_id = session_id; status = unused }) (some oauth_state_ttl_seconds)
          s.oauth_states;
  })

  unfoldable pub get_session_id : ℕ → String → State E → Option String
  get_session_id now oauth_state s =
      session_of (E.oauth_states.get now (state_key oauth_state) s.oauth_states)

  unfoldable pub write_used : ℕ → String → Option OauthState → State E → State E
  write_used now oauth_state none s = s
  write_used now oauth_state (some o) s = record s {
    oauth_states =
        E.oauth_states.set now (state_key oauth_state) (record o { status = used })
          (same_ttl (E.oauth_states.ttl now (state_key oauth_state) s.oauth_states)) s.oauth_states;
  }

  -- `RedisOAuthStateStore.mark_used`
  unfoldable pub use_state : ℕ → String → Exec (State E) (Unit {0})
  use_state now oauth_state = do
    payload ← gets (λ s. E.oauth_states.get now (state_key oauth_state) s.oauth_states)
    modify (write_used now oauth_state payload)

  unfoldable pub save_oauth_result : ℕ → String → LoginResult → Exec (State E) (Unit {0})
  save_oauth_result now session_id r = modify (λ s. record s {
    oauth_results =
        E.oauth_results.set now (oauth_result_key session_id) r (some oauth_result_ttl_seconds)
          s.oauth_results;
  })

  unfoldable pub save_login_result : ℕ → String → LoginResult → Exec (State E) (Unit {0})
  save_login_result now session_id r = modify (λ s. record s {
    login_results =
        E.login_results.set now (login_result_key session_id) r (some app_login_result_ttl_seconds)
          s.login_results;
  })

  unfoldable pub get_oauth_result : ℕ → String → State E → Option LoginResult
  get_oauth_result now session_id s =
      E.oauth_results.get now (oauth_result_key session_id) s.oauth_results

  unfoldable pub get_login_result : ℕ → String → State E → Option LoginResult
  get_login_result now session_id s =
      E.login_results.get now (login_result_key session_id) s.login_results

  -- `if not text: raise ValueError(...)`
  unfoldable pub require_text : String → String → Exec (State E) (Unit {0})
  require_text t reason = raise_if (t == "") (value_error reason)

  pub require_text-given :
      (t reason : String) (s : State E) → (t == "") ≡ false → require_text t reason s ≡ (ok tt, s)
  unfolding require_text ◌>>=◌
  require_text-given t reason s given = rw given refl

  module _ (config : OauthConfig) (now : ℕ) where
    abbrev pub base_url : String
    base_url = rstrip (is_char b'/') config.public_base_url

    unfoldable pub create_qr_session : String → String → Exec (State E) String
    create_qr_session login_session_id vin_hash = do
      require_text login_session_id "login_session_id is required"
      require_text vin_hash "vin_hash is required"
      save_pending_session now login_session_id vin_hash
      pure (base_url <> "/auth/hyundai/start" <> "?session_id=" <> login_session_id)

    unfoldable pub build_redirect_url : String → String
    build_redirect_url oauth_state =
        let params = config.urlencode (
          ("client_id", config.hyundai_client_id)
          ∷ ("redirect_uri", base_url <> "/auth/redirect")
          ∷ ("response_type", "code")
          ∷ ("scope", "openid profile")
          ∷ ("state", oauth_state)
          ∷ []) in
        let separator = if has_mark (chars config.hyundai_authorize_url) then "&" else "?" in
        config.hyundai_authorize_url <> separator <> params

    unfoldable pub start_session : String → String → QrStatus → Exec (State E) String
    start_session oauth_state session_id qr_expired = raise (value_error "qr_session_expired")
    start_session oauth_state session_id qr_failed = raise (value_error "qr_session_not_pending")
    start_session oauth_state session_id qr_pending = do
      save_oauth_state now oauth_state session_id
      pure (build_redirect_url oauth_state)

    -- with the text of `token_urlsafe(32)`
    unfoldable pub start_hyundai_oauth : String → String → Exec (State E) String
    start_hyundai_oauth oauth_state session_id = do
      require_text session_id "session_id is required"
      found ← gets (get_session now session_id)
      qr_session ← or_raise found (value_error "qr_session_not_found")
      start_session oauth_state session_id qr_session.status

  module _ (codec : Codec) (secret : String) (now : ℕ) (out : OauthOutcome) where
    unfoldable pub ask_hyundai : String → Exec (State E) LoginResult
    ask_hyundai code = do
      record_call E (exchange_code code)
      access_token ← lift out.exchange
      record_call E (get_profile access_token)
      profile ← lift out.profile
      record_call E (get_vehicles access_token)
      cars ← lift out.vehicles
      pure (record { user_id = profile.0; name = profile.1; cars = cars; temp_access_token = "" })

    -- the session is marked, and the exception goes on
    unfoldable pub fail_session : String → Exception → Exec (State E) LoginResult
    fail_session session_id exc = do mark_failed now session_id (text_of E exc); raise exc

    -- the answer is the login result, with the session's id and the status 'complete'
    unfoldable pub finish_login : String → String → LoginResult → Exec (State E) LoginResult
    finish_login state session_id account = do
      let temp_access_token = issue_temp codec secret now account.user_id session_id
      let login_result = record account { temp_access_token = temp_access_token }
      upsert_user E account.user_id account.name
      save_oauth_result now session_id login_result
      save_login_result now session_id login_result
      use_state now state
      pure login_result

    unfoldable pub login_at : String → String → String → QrStatus → Exec (State E) LoginResult
    login_at code state session_id qr_expired = raise (value_error "qr_session_expired")
    login_at code state session_id _ = do
      account ← catch (ask_hyundai code) (fail_session session_id)
      finish_login state session_id account

    unfoldable pub handle_hyundai_oauth_callback : String → String → Exec (State E) LoginResult
    handle_hyundai_oauth_callback code state = do
      require_text code "code is required"
      require_text state "state is required"
      known ← gets (get_session_id now state)
      session_id ← or_raise known (value_error "oauth_state_not_found")
      require_text session_id "oauth_state_not_found"
      found ← gets (get_session now session_id)
      qr_session ← or_raise found (value_error "qr_session_not_found")
      login_at code state session_id qr_session.status

  unfoldable pub status_of_session : QrStatus → Exec (State E) LoginStatus
  status_of_session qr_expired = raise (value_error "session_expired")
  status_of_session qr_failed = raise (value_error "oauth_failed")
  status_of_session qr_pending = pure login_pending

  unfoldable pub status_of_login : ℕ → String → Option LoginResult → Exec (State E) LoginStatus
  status_of_login now session_id (some app_login_result) = pure (login_complete app_login_result)
  status_of_login now session_id none = do
    found ← gets (get_session now session_id)
    qr_session ← or_raise found (value_error "session_not_found")
    status_of_session qr_session.status

  unfoldable pub get_login_session_status : ℕ → String → Exec (State E) LoginStatus
  get_login_session_status now session_id = do
    require_text session_id "session_id is required"
    app_login_result ← gets (get_login_result now session_id)
    status_of_login now session_id app_login_result
