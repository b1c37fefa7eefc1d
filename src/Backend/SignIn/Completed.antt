-- ===== src/Backend/SignIn/Completed.antt =====
-- A sign-in that the manufacturer's service has answered.
use car_pay_in.Backend.Accounts.{
  Car, LoginResult, QrSession, QrStatus, has_user_id, qr_pending, unused, used,
}
use car_pay_in.Backend.Cards.{same_ttl}
use car_pay_in.Backend.Env.{
  Env, IsLawful, State, exchange_code, get_profile, get_vehicles, record_call,
}
use car_pay_in.Backend.SignIn.{
  OauthOutcome, app_login_result_ttl_seconds, ask_hyundai, finish_login, get_login_result,
  get_login_session_status, get_session, get_session_id, handle_hyundai_oauth_callback, login_at,
  login_complete, login_result_key, oauth_result_key, oauth_result_ttl_seconds, require_text,
  require_text-given, save_login_result, save_oauth_result, session_of, state_key, status_of_login,
  use_state, write_used,
}
use car_pay_in.Backend.Tokens.{
  Codec, IsCoded, Payload, issue_temp, issued_payload, temp_access_token_ttl_seconds, temp_claims,
  validate-issue, validate_temp,
}
use car_pay_in.Backend.Vehicles.{upsert_user, write_user}
use car_pay_in.Base.{
  Bool, List, String, [], ap, arith, eq_refl, false, if◌then◌else◌, none, refl, some, true, ℕ, ◌++◌,
  ◌+◌, ◌<◌, ◌==◌, ◌∙◌, ◌∷◌, ◌≡◌, ◌≤◌,
}
use car_pay_in.Exec.{err, ok, value_error, ◌>>=◌}
use car_pay_in.Exec.Run.{bind-ok, catch-ok, or_raise-some, run-gets-bind}
use car_pay_in.Redis.{alive}

module _ {E : Env} (L : IsLawful E) (codec : Codec) (secret : String) (now : ℕ) (out : OauthOutcome)
    (code state session_id : String) (s : State E) where
  -- a callback with a state that has not been used, of a session that is waiting, and calls that
  -- succeed
  pub record IsAnswered (access_token user_id name : String) (cars : List Car) : Type 0 where
    pub code_given : (code == "") ≡ false
    pub state_given : (state == "") ≡ false
    pub session_given : (session_id == "") ≡ false
    pub state_unused :
        E.oauth_states.get now (state_key state) s.oauth_states
        ≡ some (record { session_id = session_id; status = unused })
    pub waiting :
        (q : QrSession) × (get_session E now session_id s ≡ some q) × (q.status ≡ qr_pending)
    pub exchanged : out.exchange ≡ ok access_token
    pub profiled : out.profile ≡ ok (user_id, name)
    pub listed : out.vehicles ≡ ok cars

  module _ (access_token user_id name : String) (cars : List Car) where
    abbrev account : LoginResult
    account = record { user_id = user_id; name = name; cars = cars; temp_access_token = "" }

    abbrev pub login : LoginResult
    login = record account { temp_access_token = issue_temp codec secret now user_id session_id }

    abbrev called_state : State E
    called_state = record s {
      calls =
          ((s.calls ++ exchange_code code ∷ []) ++ get_profile access_token ∷ [])
          ++ get_vehicles access_token ∷ [];
    }

    abbrev pub signed_in : State E
    signed_in =
        write_used E now state (some (record { session_id = session_id; status = unused }))
          (record called_state {
            users =
                write_user E user_id name (E.users.scalar (has_user_id user_id) s.users) s.users;
            oauth_results =
                E.oauth_results.set now (oauth_result_key session_id) login
                  (some oauth_result_ttl_seconds) s.oauth_results;
            login_results =
                E.login_results.set now (login_result_key session_id) login
                  (some app_login_result_ttl_seconds) s.login_results;
          })

    ask-run :
        IsAnswered access_token user_id name cars
        → ask_hyundai E codec secret now out code s ≡ (ok account, called_state)
    unfolding ask_hyundai record_call ◌>>=◌
    ask-run h = rw (h.exchanged, h.profiled, h.listed) refl

    finish-run :
        IsAnswered access_token user_id name cars
        → finish_login E codec secret now out state session_id account called_state
          ≡ (ok login, signed_in)
    unfolding finish_login upsert_user save_oauth_result save_login_result use_state ◌>>=◌
    finish-run h = rw h.state_unused refl

    login-run :
        (status : QrStatus)
        → status ≡ qr_pending
        → IsAnswered access_token user_id name cars
        → login_at E codec secret now out code state session_id status s ≡ (ok login, signed_in)
    unfolding login_at
    login-run status it_waits h =
        ap (λ q. login_at E codec secret now out code state session_id q s) it_waits
        ∙ bind-ok _ _ s (catch-ok _ _ s (ask-run h))
        ∙ finish-run h

    callback-run :
        IsAnswered access_token user_id name cars
        → handle_hyundai_oauth_callback E codec secret now out code state s ≡ (ok login, signed_in)
    unfolding handle_hyundai_oauth_callback get_session_id
    callback-run h =
        let (q, found, it_waits) = h.waiting in
        bind-ok _ _ s (require_text-given E code _ s h.code_given)
        ∙ bind-ok _ _ s (require_text-given E state _ s h.state_given)
        ∙ run-gets-bind _ _ s
        ∙ bind-ok _ _ s (or_raise-some _ s (ap session_of h.state_unused))
        ∙ bind-ok _ _ s (require_text-given E session_id _ s h.session_given)
        ∙ run-gets-bind _ _ s
        ∙ bind-ok _ _ s (or_raise-some _ s found)
        ∙ login-run q.status it_waits h

    module _ (later : ℕ) (after : now ≤ later) where
      state-spent : get_session_id E later state signed_in ≡ none
      unfolding get_session_id write_used
      state-spent =
          rw (L.oauth_states.get-set, after, eq_refl (state_key state))
            (by_life (
              alive now (same_ttl (E.oauth_states.ttl now (state_key state) s.oauth_states)) later))
        where
          by_life :
              (b : Bool)
              → session_of
                  (if b then some (record { session_id = session_id; status = used }) else none)
                ≡ none
          by_life true = refl
          by_life false = refl

      login-found :
          later < now + app_login_result_ttl_seconds
          → get_login_result E later session_id signed_in ≡ some login
      unfolding get_login_result write_used
      login-found within =
          rw (L.login_results.get-set, after, eq_refl (login_result_key session_id)) (ground arith)

      status-run :
          later < now + app_login_result_ttl_seconds
          → (session_id == "") ≡ false
          → get_login_session_status E later session_id signed_in
            ≡ (ok (login_complete login), signed_in)
      unfolding get_login_session_status status_of_login require_text ◌>>=◌
      status-run within given = rw (given, login-found within) refl

      refused-run :
          (out_then : OauthOutcome) (code_then : String)
          → (code_then == "") ≡ false
          → (state == "") ≡ false
          → handle_hyundai_oauth_callback E codec secret later out_then code_then state signed_in
            ≡ (err (value_error "oauth_state_not_found"), signed_in)
      unfolding handle_hyundai_oauth_callback require_text ◌>>=◌
      refused-run out_then code_then given state_given = rw (given, state_given, state-spent) refl

      token-valid :
          IsCoded codec (
            issued_payload now "temp_access" temp_access_token_ttl_seconds
              (temp_claims user_id session_id))
          → later < now + app_login_result_ttl_seconds
          → validate_temp codec secret later login.temp_access_token
            ≡ ok (
                issued_payload now "temp_access" temp_access_token_ttl_seconds
                  (temp_claims user_id session_id))
      unfolding validate_temp issue_temp
      token-valid coded within =
          validate-issue codec secret now later "temp_access" "temp_access" "temp_token_expired"
            temp_access_token_ttl_seconds _ coded
          ∙ ground arith

  -- what a completed sign-in leaves, at a later time
  pub record IsSignedIn (later : ℕ) (out_then : OauthOutcome) (code_then : String) (r : LoginResult)
      (t : State E) : Type 0 where
    pub answers : handle_hyundai_oauth_callback E codec secret now out code state s ≡ (ok r, t)
    pub status : get_login_session_status E later session_id t ≡ (ok (login_complete r), t)
    pub token :
        (p : Payload) × (validate_temp codec secret later r.temp_access_token ≡ ok p)
        × (p.user_id ≡ some r.user_id)
        × (p.session_id ≡ some session_id)
    pub once :
        handle_hyundai_oauth_callback E codec secret later out_then code_then state t
        ≡ (err (value_error "oauth_state_not_found"), t)

  -- A callback of the manufacturer's sign-in with a state that has not been used, for a session that
  -- is waiting, whose calls of the manufacturer's service succeed, and any time within five minutes
  -- from then on: it is answered with the user, the cars and a temporary token; the session's status
  -- is that login; the token is valid and names the user and the session; and another callback with
  -- the same state is refused, whatever code it has, and changes nothing.
  pub callback-IsSignedIn :
      (access_token user_id name : String) (cars : List Car) (later : ℕ) (out_then : OauthOutcome)
      (code_then : String)
      → IsAnswered access_token user_id name cars
      → IsCoded codec (
          issued_payload now "temp_access" temp_access_token_ttl_seconds
            (temp_claims user_id session_id))
      → now ≤ later
      → later < now + app_login_result_ttl_seconds
      → (code_then == "") ≡ false
      → (r : LoginResult) × (t : State E) × (r.cars ≡ cars)
        × IsSignedIn later out_then code_then r t
  callback-IsSignedIn access_token user_id name cars later out_then code_then h coded after within
        given =
      (
        login access_token user_id name cars,
        signed_in access_token user_id name cars,
        refl,
        record {
          answers = callback-run access_token user_id name cars h;
          status = status-run access_token user_id name cars later after within h.session_given;
          token =
              (_, token-valid access_token user_id name cars later after coded within, refl, refl);
          once =
              refused-run access_token user_id name cars later after out_then code_then given
                h.state_given;
        },
      )
