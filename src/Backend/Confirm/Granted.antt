-- ===== src/Backend/Confirm/Granted.antt =====
-- A vehicle that has been confirmed, and the access tokens that its refresh token gives.
use car_pay_in.Backend.Models.{is_car}
use car_pay_in.Backend.Accounts.{
  AppRefreshToken, Car, LoginResult, QrSession, User, has_hash, has_user_id, plate_fits, valid,
}
use car_pay_in.Backend.Confirm.{
  ConfirmVehicleCommand, ConfirmVehicleResult, confirm_session, confirm_vehicle, find_login_result,
  grant, has_car_id, is_live, mark_used, when_live,
}
use car_pay_in.Backend.Env.{Env, IsLawful, State}
use car_pay_in.Backend.Models.{Vehicle}
use car_pay_in.Backend.Refresh.{
  app_refresh_token_ttl_days, find_by_hash, mark_expired, refresh_access_token, refresh_by,
  refresh_expiry, save_token_hash, token_fits,
}
use car_pay_in.Backend.SignIn.{get_session, login_result_key, require_text, require_text-given}
use car_pay_in.Backend.Tokens.{
  Codec, IsCoded, Payload, app_access_token_ttl_seconds, app_claims, issue_app, issued_payload,
  validate-issue, validate_app, validate_temp,
}
use car_pay_in.Backend.Vehicles.{
  get_vehicle_by_car_id, text_or_empty, upsert_vehicle, with_car, write_vehicle,
}
use car_pay_in.Base.{
  Bool, Option, String, ap, arith, eq_refl, false, if◌then◌else◌, leb, map_option, none, not, refl,
  some, true, ℕ, ◌*◌, ◌+◌, ◌<◌, ◌==◌, ◌∙◌, ◌≡◌,
}
use car_pay_in.Exec.{ok, pure, raise, raise_if, value_error, ◌>>=◌, ◌>>◌}
use car_pay_in.Exec.Run.{bind-ok, or_raise-some, run-gets-bind, run-lift, run-pure}
use car_pay_in.Table.{first, first-amend, first-append, first_sound}

module _ {E : Env} (L : IsLawful E) where
  -- a vehicle that has been written is there, with its new owner
  write_vehicle-found :
      (user_id i : String) (car : Car) (o : Option Vehicle) (rows : E.vehicles.State)
      → E.vehicles.scalar (is_car i) rows ≡ o
      → (v : Vehicle) × (E.vehicles.scalar (is_car i) (write_vehicle E user_id i car o rows)
          ≡ some v)
        × (v.user_id ≡ user_id)
  unfolding write_vehicle
  write_vehicle-found user_id i car none rows missing =
      let before = rw (L.vehicles.scalar-rows (is_car i) rows) at missing in
      (
        with_car user_id car
            (record { car_id = i; user_id = user_id; car_sellname = ""; plate = "" }),
        rw (L.vehicles.scalar-rows, L.vehicles.rows-insert, first-append, before, eq_refl i) refl,
        refl,
      )
  write_vehicle-found user_id i car (some v) rows found =
      let before = rw (L.vehicles.scalar-rows (is_car i) rows) at found in
      (
        with_car user_id car v,
        rw (L.vehicles.scalar-rows, L.vehicles.rows-update)
            (first-amend (is_car i) (is_car i) (with_car user_id car) _ (λ _ _. refl)
              ∙ ap (map_option (λ r. if is_car i r then with_car user_id car r else r)) before
              ∙ ap (λ d. some (if d then with_car user_id car v else v))
                  (first_sound (is_car i) _ before)),
        refl,
      )

module _ {E : Env} (L : IsLawful E) (codec : Codec) (secret hash_secret : String) (now : ℕ)
    (refresh_token : String) (c : ConfirmVehicleCommand) (s : State E) (user_id session_id : String)
    (login : LoginResult) (car : Car) where
  -- a confirmation that every check lets through
  pub record IsConfirmable : Type 0 where
    pub token_given : (c.temp_access_token == "") ≡ false
    pub car_given : (c.car_id == "") ≡ false
    pub vin_given : (c.vin_hash == "") ≡ false
    pub refresh_given : (refresh_token == "") ≡ false
    pub token :
        (p : Payload) × (validate_temp codec secret now c.temp_access_token ≡ ok p)
        × (p.user_id ≡ some user_id)
        × (p.session_id ≡ some session_id)
    pub result :
        find_login_result E codec secret hash_secret now refresh_token c session_id s ≡ some login
    pub listed : first (has_car_id c.car_id) login.cars ≡ some car
    pub session :
        (q : QrSession) × (get_session E now session_id s ≡ some q)
        × (is_live q.status ≡ true)
        × ((q.vin_hash == c.vin_hash) ≡ true)
    pub user : (u : User) × (E.users.scalar (has_user_id user_id) s.users ≡ some u)
    pub plate : plate_fits (E.vehicles.rows s.vehicles) c.car_id (text_or_empty car.plate) ≡ true
    pub new_hash :
        first
          (has_hash (codec.hmac hash_secret refresh_token))
          (E.refresh_tokens.rows s.refresh_tokens)
        ≡ none

  abbrev pub token_row : AppRefreshToken
  token_row = record {
    refresh_token_hash = codec.hmac hash_secret refresh_token;
    user_id = user_id;
    car_id = c.car_id;
    status = valid;
    expires_at = refresh_expiry now;
  }

  abbrev pub granted : State E
  granted = record s {
    vehicles = write_vehicle E user_id c.car_id car (get_vehicle_by_car_id E c.car_id s) s.vehicles;
    refresh_tokens = E.refresh_tokens.insert token_row s.refresh_tokens;
    login_results = E.login_results.delete (login_result_key session_id) s.login_results;
  }

  abbrev pub grant_result : ConfirmVehicleResult
  grant_result = record {
    app_access_token = issue_app codec secret now user_id c.car_id;
    app_refresh_token = refresh_token;
    user_id = user_id;
    name = login.name;
    car_id = c.car_id;
    car = car;
  }

  grant-run :
      IsConfirmable
      → grant E codec secret hash_secret now refresh_token c user_id session_id login car s
        ≡ (ok grant_result, granted)
  unfolding grant upsert_vehicle save_token_hash token_fits mark_used get_vehicle_by_car_id ◌>>=◌
  grant-run h =
      let (u, known) = h.user in
      let (v, there, _) =
        write_vehicle-found L user_id c.car_id car (E.vehicles.scalar (is_car c.car_id) s.vehicles)
          s.vehicles refl in
      rw (known, h.plate, h.new_hash, known, there) refl

  session-run :
      IsConfirmable
      → confirm_session E codec secret hash_secret now refresh_token c user_id session_id s
        ≡ (ok grant_result, granted)
  unfolding confirm_session
  session-run h =
      let (q, found, live, same) = h.session in
      run-gets-bind _ _ s
      ∙ bind-ok _ _ s (or_raise-some _ s h.result)
      ∙ bind-ok _ _ s (or_raise-some _ s h.listed)
      ∙ run-gets-bind _ _ s
      ∙ bind-ok _ _ s
          (or_raise-some _ s (ap when_live found ∙ ap (λ d. if d then some q else none) live))
      ∙ bind-ok _ _ s (same-run (q.vin_hash == c.vin_hash) same)
      ∙ grant-run h
    where
      same-run :
          (d : Bool) → d ≡ true → raise_if (not d) (value_error "vin_hash_mismatch") s ≡ (ok tt, s)
      same-run true _ = unfold ◌>>=◌ in refl
      same-run false h = absurd (ground (arith, h))

  confirm-run :
      IsConfirmable
      → confirm_vehicle E codec secret hash_secret now refresh_token c s
        ≡ (ok grant_result, granted)
  unfolding confirm_vehicle
  confirm-run h =
      let (p, checked, user, session) = h.token in
      bind-ok _ _ s (require_text-given E c.temp_access_token _ s h.token_given)
      ∙ bind-ok _ _ s (require_text-given E c.car_id _ s h.car_given)
      ∙ bind-ok _ _ s (require_text-given E c.vin_hash _ s h.vin_given)
      ∙ bind-ok _ _ s (run-lift _ s checked)
      ∙ bind-ok _ _ s (or_raise-some _ s user)
      ∙ bind-ok _ _ s (or_raise-some _ s session)
      ∙ session-run h

  hash-stored :
      IsConfirmable → find_by_hash E (codec.hmac hash_secret refresh_token) granted ≡ some token_row
  unfolding find_by_hash
  hash-stored h = rw (
    L.refresh_tokens.scalar-rows,
    L.refresh_tokens.rows-insert,
    first-append,
    h.new_hash,
    eq_refl (codec.hmac hash_secret refresh_token),
  )

  module _ (later : ℕ) where
    refresh-run :
        IsConfirmable
        → refresh_access_token E codec secret hash_secret later refresh_token granted
          ≡ refresh_by E codec secret hash_secret later
              (codec.hmac hash_secret refresh_token)
              token_row
              valid
              granted
    unfolding refresh_access_token require_text ◌>>=◌
    refresh-run h = rw (h.refresh_given, hash-stored h) refl

    refresh-in_time :
        later < now + app_refresh_token_ttl_days * 86400
        → refresh_by E codec secret hash_secret later
            (codec.hmac hash_secret refresh_token)
            token_row
            valid
            granted
          ≡ (ok (issue_app codec secret later user_id c.car_id), granted)
    unfolding refresh_by
    refresh-in_time within =
        by_test (leb ((now + app_refresh_token_ttl_days * 86400) * 1000000) (later * 1000000))
          (ground arith)
      where
        by_test :
            (d : Bool)
            → d ≡ false
            → (if d
                  then (do
                    mark_expired E (codec.hmac hash_secret refresh_token)
                    raise (value_error "refresh_token_expired"))
                  else pure (issue_app codec secret later user_id c.car_id))
                granted
              ≡ (ok (issue_app codec secret later user_id c.car_id), granted)
        by_test false _ = run-pure _ _
        by_test true h = absurd (ground (arith, h))

    app-valid :
        IsCoded codec (
          issued_payload later "app_access" app_access_token_ttl_seconds
            (app_claims user_id c.car_id))
        → validate_app codec secret later (issue_app codec secret later user_id c.car_id)
          ≡ ok (
              issued_payload later "app_access" app_access_token_ttl_seconds
                (app_claims user_id c.car_id))
    unfolding validate_app issue_app
    app-valid coded =
        validate-issue codec secret later later "app_access" "app_access" "invalid_token"
          app_access_token_ttl_seconds _ coded
        ∙ ground arith

  -- what a confirmation leaves, at a later time
  pub record IsGranted (later : ℕ) (r : ConfirmVehicleResult) (t : State E) : Type 0 where
    pub answers : confirm_vehicle E codec secret hash_secret now refresh_token c s ≡ (ok r, t)
    pub owned :
        (v : Vehicle) × (get_vehicle_by_car_id E c.car_id t ≡ some v) × (v.user_id ≡ user_id)
    pub refreshes :
        (token : String) × (refresh_access_token E codec secret hash_secret later
            r.app_refresh_token t
          ≡ (ok token, t))
        × ((p : Payload) × (validate_app codec secret later token ≡ ok p)
            × (p.user_id ≡ some user_id)
            × (p.car_id ≡ some c.car_id))

  -- A confirmation with a valid temporary token of a user and a session, whose login lists the car
  -- and whose vehicle is the one of the command, with a plate that no other car has and a refresh
  -- token whose hash is new; and any time within thirty days from then on. It is answered, the car
  -- belongs to the user, and the refresh token gives an access token that is valid and names the
  -- user and the car.
  pub confirm-IsGranted :
      (later : ℕ)
      → IsConfirmable
      → IsCoded codec (
          issued_payload later "app_access" app_access_token_ttl_seconds
            (app_claims user_id c.car_id))
      → later < now + app_refresh_token_ttl_days * 86400
      → (r : ConfirmVehicleResult) × (t : State E) × IsGranted later r t
  confirm-IsGranted later h coded within = (
    grant_result,
    granted,
    record {
      answers = confirm-run h;
      owned =
          unfold get_vehicle_by_car_id in
          write_vehicle-found L user_id c.car_id car _ s.vehicles refl;
      refreshes = (
        issue_app codec secret later user_id c.car_id,
        refresh-run later h ∙ refresh-in_time later within,
        (_, app-valid later coded, refl, refl),
      );
    },
  )
