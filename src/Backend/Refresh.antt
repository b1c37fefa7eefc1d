-- ===== src/Backend/Refresh.antt =====
-- services/carpayin-backend/app/application/auth/refresh_access_token.py, with
-- app/infra/repositories/app_refresh_token_repository.py.
use car_pay_in.Backend.Models.{is_car}
use car_pay_in.Backend.Accounts.{
  AppRefreshToken, TokenStatus, expired_token, has_hash, has_user_id, revoked_token, valid,
}
use car_pay_in.Backend.Env.{Env, State}
use car_pay_in.Backend.SignIn.{require_text}
use car_pay_in.Backend.Tokens.{Codec, issue_app}
use car_pay_in.Base.{Bool, Option, String, if◌then◌else◌, is_some, leb, not, ℕ, ◌&&◌, ◌*◌, ◌+◌}
use car_pay_in.DateTime.{DateTime, micros, utc_now}
use car_pay_in.Exec.{
  Exec, gets, integrity_error, lookup_error, modify, or_raise, pure, raise, raise_if, value_error,
  ◌>>=◌, ◌>>◌,
}
use car_pay_in.Table.{first}

abbrev pub app_refresh_token_ttl_days : ℕ
app_refresh_token_ttl_days = 30

-- `datetime.now(timezone.utc) + timedelta(days=APP_REFRESH_TOKEN_TTL_DAYS)`
abbrev pub refresh_expiry : ℕ → DateTime
refresh_expiry now = utc_now (now + app_refresh_token_ttl_days * 86400)

module _ (E : Env) where
  unfoldable pub find_by_hash : String → State E → Option AppRefreshToken
  find_by_hash h s = E.refresh_tokens.scalar (has_hash h) s.refresh_tokens

  -- The primary key, and the foreign keys on users and vehicles. The check on the form of the hash
  -- holds of every digest.
  unfoldable pub token_fits : AppRefreshToken → State E → Bool
  token_fits r s =
      not (is_some (first (has_hash r.refresh_token_hash) (E.refresh_tokens.rows s.refresh_tokens)))
      && is_some (E.users.scalar (has_user_id r.user_id) s.users)
      && is_some (E.vehicles.scalar (is_car r.car_id) s.vehicles)

  unfoldable pub save_token_hash : ℕ → String → String → String → Exec (State E) (Unit {0})
  save_token_hash now token_hash user_id car_id = do
    let token : AppRefreshToken = record {
      refresh_token_hash = token_hash;
      user_id = user_id;
      car_id = car_id;
      status = valid;
      expires_at = refresh_expiry now;
    }
    fits ← gets (token_fits token)
    raise_if (not fits) integrity_error
    modify (λ s. record s { refresh_tokens = E.refresh_tokens.insert token s.refresh_tokens })

  unfoldable pub expire_token : String → State E → State E
  expire_token h s = record s {
    refresh_tokens =
        E.refresh_tokens.update (has_hash h) (λ r. record r { status = expired_token })
          s.refresh_tokens;
  }

  unfoldable pub mark_expired : String → Exec (State E) (Unit {0})
  mark_expired token_hash = do
    token ← gets (find_by_hash token_hash)
    or_raise token (lookup_error "refresh_token_not_found")
    modify (expire_token token_hash)

  -- `RefreshTokenHasher.hash`, over the HMAC of the codec
  module _ (codec : Codec) (secret hash_secret : String) (now : ℕ) where
    abbrev pub hash : String → String
    hash token = codec.hmac hash_secret token

    unfoldable pub refresh_by : String → AppRefreshToken → TokenStatus → Exec (State E) String
    refresh_by token_hash token_record revoked_token = raise (value_error "refresh_token_revoked")
    refresh_by token_hash token_record expired_token = raise (value_error "refresh_token_expired")
    refresh_by token_hash token_record valid =
        if leb (micros token_record.expires_at) (now * 1000000)
        then (do mark_expired token_hash; raise (value_error "refresh_token_expired"))
        else pure (issue_app codec secret now token_record.user_id token_record.car_id)

    unfoldable pub refresh_access_token : String → Exec (State E) String
    refresh_access_token refresh_token = do
      require_text E refresh_token "refresh_token is required"
      let token_hash = hash refresh_token
      found ← gets (find_by_hash token_hash)
      token_record ← or_raise found (value_error "refresh_token_not_found")
      refresh_by token_hash token_record token_record.status
