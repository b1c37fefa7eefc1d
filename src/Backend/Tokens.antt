-- ===== src/Backend/Tokens.antt =====
-- `SignedTokenCodec` of services/carpayin-backend/app/infra/security.py, with the issuers and
-- validators of temporary and of app access tokens.
use car_pay_in.Backend.Plates.{is_char}
use car_pay_in.Base.{
  Bool, Option, ap, arith, eq_refl, false, if◌then◌else◌, leb, ltb, none, not, some, true, ℕ, ◌&&◌,
  ◌*◌, ◌+◌, ◌<>◌, ◌==◌, ◌∙◌, ◌≡◌,
}
use car_pay_in.Exec.{Result, err, ok, value_error}
use car_pay_in.Integer.{negsuc, pos, ℤ}
use Prim.Native.Char.{Char}
use Prim.Native.String.append
use Prim.Native.String.{String}

-- The JSON object of a token; `none` is a key that is missing. Objects with values of other types
-- are left out, since only `issue` signs one.
pub record Payload : Type 0 where
  pub user_id : Option String
  pub session_id : Option String
  pub car_id : Option String
  pub typ : Option String
  pub exp : Option ℤ

-- whether `.` is missing
unfoldable pub is_dotless : String → Bool
is_dotless String.[] = true
is_dotless (String.◌∷◌ c t) = let rest = is_dotless t in not (is_char b'.' c) && rest

-- HMAC-SHA256, and base64 over JSON: `decode` is `none` where Python raises or finds no object
pub record Codec : Type 0 where
  pub hmac : String → String → String
  pub encode : Payload → String
  pub decode : String → Option Payload

-- What base64 over JSON does with an object: there is no dot in its alphabet, and decoding undoes
-- encoding.
pub record IsCoded (C : Codec) (p : Payload) : Type 0 where
  pub decode-encode : C.decode (C.encode p) ≡ some p
  pub encode-dotless : is_dotless (C.encode p) ≡ true

abbrev before_dot : Char → Option (String × String) → Option (String × String)
before_dot c none = none
before_dot c (some (a, b)) = some (String.◌∷◌ c a, b)

-- `token.split(".", 1)` into two parts
unfoldable pub split_dot : String → Option (String × String)
split_dot String.[] = none
split_dot (String.◌∷◌ c t) =
    let rest = split_dot t in if is_char b'.' c then some ("", t) else before_dot c rest

abbrev pub temp_access_token_ttl_seconds : ℕ
temp_access_token_ttl_seconds = 15 * 60

abbrev pub app_access_token_ttl_seconds : ℕ
app_access_token_ttl_seconds = 60 * 60

-- `int(payload.get("exp", 0)) <= int(time.time())`
abbrev pub is_over : ℕ → Option ℤ → Bool
is_over now none = true
is_over now (some (negsuc _)) = true
is_over now (some (pos exp)) = leb exp now

abbrev pub has_type : String → Option String → Bool
has_type t none = false
has_type t (some u) = u == t

abbrev no_claims : Payload
no_claims = record { user_id = none; session_id = none; car_id = none; typ = none; exp = none }

-- the claims of a temporary and of an app access token
abbrev pub temp_claims : String → String → Payload
temp_claims user_id session_id = record no_claims {
  user_id = some user_id;
  session_id = some session_id;
}

abbrev pub app_claims : String → String → Payload
app_claims user_id car_id = record no_claims { user_id = some user_id; car_id = some car_id }

module _ (C : Codec) (secret : String) where
  unfoldable pub sign_payload : String → String
  sign_payload encoded_payload = C.hmac secret encoded_payload

  -- `issue` at a time, with the claims in `p`
  unfoldable pub issue : ℕ → String → ℕ → Payload → String
  issue now token_type ttl_seconds p =
      let encoded_payload =
        C.encode (record p { typ = some token_type; exp = some (pos (now + ttl_seconds)) }) in
      encoded_payload <> "." <> sign_payload encoded_payload

  unfoldable pub check_payload : ℕ → String → String → Option Payload → Result Payload
  check_payload now token_type expired_code none = err (value_error "invalid_token")
  check_payload now token_type expired_code (some payload) =
      if has_type token_type payload.typ
      then (if is_over now payload.exp then err (value_error expired_code) else ok payload)
      else err (value_error "invalid_token")

  unfoldable pub validate_parts : ℕ → String → String → Option (String × String) → Result Payload
  validate_parts now token_type expired_code none = err (value_error "invalid_token")
  validate_parts now token_type expired_code (some (encoded_payload, signature)) =
      if signature == sign_payload encoded_payload
      then check_payload now token_type expired_code (C.decode encoded_payload)
      else err (value_error "invalid_token")

  unfoldable pub validate_token : ℕ → String → String → String → Result Payload
  validate_token now token_type expired_code token =
      validate_parts now token_type expired_code (split_dot token)

  -- `TempAccessTokenIssuer.issue`
  unfoldable pub issue_temp : ℕ → String → String → String
  issue_temp now user_id session_id =
      issue now "temp_access" temp_access_token_ttl_seconds (temp_claims user_id session_id)

  -- `AppAccessTokenIssuer.issue`, and the access token of `AppTokenIssuer.issue`
  unfoldable pub issue_app : ℕ → String → String → String
  issue_app now user_id car_id =
      issue now "app_access" app_access_token_ttl_seconds (app_claims user_id car_id)

  -- `TempAccessTokenValidator.validate_and_extract`
  unfoldable pub validate_temp : ℕ → String → Result Payload
  validate_temp now token = validate_token now "temp_access" "temp_token_expired" token

  -- `AppAccessTokenValidator.validate_and_extract`
  unfoldable pub validate_app : ℕ → String → Result Payload
  validate_app now token = validate_token now "app_access" "invalid_token" token

dot-append : (t : String) → "." <> t ≡ String.◌∷◌ "." t
dot-append t = append.cons "." "" t ∙ ap (λ u. String.◌∷◌ "." u) (append.nil t)

split-dot : (e t : String) → is_dotless e ≡ true → split_dot (e <> "." <> t) ≡ some (e, t)
unfolding split_dot is_dotless
split-dot String.[] t h = ap split_dot (append.nil ("." <> t) ∙ dot-append t)
split-dot (String.◌∷◌ c e) t h =
    ap split_dot (append.cons c e ("." <> t)) ∙ ground (arith, split-dot e t)

-- the object that a token is made of
abbrev pub issued_payload : ℕ → String → ℕ → Payload → Payload
issued_payload issued token_type ttl_seconds p = record p {
  typ = some token_type;
  exp = some (pos (issued + ttl_seconds));
}

module _ (C : Codec) (secret : String) where
  -- A token that was issued, at any later or earlier time of its check: checked for the type it has
  -- and before its lifetime is over, it gives the claims, the type and the expiry that it was issued
  -- with; from the end of its lifetime on it is refused with the code of an expired token; and
  -- checked for another type it is refused as invalid at any time.
  pub validate-issue :
      (issued now : ℕ) (token_type other_type expired_code : String) (ttl_seconds : ℕ) (p : Payload)
      → IsCoded C (issued_payload issued token_type ttl_seconds p)
      → validate_token C secret now other_type expired_code
          (issue C secret issued token_type ttl_seconds p)
        ≡ (if token_type == other_type
            then (if ltb now (issued + ttl_seconds)
                then ok
                    (record p { typ = some token_type; exp = some (pos (issued + ttl_seconds)) })
                else err (value_error expired_code))
            else err (value_error "invalid_token"))
  unfolding validate_token validate_parts check_payload issue
  validate-issue issued now token_type other_type expired_code ttl_seconds p coded =
      let q = issued_payload issued token_type ttl_seconds p in
      rw
        (
          split-dot (C.encode q) (sign_payload C secret (C.encode q)) coded.encode-dotless,
          eq_refl (sign_payload C secret (C.encode q)),
          coded.decode-encode,
        )
        (ground arith)
