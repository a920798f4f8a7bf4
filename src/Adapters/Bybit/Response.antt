-- ===== src/Adapters/Bybit/Response.antt =====
-- `handle_response` of v_exchanges_adapters/src/exchanges/bybit.rs and the errors it answers with.
-- JSON, UTF-8, the printing of integers and the texts of parse errors are the libraries'.
pub mod Outcomes
pub mod Bans
use v_exchanges.Prelude.{
  ℕ, ℤ, pos, Bool, true, false, not, ◌&&◌, ◌++◌, Option, none, some, Text, codes, if◌then◌else◌,
  ◌==◌, leb, ltb, Result, ok, err, as_i32, is_empty, is_none,
}
use v_exchanges.Http.Errors
use v_exchanges.Http.Errors.{IpError, AuthError, ApiError, HandleError}
use v_exchanges.Adapters.Bybit.Codes
use v_exchanges.Adapters.Bybit.Codes.{BybitErrorCode, of_i32}

-- What the libraries make of a body: a JSON value, and an error object with its code and message.
pub record Decoder (Body Value S : Type 0) : Type 0 where
  pub from_slice : Body → Result Text Value
  -- "retCode" as an `i64`, and "retMsg" as a string.
  pub ret_code : Value → Option ℤ
  pub ret_msg : Value → Option Text
  pub from_value : Value → Result Text S
  pub error_from_slice : Body → Result Text (ℤ × Text)
  pub from_utf8 : Body → Option Text
  pub print : ℤ → Text

abbrev pub or_else : Option Text → Text → Text
or_else (some t) _ = t
or_else none t = t

abbrev is_zero : ℤ → Bool
is_zero (pos n) = n == 0
is_zero _ = false

module _ {Body Value S : Type 0} (decoder : Decoder Body Value S) where
  open decoder use {from_slice, ret_code, ret_msg, from_value, error_from_slice, from_utf8, print}

  -- `From<BybitError> for ApiError`.
  unfoldable pub api_error : BybitErrorCode → Text → ApiError
  api_error (Codes.api_key_expired _) msg = ApiError.auth (AuthError.key_expired msg)
  api_error (Codes.invalid_api_key _) msg = ApiError.auth (AuthError.unauthorized msg)
  api_error (Codes.error_sign _) msg = ApiError.auth (AuthError.unauthorized msg)
  api_error (Codes.authentication_failed _) msg = ApiError.auth (AuthError.unauthorized msg)
  api_error (Codes.unmatched_ip _) msg = ApiError.auth (AuthError.unauthorized msg)
  api_error (Codes.permission_denied _) msg = ApiError.auth (AuthError.unauthorized msg)
  api_error (Codes.too_many_visits _) msg = ApiError.ip (IpError.timeout none)
  api_error (Codes.ip_banned _) msg = ApiError.ip (IpError.timeout none)
  api_error (Codes.ip_rate_limit _) msg = ApiError.ip (IpError.timeout none)
  api_error (Codes.compliance_rules _) msg = ApiError.ip (IpError.geo_blocked msg)
  api_error code msg =
      ApiError.other (codes "Bybit error " ++ print (Codes.as_i32 code) ++ codes ": " ++ msg)

  -- The non-zero "retCode" of a value, if it has one.
  abbrev pub failed_code : Value → Option ℤ
  failed_code value = elim (ret_code value) [
    | none ↦ none
    | some c ↦ if is_zero c then none else some c
  ]

  -- The error of a code that the service sent with a message.
  abbrev pub reported : ℤ → Text → HandleError
  reported code msg = HandleError.api (api_error (of_i32 code) msg)

  -- A body under a status of success may still be an error, told by "retCode".
  abbrev pub handle_value : Value → Result HandleError S
  handle_value value = elim (failed_code value) [
    | some c ↦ err (reported (as_i32 c) (or_else (ret_msg value) (codes "Unknown error")))
    | none ↦ elim (from_value value) [ ok s ↦ ok s | err e ↦ err (Errors.parse e) ]
  ]

  abbrev pub unauthorized_text : Body → Text
  unauthorized_text body = elim (from_utf8 body) [
    | none ↦ codes "HTTP 401 Unauthorized"
    | some s ↦ if is_empty s then codes "HTTP 401 Unauthorized" else s
  ]

  unfoldable pub handle_response : ℕ → Body → Result HandleError S
  handle_response status body =
      if leb 200 status && ltb status 300
      then elim (from_slice body) [ ok value ↦ handle_value value | err e ↦ err (Errors.parse e) ]
      else if status == 403
      then err (
          HandleError.api
            (ApiError.ip (IpError.waf (or_else (from_utf8 body) (codes "<non-utf8 body>")))))
      else if status == 401
      then err (HandleError.api (ApiError.auth (AuthError.unauthorized (unauthorized_text body))))
      else elim (error_from_slice body) [
        | err e ↦ err (Errors.parse e)
        | ok (code, msg) ↦ err (reported code msg)
      ]
