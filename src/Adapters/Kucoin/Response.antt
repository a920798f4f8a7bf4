-- ===== src/Adapters/Kucoin/Response.antt =====
-- `handle_response` of v_exchanges_adapters/src/exchanges/kucoin.rs and the errors it answers with.
-- JSON, UTF-8 and the texts of parse errors are the libraries'.
pub mod Outcomes
pub mod Bans
use v_exchanges.Prelude.{
  ℕ, Bool, true, false, ◌&&◌, ◌++◌, Option, none, some, Text, codes, if◌then◌else◌, ◌==◌, leb, ltb,
  Result, ok, err, is_empty, text_beq,
}
use v_exchanges.Http.Errors
use v_exchanges.Http.Errors.{AuthError, ApiError, HandleError}
use v_exchanges.Adapters.Kucoin.Codes
use v_exchanges.Adapters.Kucoin.Codes.{KucoinErrorCode, of_string, as_str}

pub record Decoder (Body Value S : Type 0) : Type 0 where
  pub from_slice : Body → Result Text Value
  -- "code" and "msg", if they are strings.
  pub code : Value → Option Text
  pub msg : Value → Option Text
  pub from_value : Value → Result Text S
  pub error_from_slice : Body → Result Text (Text × Text)
  pub from_utf8 : Body → Option Text

abbrev pub or_else : Option Text → Text → Text
or_else (some t) _ = t
or_else none t = t

-- `From<KucoinError> for ApiError`.
unfoldable pub api_error : KucoinErrorCode → Text → ApiError
api_error Codes.missing_auth_header msg = ApiError.auth (AuthError.unauthorized msg)
api_error Codes.api_key_not_exist msg = ApiError.auth (AuthError.unauthorized msg)
api_error Codes.passphrase_error msg = ApiError.auth (AuthError.unauthorized msg)
api_error Codes.signature_error msg = ApiError.auth (AuthError.unauthorized msg)
api_error Codes.ip_not_whitelisted msg = ApiError.auth (AuthError.unauthorized msg)
api_error Codes.access_denied msg = ApiError.auth (AuthError.unauthorized msg)
api_error code msg = ApiError.other (codes "Kucoin API error " ++ as_str code ++ codes ": " ++ msg)

module _ {Body Value S : Type 0} (decoder : Decoder Body Value S) where
  open decoder use {from_slice, code, msg, from_value, error_from_slice, from_utf8}

  -- The code of a value, if it has one that is not the one of success.
  abbrev pub failed_code : Value → Option Text
  failed_code value = elim (code value) [
    | none ↦ none
    | some c ↦ if text_beq c (codes "200000") then none else some c
  ]

  abbrev pub reported : Text → Text → HandleError
  reported code msg = HandleError.api (api_error (of_string code) msg)

  abbrev pub handle_value : Value → Result HandleError S
  handle_value value = elim (failed_code value) [
    | some c ↦ err (reported c (or_else (msg value) (codes "Unknown error")))
    | none ↦ elim (from_value value) [ ok s ↦ ok s | err e ↦ err (Errors.parse e) ]
  ]

  abbrev unauthorized_text : Body → Text
  unauthorized_text body = elim (from_utf8 body) [
    | none ↦ codes "HTTP 401 Unauthorized"
    | some s ↦ if is_empty s then codes "HTTP 401 Unauthorized" else s
  ]

  unfoldable pub handle_response : ℕ → Body → Result HandleError S
  handle_response status body =
      if leb 200 status && ltb status 300
      then elim (from_slice body) [ ok value ↦ handle_value value | err e ↦ err (Errors.parse e) ]
      else if status == 401
      then err (HandleError.api (ApiError.auth (AuthError.unauthorized (unauthorized_text body))))
      else elim (error_from_slice body) [
        | err e ↦ err (Errors.parse e)
        | ok (code, msg) ↦ err (reported code msg)
      ]
