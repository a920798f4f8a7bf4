-- ===== src/Adapters/Mexc/Response.antt =====
-- `handle_response` of v_exchanges_adapters/src/exchanges/mexc.rs and the errors it answers with.
-- JSON, UTF-8, the printing of integers and the texts of parse errors are the libraries'; a timestamp
-- is in nanoseconds.
pub mod Outcomes
use v_exchanges.Prelude.{
  ℕ, ◌+◌, ◌*◌, ℤ, Bool, true, false, ◌&&◌, ◌++◌, Option, none, some, Text, codes, if◌then◌else◌,
  ◌==◌, leb, ltb, Result, ok, err, is_empty,
}
use v_exchanges.Http.Errors
use v_exchanges.Http.Errors.{IpError, AuthError, ApiError, HandleError}
use v_exchanges.Adapters.Mexc.Codes
use v_exchanges.Adapters.Mexc.Codes.{MexcErrorCode, of_i32}

pub record MexcEnvelope : Type 0 where
  pub success : Bool
  pub code : ℤ
  pub message : Text

pub record Decoder (Body S : Type 0) : Type 0 where
  pub envelope : Body → Option MexcEnvelope
  pub from_slice : Body → Result Text S
  pub error_from_slice : Body → Result Text (ℤ × Text)
  pub from_utf8 : Body → Option Text
  pub print : ℤ → Text
  -- `u32::from_str`
  pub parse_u32 : Text → Option ℕ

-- The "Retry-After" header: absent, or present, with its text if that is ASCII.
abbrev pub retry_after_sec : (Text → Option ℕ) → Option (Option Text) → Option ℕ
retry_after_sec parse_u32 none = none
retry_after_sec parse_u32 (some none) = none
retry_after_sec parse_u32 (some (some string)) = parse_u32 string

module _ {Body S : Type 0} (decoder : Decoder Body S) where
  open decoder use {envelope, from_slice, error_from_slice, from_utf8, print, parse_u32}

  -- `From<MexcError> for ApiError`.
  unfoldable pub api_error : MexcErrorCode → Text → ApiError
  api_error (Codes.api_key_expired _) msg = ApiError.auth (AuthError.key_expired msg)
  api_error (Codes.unauthorized _) msg = ApiError.auth (AuthError.unauthorized msg)
  api_error (Codes.invalid_api_key _) msg = ApiError.auth (AuthError.unauthorized msg)
  api_error (Codes.invalid_signature _) msg = ApiError.auth (AuthError.unauthorized msg)
  api_error (Codes.signature_not_valid _) msg = ApiError.auth (AuthError.unauthorized msg)
  api_error code msg =
      ApiError.other (codes "MEXC API error " ++ print (Codes.as_i32 code) ++ codes ": " ++ msg)

  abbrev pub reported : ℤ → Text → HandleError
  reported code msg = HandleError.api (api_error (of_i32 code) msg)

  -- The envelope of the futures API under a status of success, if it says that the call failed.
  abbrev pub failed : Body → Option MexcEnvelope
  failed body = elim (envelope body) [ none ↦ none | some e ↦ if e.success then none else some e ]

  abbrev pub handle_success : Body → Result HandleError S
  handle_success body = elim (failed body) [
    | some e ↦ err (reported e.code e.message)
    | none ↦ elim (from_slice body) [ ok s ↦ ok s | err e ↦ err (Errors.parse e) ]
  ]

  abbrev unauthorized_text : Body → Text
  unauthorized_text body = elim (from_utf8 body) [
    | none ↦ codes "HTTP 401 Unauthorized"
    | some s ↦ if is_empty s then codes "HTTP 401 Unauthorized" else s
  ]

  -- The answer to the status 429; `now` is the clock.
  abbrev pub too_many : ℕ → Option (Option Text) → HandleError
  too_many now retry_after = elim (retry_after_sec parse_u32 retry_after) [
    | some s ↦ HandleError.api (ApiError.ip (IpError.timeout (some (now + s * 1_000_000_000))))
    | none ↦ Errors.parse (codes "Could't interpret Retry-After header")
  ]

  unfoldable pub handle_response : ℕ → ℕ → Option (Option Text) → Body → Result HandleError S
  handle_response now status retry_after body =
      if leb 200 status && ltb status 300
      then handle_success body
      else if status == 401
      then err (HandleError.api (ApiError.auth (AuthError.unauthorized (unauthorized_text body))))
      else if status == 429
      then err (too_many now retry_after)
      else elim (error_from_slice body) [
        | err e ↦ err (Errors.parse e)
        | ok (code, msg) ↦ err (reported code msg)
      ]
