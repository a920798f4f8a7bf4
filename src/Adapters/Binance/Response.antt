-- ===== src/Adapters/Binance/Response.antt =====
-- `handle_response` of v_exchanges_adapters/src/exchanges/binance.rs and the errors it answers with.
-- JSON, UTF-8 and the texts of parse errors are the libraries'; a timestamp is in nanoseconds.
pub mod Answers
use v_exchanges.Prelude.{
  ℕ, ◌+◌, ◌*◌, ◌||◌, ◌++◌, Option, none, some, Text, codes, if◌then◌else◌, ◌==◌, leb, ltb, ◌&&◌,
  Result, ok, err, u32_max,
}
use v_exchanges.Http.Errors
use v_exchanges.Http.Errors.{IpError, AuthError, ApiError, HandleError}
use v_exchanges.Adapters.Binance.Codes
use v_exchanges.Adapters.Binance.Codes.{BinanceErrorCode}

pub record BinanceError : Type 0 where
  pub code : BinanceErrorCode
  pub msg : Text

-- `From<BinanceError> for ApiError`.
unfoldable pub api_error : BinanceErrorCode → Text → ApiError
api_error (Codes.rejected_mbx_key _) msg = ApiError.auth (AuthError.key_expired msg)
api_error (Codes.invalid_listen_key _) msg = ApiError.auth (AuthError.key_expired msg)
api_error (Codes.unauthorized _) msg = ApiError.auth (AuthError.unauthorized msg)
api_error (Codes.invalid_signature _) msg = ApiError.auth (AuthError.unauthorized msg)
api_error (Codes.bad_api_key_fmt _) msg = ApiError.auth (AuthError.unauthorized msg)
api_error _ msg = ApiError.other (codes "Binance API error: " ++ msg)

-- What the libraries make of a body: the response's type, an error object, the string at its "msg",
-- its text, its text with the undecodable bytes replaced, and the messages of failed parses.
pub record Decoder (Body S : Type 0) : Type 0 where
  pub from_json : Body → Result Text S
  pub error_from_json : Body → Result Text BinanceError
  pub msg_field : Body → Option Text
  pub from_utf8 : Body → Option Text
  pub from_utf8_lossy : Body → Text

-- The "Retry-After" header: absent, or present, with its text if that is ASCII. `u32::from_str` is
-- the standard library's.
abbrev pub retry_after_sec : (Text → Option ℕ) → Option (Option Text) → Option ℕ
retry_after_sec parse_u32 none = none
retry_after_sec parse_u32 (some none) = none
retry_after_sec parse_u32 (some (some string)) = parse_u32 string

abbrev or_else : Option Text → Text → Text
or_else (some t) _ = t
or_else none t = t

abbrev from_secs : ℕ → ℕ
from_secs s = s * 1_000_000_000

module _ {Body S : Type 0} (decoder : Decoder Body S) (parse_u32 : Text → Option ℕ) where
  open decoder use {from_json, error_from_json, msg_field, from_utf8, from_utf8_lossy}

  -- The answer to a ban; `now` is the clock.
  abbrev pub banned : ℕ → Option (Option Text) → HandleError
  banned now retry_after = elim (retry_after_sec parse_u32 retry_after) [
    | some s ↦ HandleError.api (ApiError.ip (IpError.timeout (some (now + from_secs s))))
    | none ↦ Errors.parse (codes "Could't interpret Retry-After header")
  ]

  unfoldable pub handle_response : ℕ → ℕ → Option (Option Text) → Body → Result HandleError S
  handle_response now status retry_after body =
      if leb 200 status && ltb status 300
      then elim (from_json body) [ ok s ↦ ok s | err e ↦ err (Errors.parse e) ]
      else if status == 403
      then err (
          HandleError.api
            (ApiError.ip (IpError.waf (or_else (from_utf8 body) (codes "<non-utf8 body>")))))
      else if status == 451
      then err (
          HandleError.api
            (ApiError.ip (IpError.geo_blocked (or_else (msg_field body) (from_utf8_lossy body)))))
      else if (status == 429) || (status == 418)
      then err (banned now retry_after)
      else elim (error_from_json body) [
        | err e ↦ err (Errors.parse e)
        | ok e ↦ err (HandleError.api (api_error e.code e.msg))
      ]
