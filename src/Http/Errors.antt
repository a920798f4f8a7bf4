-- ===== src/Http/Errors.antt =====
-- The error types of v_exchanges_api_generics/src/http.rs and src/lib.rs. Messages and foreign
-- errors are texts.
use v_exchanges.Prelude.{ℕ, Bool, Option, Text, not, ◌&&◌, ◌||◌}

pub data IpError : Type 0 where
  timeout : Option ℕ → IpError
  waf geo_blocked : Text → IpError

pub data AuthError : Type 0 where
  key_expired unauthorized : Text → AuthError

pub data ApiError : Type 0 where
  ip : IpError → ApiError
  auth : AuthError → ApiError
  other : Text → ApiError

pub data HandleError : Type 0 where
  api : ApiError → HandleError
  parse : Text → HandleError

pub data ConstructAuthError : Type 0 where
  missing_pubkey missing_secret : ConstructAuthError
  invalid_character_in_api_key : Text → ConstructAuthError
  other : Text → ConstructAuthError

pub data BuildError : Type 0 where
  auth : ConstructAuthError → BuildError
  url_serialization json_serialization other : Text → BuildError

pub data UrlError : Type 0 where
  parse missing_testnet : Text → UrlError

-- What `reqwest::Error` answers about itself.
pub record SendError : Type 0 where
  pub is_timeout : Bool
  pub is_connect : Bool
  pub is_request : Bool
  pub has_status : Bool

-- `is_retryable_request_error`.
abbrev pub is_retryable_request_error : SendError → Bool
is_retryable_request_error e = e.is_timeout || (e.is_connect || (e.is_request && not e.has_status))

pub data RequestError : Type 0 where
  send_request : SendError → RequestError
  utf8_error : RequestError
  receive_response : Text → RequestError
  build_request : BuildError → RequestError
  handle_response : HandleError → RequestError
  url : UrlError → RequestError
  other : Text → RequestError
