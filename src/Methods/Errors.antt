-- ===== src/Methods/Errors.antt =====
-- `Error` of v_exchanges_methods/src/error.rs, its conversions and its exit code. The errors of
-- timeframes and methods are of types of their own.
pub mod Surfaced
use v_exchanges.Prelude.{Text}
use v_exchanges.Http.Errors
use v_exchanges.Http.Errors.{RequestError, HandleError, ApiError, AuthError, IpError}
use v_exchanges.Ws.Messages.{WsError}
use v_exchanges.Methods.Ranges.{RequestRangeError}

pub data Error (TimeframeError MethodError : Type 0) : Type 0 where
  request : RequestError → Error TimeframeError MethodError
  ws : WsError → Error TimeframeError MethodError
  timeframe : TimeframeError → Error TimeframeError MethodError
  range : RequestRangeError → Error TimeframeError MethodError
  auth : AuthError → Error TimeframeError MethodError
  ip : IpError → Error TimeframeError MethodError
  method : MethodError → Error TimeframeError MethodError
  other : Text → Error TimeframeError MethodError

pub data Sysexit : Type 0 where
  no_perm no_code : Sysexit

module _ {TimeframeError MethodError : Type 0} where
  -- `From<RequestError>`.
  unfoldable pub of_request : RequestError → Error TimeframeError MethodError
  of_request (RequestError.handle_response (HandleError.api (ApiError.auth e))) = auth e
  of_request (RequestError.handle_response (HandleError.api (ApiError.ip e))) = ip e
  of_request e = request e

  unfoldable pub sysexit : Error TimeframeError MethodError → Sysexit
  sysexit (auth _) = no_perm
  sysexit (ip _) = no_perm
  sysexit _ = no_code
