-- ===== src/Tests/Values.antt =====
-- The theorems on prices and on the errors of methods.
use v_exchanges.Prelude.{◌≡◌, true, ok, [], ◌∷◌, ◌++◌, codes, length, arith, ◌%◌, Text}
use v_exchanges.Http.Errors.{RequestError, HandleError, ApiError, AuthError}
use v_exchanges.Methods.Errors.{Error, of_request}
use v_exchanges.Core.Decimals.{dot, price_from_str}
use v_exchanges.Core.Decimals.Exact.{with_sign, signed_raw, fixed, price_from_str-exact}

-- The text "-1.25".
price_from_str-exact_example :
    price_from_str (with_sign true (codes "1" ++ dot ∷ codes "25"))
    ≡ ok (record {
      raw = signed_raw true (fixed (codes "1") (codes "25"));
      precision = length (codes "25") % 256;
    })
price_from_str-exact_example =
    price_from_str-exact true (codes "1") (codes "25") (cc) (ground arith) (ground arith)
      (ground arith)

abbrev raised : RequestError → Error Text Text
raised = of_request

abbrev refused : RequestError
refused = RequestError.handle_response (HandleError.api (ApiError.auth (AuthError.unauthorized [])))
