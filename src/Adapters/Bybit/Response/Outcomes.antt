-- ===== src/Adapters/Bybit/Response/Outcomes.antt =====
-- How Bybit's responses are classified.
use v_exchanges.Prelude.{
  ℕ, pos, negsuc, ◌≤◌, ◌<◌, ◌≡◌, ◌↔◌, inl, inr, refl, if◌then◌else◌, ◌==◌, arith, Text, codes, ◌||◌,
  ◌++◌, none, ok, Result-cases,
}
use v_exchanges.Http.Errors.{IpError, AuthError, ApiError}
use v_exchanges.Adapters.Bybit.Codes.{of_i32}
use v_exchanges.Adapters.Bybit.Response.{Decoder, api_error, failed_code, handle_response}

-- The meaning of Bybit's codes, by the number that is sent.
abbrev pub expected : ℕ → Text → Text → ApiError
expected n msg printed =
    if (n == 10_006) || ((n == 10_009) || (n == 10_018))
    then ApiError.ip (IpError.timeout none)
    else if n == 10_024
    then ApiError.ip (IpError.geo_blocked msg)
    else if n == 33_004
    then ApiError.auth (AuthError.key_expired msg)
    else if (n == 10_003) || ((n == 10_004) || ((n == 10_005) || ((n == 10_007) || (n == 10_010))))
    then ApiError.auth (AuthError.unauthorized msg)
    else ApiError.other (codes "Bybit error " ++ printed ++ codes ": " ++ msg)

module _ {Body Value S : Type 0} (decoder : Decoder Body Value S) where
  open decoder use {from_slice, from_value, print}

  -- The codes 10006, 10009 and 10018 are bans without an end, 10024 is a block, 33004 an expired
  -- key, 10003, 10004, 10005, 10007 and 10010 an unauthorized one; every other code, negative ones
  -- included, is another error that carries the code as it was sent.
  pub api_error-expected :
      (n : ℕ) (msg : Text)
      → (api_error decoder (of_i32 (pos n)) msg ≡ expected n msg (print (pos n)))
        × (api_error decoder (of_i32 (negsuc n)) msg
            ≡ ApiError.other (codes "Bybit error " ++ print (negsuc n) ++ codes ": " ++ msg))
  unfolding api_error of_i32
  api_error-expected n msg = (ground arith, refl)

  -- A response is taken for a success exactly if its status is one, its body is JSON without a
  -- non-zero "retCode", and the value is of the type asked for.
  pub handle_response_ok :
      (status : ℕ) (body : Body) (s : S)
      → (handle_response decoder status body ≡ ok s) ↔ (
          (200 ≤ status)
          × (status < 300)
          × ((value : Value) × (from_slice body ≡ ok value)
              × (failed_code decoder value ≡ none)
              × (from_value value ≡ ok s)))
  unfolding handle_response
  handle_response_ok status body s = (
    λ h. elim (Result-cases (from_slice body)) [
      | inl (value, p) ↦ ground arith
      | inr (e, p) ↦ ground arith
    ],
    λ (low, high, (value, p, q, r)). ground arith,
  )
