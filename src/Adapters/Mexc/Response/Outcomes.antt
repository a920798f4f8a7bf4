-- ===== src/Adapters/Mexc/Response/Outcomes.antt =====
-- How MEXC's responses are classified.
use v_exchanges.Prelude.{
  ℕ, pos, negsuc, ◌+◌, ◌*◌, ◌≤◌, ◌<◌, ◌≡◌, ◌↔◌, refl, Bool, true, false, Option, none, some, Text,
  codes, ◌||◌, ◌++◌, ◌==◌, if◌then◌else◌, ok, err, Result-cases, Option-cases, inl, inr, arith,
}
use v_exchanges.Http.Errors.{IpError, AuthError, ApiError, HandleError}
use v_exchanges.Adapters.Mexc.Codes.{of_i32, MexcErrorCode}
use v_exchanges.Adapters.Mexc.Response.{
  Decoder, api_error, failed, handle_response, retry_after_sec,
}

-- The meaning of MEXC's codes, by the number that is sent.
abbrev pub expected : ℕ → Text → Text → ApiError
expected n msg printed =
    if (n == 402) || (n == 700_001)
    then ApiError.auth (AuthError.key_expired msg)
    else if (n == 602)
        || ((n == 10_001)
            || ((n == 140_002) || ((n == 700_002) || ((n == 700_007) || (n == 700_013)))))
    then ApiError.auth (AuthError.unauthorized msg)
    else ApiError.other (codes "MEXC API error " ++ printed ++ codes ": " ++ msg)

abbrev is_ip : ApiError → Bool
is_ip (ApiError.ip _) = true
is_ip _ = false

module _ {Body S : Type 0} (decoder : Decoder Body S) where
  open decoder use {from_slice, print, parse_u32}

  -- The codes 402 and 700001 are an expired key, six others an unauthorized one; every other code,
  -- negative ones included, is another error that carries the code as it was sent.
  pub api_error-expected :
      (n : ℕ) (msg : Text)
      → (api_error decoder (of_i32 (pos n)) msg ≡ expected n msg (print (pos n)))
        × (api_error decoder (of_i32 (negsuc n)) msg
            ≡ ApiError.other (codes "MEXC API error " ++ print (negsuc n) ++ codes ": " ++ msg))
  unfolding api_error of_i32
  api_error-expected n msg = (ground arith, refl)

  api_error-is_ip : (code : MexcErrorCode) (msg : Text) → is_ip (api_error decoder code msg) ≡ false
  unfolding api_error
  api_error-is_ip code msg = ground arith

  -- A response is an error of the address exactly if its status is 429 and its "Retry-After" can be
  -- read; it is then a ban for that many seconds.
  pub handle_response-ban_iff :
      (now status : ℕ) (retry_after : Option (Option Text)) (body : Body) (e : IpError)
      → (handle_response decoder now status retry_after body
          ≡ err (HandleError.api (ApiError.ip e)))
        ↔ ((status ≡ 429)
            × ((s : ℕ) × (retry_after_sec parse_u32 retry_after ≡ some s)
                × (e ≡ IpError.timeout (some (now + s * 1_000_000_000)))))
  unfolding handle_response
  handle_response-ban_iff now status retry_after body e = (
    λ h. elim (Option-cases (failed decoder body)) [
      | inl p ↦ elim (Result-cases (decoder.error_from_slice body)) [
        | inl ((code, msg), q) ↦ ground (arith, api_error-is_ip (of_i32 code) msg)
        | inr (x, q) ↦ ground arith
      ]
      | inr (envelope, p) ↦ elim (Result-cases (decoder.error_from_slice body)) [
        | inl ((code, msg), q) ↦ ground (
          arith,
          api_error-is_ip (of_i32 code) msg,
          api_error-is_ip (of_i32 envelope.code) envelope.message,
        )
        | inr (x, q) ↦ ground (arith, api_error-is_ip (of_i32 envelope.code) envelope.message)
      ]
    ],
    λ (a, (s, b, c)). ground arith,
  )

  -- A response is taken for a success exactly if its status is one, its body is no envelope that
  -- says otherwise, and the body is of the type asked for.
  pub handle_response_iff :
      (now status : ℕ) (retry_after : Option (Option Text)) (body : Body) (s : S)
      → (handle_response decoder now status retry_after body ≡ ok s) ↔ (
          (200 ≤ status) × (status < 300) × (failed decoder body ≡ none) × (from_slice body ≡ ok s))
  unfolding handle_response
  handle_response_iff now status retry_after body s = (
    λ h. elim (Option-cases (failed decoder body)) [
      | inl p ↦ ground arith
      | inr (envelope, p) ↦ ground arith
    ],
    λ (low, high, p, q). ground arith,
  )
