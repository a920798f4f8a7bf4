-- ===== src/Adapters/Kucoin/Response/Outcomes.antt =====
-- How KuCoin's responses are classified.
use v_exchanges.Prelude.{
  text_beq-eq, ℕ, ◌≤◌, ◌<◌, ◌≡◌, ◌↔◌, inl, inr, true, false, none, Text, codes, text_beq, ◌||◌,
  ◌++◌, if◌then◌else◌, ok, Result-cases, arith, Bool,
}
use v_exchanges.Http.Errors.{AuthError, ApiError}
use v_exchanges.Adapters.Kucoin.Codes.{of_string, as_str}
use v_exchanges.Adapters.Kucoin.Response.{Decoder, api_error, failed_code, handle_response}

abbrev is_ip : ApiError → Bool
is_ip (ApiError.ip _) = true
is_ip _ = false

-- The codes that KuCoin sends for a bad key, signature, passphrase, address or permission.
abbrev pub refuses_key : Text → Bool
refuses_key code =
    text_beq code (codes "400001")
    || (text_beq code (codes "400003")
        || (text_beq code (codes "400004")
            || (text_beq code (codes "400005")
                || (text_beq code (codes "400006") || text_beq code (codes "400007")))))

abbrev pub expected : Text → Text → ApiError
expected code msg =
    if refuses_key code
    then ApiError.auth (AuthError.unauthorized msg)
    else ApiError.other (codes "Kucoin API error " ++ code ++ codes ": " ++ msg)

-- The six codes of a refused key are unauthorized errors, every other code is another error that
-- carries the code as it was sent, and none is an error of the address.
pub api_error-of_string : (code msg : Text) → api_error (of_string code) msg ≡ expected code msg
unfolding api_error of_string as_str
api_error-of_string code msg = ground (
  arith,
  text_beq-eq code (codes "200000"),
  text_beq-eq code (codes "400001"),
  text_beq-eq code (codes "400002"),
  text_beq-eq code (codes "400003"),
  text_beq-eq code (codes "400004"),
  text_beq-eq code (codes "400005"),
  text_beq-eq code (codes "400006"),
  text_beq-eq code (codes "400007"),
  text_beq-eq code (codes "200004"),
  text_beq-eq code (codes "400100"),
  text_beq-eq code (codes "500000"),
)

module _ {Body Value S : Type 0} (decoder : Decoder Body Value S) where
  open decoder use {from_slice, from_value}

  -- A response is taken for a success exactly if its status is one, its body is JSON whose "code" is
  -- not a string other than "200000", and the value is of the type asked for.
  pub handle_response_iff :
      (status : ℕ) (body : Body) (s : S)
      → (handle_response decoder status body ≡ ok s) ↔ (
          (200 ≤ status)
          × (status < 300)
          × ((value : Value) × (from_slice body ≡ ok value)
              × (failed_code decoder value ≡ none)
              × (from_value value ≡ ok s)))
  unfolding handle_response
  handle_response_iff status body s = (
    λ h. elim (Result-cases (from_slice body)) [
      | inl (value, p) ↦ ground arith
      | inr (e, p) ↦ ground arith
    ],
    λ (low, high, (value, p, q, r)). ground arith,
  )
