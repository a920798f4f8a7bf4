-- ===== src/Adapters/Access/Unbanned.antt =====
-- What a refusal of bitFlyer or Coincheck becomes.
use v_exchanges.Prelude.{ℕ, ◌≡◌, Text, err, arith}
use v_exchanges.Http.Errors.{HandleError, ApiError, IpError}
use v_exchanges.Adapters.Access.{Decoder, handle_response}

module _ {Body S : Type 0} (decoder : Decoder Body S) (name : Text) where
  -- No response is ever taken for a ban or a timeout of the address, and none for a failure of the
  -- key.
  pub handle_response-unbanned :
      (status : ℕ) (body : Body) (e : IpError)
      → ¬ (handle_response decoder name status body ≡ err (HandleError.api (ApiError.ip e)))
  unfolding handle_response
  handle_response-unbanned status body e h = ground arith
