-- ===== src/Methods/Errors/Surfaced.antt =====
-- Bans and refused keys reach the caller of a method as such.
use v_exchanges.Prelude.{◌≡◌, ◌⊎◌, inl, inr, refl}
use v_exchanges.Http.Errors.{RequestError, HandleError, ApiError, AuthError, IpError}
use v_exchanges.Methods.Errors
use v_exchanges.Methods.Errors.{Error, no_perm, of_request, sysexit}

module _ {TimeframeError MethodError : Type 0} where
  abbrev raised : RequestError → Error TimeframeError MethodError
  raised = of_request

  -- An error of a call makes the program exit for want of permission exactly if a response reported
  -- a refused key or a ban or block of the address, and the error then carries what was reported;
  -- every other error of a call is kept whole.
  pub of_request-sysexit :
      (e : RequestError)
      → ((sysexit (raised e) ≡ no_perm)
          × (((a : AuthError) × (e
                  ≡ RequestError.handle_response (HandleError.api (ApiError.auth a)))
                × (raised e ≡ Errors.auth a))
              ⊎ ((i : IpError) × (e
                    ≡ RequestError.handle_response (HandleError.api (ApiError.ip i)))
                  × (raised e ≡ Errors.ip i))))
        ⊎ ((sysexit (raised e) ≡ Errors.no_code) × (raised e ≡ Errors.request e))
  unfolding of_request sysexit
  of_request-sysexit (RequestError.handle_response (HandleError.api (ApiError.auth a))) =
      inl (refl, inl (a, refl, refl))
  of_request-sysexit (RequestError.handle_response (HandleError.api (ApiError.ip i))) =
      inl (refl, inr (i, refl, refl))
  of_request-sysexit (RequestError.handle_response (HandleError.api (ApiError.other t))) =
      inr (refl, refl)
  of_request-sysexit (RequestError.handle_response (HandleError.parse t)) = inr (refl, refl)
  of_request-sysexit (RequestError.send_request e) = inr (refl, refl)
  of_request-sysexit RequestError.utf8_error = inr (refl, refl)
  of_request-sysexit (RequestError.receive_response t) = inr (refl, refl)
  of_request-sysexit (RequestError.build_request e) = inr (refl, refl)
  of_request-sysexit (RequestError.url e) = inr (refl, refl)
  of_request-sysexit (RequestError.other t) = inr (refl, refl)
