-- ===== src/Adapters/Coincheck/Signed.antt =====
-- What a signed request to Coincheck carries.
use v_exchanges.Prelude.{
  ℕ, ◌≡◌, true, Option, Result, ok, Text, codes, arith, Result-cases, inl, inr,
}
use v_exchanges.Adapters.Access.{encoded, with_body, Request, Libraries}
use v_exchanges.Adapters.Access.Covered.{Carries, SameContents, sign_with-Carries}
use v_exchanges.Adapters.Coincheck.{CoincheckOptions, sign_contents, build_request}

module _ (lib : Libraries) {RequestConfig WebSocketConfig : Type 0}
    (o : CoincheckOptions RequestConfig WebSocketConfig) where
  -- What is signed is read off the request's URL and body.
  sign_contents-SameContents :
      (timestamp : ℕ) (r r' : Request)
      → SameContents r r'
      → sign_contents lib timestamp r ≡ sign_contents lib timestamp r'
  sign_contents-SameContents timestamp r r' (m, u, p, q, b, c) = cc

  -- With authentication on, a request that is built carries the key and the time, and is signed
  -- under the secret over the time, the whole URL, and the body, all as they are sent.
  pub build_request-covers :
      (timestamp : ℕ) (body : Option (Result Text Text)) (request r : Request)
      → o.http_auth ≡ true
      → build_request lib o timestamp body request ≡ ok r
      → Carries lib o.secret o.key timestamp (sign_contents lib timestamp r) r
  unfolding build_request
  build_request-covers timestamp body request r auth h = elim (Result-cases (encoded body)) [
    | inr (x, e) ↦ ground arith
    | inl (form, e) ↦
        (let built = with_body (codes "application/x-www-form-urlencoded") form request in
          let ((s, k, es, ek, a, t, g), same) =
            sign_with-Carries lib o.secret o.key timestamp (sign_contents lib timestamp built) built
              r (ground arith) in
          (s, k, es, ek, a, t, rw (sign_contents-SameContents timestamp r built same) g))
  ]
