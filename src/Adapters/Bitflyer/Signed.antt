-- ===== src/Adapters/Bitflyer/Signed.antt =====
-- What a signed request to bitFlyer carries.
use v_exchanges.Prelude.{
  ℕ, ◌≡◌, true, Option, some, Result, ok, Text, codes, arith, Result-cases, inl, inr,
}
use v_exchanges.Adapters.Access.{encoded, with_body, Request, Libraries}
use v_exchanges.Adapters.Access.Covered.{Carries, SameContents, sign_with-Carries}
use v_exchanges.Adapters.Bitflyer.{BitFlyerOptions, sign_contents, build_request}

module _ (lib : Libraries) {RequestConfig WebSocketConfig : Type 0}
    (o : BitFlyerOptions RequestConfig WebSocketConfig) where
  -- What is signed is read off the request's method, path, query and body.
  sign_contents-SameContents :
      (timestamp : ℕ) (r r' : Request)
      → SameContents r r'
      → sign_contents lib timestamp r ≡ sign_contents lib timestamp r'
  sign_contents-SameContents timestamp r r' (m, u, p, q, b, c) = cc

  -- With authentication on, a request that is built carries the key and the time, and is signed
  -- under the secret over the time, the method, the path with the query, and the body, all as they
  -- are sent.
  pub build_request-signs :
      (timestamp : ℕ) (body : Option (Result Text Text)) (request r : Request)
      → o.http_auth ≡ true
      → build_request lib o timestamp body request ≡ ok r
      → Carries lib o.secret o.key timestamp (sign_contents lib timestamp r) r
        × (r.content_type ≡ some (codes "application/json"))
  unfolding build_request
  build_request-signs timestamp body request r auth h = elim (Result-cases (encoded body)) [
    | inr (x, e) ↦ ground arith
    | inl (json, e) ↦
        (let built = with_body (codes "application/json") json request in
          let sent = record built { content_type = some (codes "application/json") } in
          let ((s, k, es, ek, a, t, g), same) =
            sign_with-Carries lib o.secret o.key timestamp (sign_contents lib timestamp sent) sent r
              (ground arith) in
          (
            (s, k, es, ek, a, t, rw (sign_contents-SameContents timestamp r sent same) g),
            ground arith,
          ))
  ]
