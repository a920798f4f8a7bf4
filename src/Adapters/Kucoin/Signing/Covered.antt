-- ===== src/Adapters/Kucoin/Signing/Covered.antt =====
-- What a signed request of KuCoin carries, and which options it needs.
use v_exchanges.Prelude.{
  ℕ, ◌≡◌, inl, inr, true, Option, none, some, Result, ok, Text, codes, arith, Option-cases, sym,
  refl, is_empty, if◌then◌else◌, [], ◌∷◌, ◌++◌,
}
use mathlib.Core.List.{append_assoc, append-nil}
use v_exchanges.Adapters.Kucoin.Options.{KucoinOptions, sign, is_authenticated}
use v_exchanges.Adapters.Kucoin.Signing.{
  Request, Libraries, endpoint_with_query, authenticate, build_request,
}

-- The text of the body that is sent.
abbrev pub sent_body : Request → Text
sent_body r = elim r.body [ none ↦ codes "" | some b ↦ b ]

abbrev pub question : Text → Text
question [] = []
question (c ∷ s) = codes "?" ++ c ∷ s

-- The path with the query that is sent, if there is any.
abbrev pub sent_target : Request → Text
sent_target r = elim r.query [ none ↦ r.path | some q ↦ r.path ++ question q ]

endpoint-question :
    (path q : Text) → (if is_empty q then path else path ++ codes "?" ++ q) ≡ path ++ question q
endpoint-question path [] = sym (append-nil path)
endpoint-question path (c ∷ s) = append_assoc path (codes "?") (c ∷ s)

endpoint-sent : (r : Request) → endpoint_with_query r ≡ sent_target r
endpoint-sent r = elim (Option-cases r.query) [
  | inl e ↦ rw e refl
  | inr (q, e) ↦ rw e (endpoint-question r.path q)
]

module _ (lib : Libraries) {WsConfig : Type 0} (options : KucoinOptions WsConfig) where
  open lib use {to_text, hmac}

  -- A request that was built for signed access, from one without a body, has been authenticated by
  -- the options: it carries their key, the time, their passphrase under their secret, and a
  -- signature under that secret of the time, the method, the path with the query, and the body as
  -- they are sent.
  pub build_request-authenticated :
      (timestamp : ℕ) (body : Option (Result Text Text)) (request r : Request)
      → options.http_auth ≡ sign
      → request.body ≡ none
      → build_request lib options timestamp body request ≡ ok r
      → (is_authenticated options ≡ true)
        × (r.kc_api_key ≡ options.pubkey)
        × (r.kc_api_timestamp ≡ some (to_text timestamp))
        × ((secret : Text) × (passphrase : Text) × (options.secret ≡ some secret)
            × (options.passphrase ≡ some passphrase)
            × (r.kc_api_passphrase ≡ some (hmac secret passphrase))
            × (r.kc_api_sign
                ≡ some
                    (hmac secret (to_text timestamp ++ r.method ++ sent_target r ++ sent_body r))))
  unfolding build_request authenticate
  build_request-authenticated timestamp body request r auth fresh h =
      elim (Option-cases options.pubkey) [
        | inl e ↦ ground arith
        | inr (k, e) ↦ elim (Option-cases options.secret) [
          | inl f ↦ ground arith
          | inr (s, f) ↦ elim (Option-cases options.passphrase) [
            | inl g ↦ ground arith
            | inr (p, g) ↦ (
              ground arith,
              ground arith,
              ground arith,
              (s, p, f, g, ground arith, rw (sym (endpoint-sent r)) (ground arith)),
            )
          ]
        ]
      ]
