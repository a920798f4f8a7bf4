-- ===== src/Adapters/Kucoin/Signing.antt =====
-- `build_request` of v_exchanges_adapters/src/exchanges/kucoin.rs. HMAC, the printing of numbers and
-- what a header may hold are the libraries'; `timestamp` is in milliseconds.
pub mod Covered
use v_exchanges.Prelude.{
  ℕ, Bool, true, false, Option, none, some, ◌∷◌, ◌++◌, Result, ok, err, Text, codes, if◌then◌else◌,
  is_empty, [],
}
use v_exchanges.Http.Errors
use v_exchanges.Http.Errors.{ConstructAuthError, BuildError}
use v_exchanges.Adapters.Kucoin.Options.{KucoinOptions, KucoinAuth, sign, no_auth}

-- A request, as far as the handler reads or sets it.
pub record Request : Type 0 where
  pub method : Text
  pub path : Text
  pub query : Option Text
  pub body : Option Text
  pub content_type : Option Text
  pub kc_api_key : Option Text
  pub kc_api_sign : Option Text
  pub kc_api_timestamp : Option Text
  pub kc_api_passphrase : Option Text
  pub kc_api_key_version : Option Text

pub record Libraries : Type 0 where
  pub to_text : ℕ → Text
  -- The HMAC-SHA256 of a message under a secret, in base 64.
  pub hmac : Text → Text → Text
  -- Why a text is no value of a header, if it is none.
  pub header_error : Text → Option Text

abbrev pub endpoint_with_query : Request → Text
endpoint_with_query r = elim r.query [
  | none ↦ r.path
  | some q ↦ if is_empty q then r.path else r.path ++ codes "?" ++ q
]

abbrev json_type : Text
json_type = codes "application/json"

abbrev body_text : Option Text → Text
body_text none = []
body_text (some t) = t

module _ (lib : Libraries) where
  open lib use {to_text, hmac, header_error}

  abbrev pub prehash : ℕ → Text → Request → Text
  prehash timestamp body r = to_text timestamp ++ r.method ++ endpoint_with_query r ++ body

  -- A header is set, or the request fails with the error made of the reason.
  abbrev with_header :
      Text → (Text → ConstructAuthError) → Result BuildError Request → Result BuildError Request
  with_header value failure rest = elim (header_error value) [
    | none ↦ rest
    | some e ↦ err (BuildError.auth (failure e))
  ]

  unfoldable pub authenticate : Text → Text → Text → ℕ → Text → Request → Result BuildError Request
  authenticate pubkey secret passphrase timestamp body request =
      let signature = hmac secret (prehash timestamp body request) in
      let encrypted_passphrase = hmac secret passphrase in
      with_header pubkey ConstructAuthError.invalid_character_in_api_key (
        with_header signature (λ e. ConstructAuthError.other (codes "Invalid signature: " ++ e))
          (with_header (to_text timestamp)
            (λ e. ConstructAuthError.other (codes "Invalid timestamp: " ++ e))
            (with_header encrypted_passphrase
              (λ e. ConstructAuthError.other (codes "Invalid passphrase: " ++ e))
              (ok (record request {
                kc_api_key = some pubkey;
                kc_api_sign = some signature;
                kc_api_timestamp = some (to_text timestamp);
                kc_api_passphrase = some encrypted_passphrase;
                kc_api_key_version = some (codes "2");
                content_type = some json_type;
              })))))

  abbrev with_body : Option Text → Request → Request
  with_body none request = request
  with_body (some json) request = record request { body = some json; content_type = some json_type }

  abbrev encoded : Option (Result Text Text) → Result Text (Option Text)
  encoded none = ok none
  encoded (some (ok t)) = ok (some t)
  encoded (some (err e)) = err e

  module _ {WsConfig : Type 0} (options : KucoinOptions WsConfig) where
    -- `build_request` on what the client's builder gives; the body is given with its JSON.
    unfoldable pub build_request :
        ℕ → Option (Result Text Text) → Request → Result BuildError Request
    unfolding authenticate
    build_request timestamp body request = elim (encoded body) [
      | err e ↦ err (Errors.json_serialization e)
      | ok json ↦ elim options.http_auth [
        | no_auth ↦ ok (with_body json request)
        | sign ↦ elim options.pubkey [
          | none ↦ err (BuildError.auth ConstructAuthError.missing_pubkey)
          | some k ↦ elim options.secret [
            | none ↦ err (BuildError.auth ConstructAuthError.missing_secret)
            | some s ↦ elim options.passphrase [
              | none ↦ err (BuildError.auth (ConstructAuthError.other (codes "Missing passphrase")))
              | some p ↦ authenticate k s p timestamp (body_text json) (with_body json request)
            ]
          ]
        ]
      ]
    ]
